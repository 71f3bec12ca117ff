-- ===== src/Map/Laws.antt =====
-- What a lookup finds after each operation on a map.
use hostlink.Prelude.{
  [], ◌∷◌, none, some, Comparable, ◌==◌, if◌then◌else◌, arith, ◌≡◌, refl, true, not, ◌&&◌, ◌||◌,
}
use hostlink.Map.{Map, get, put, delete, has}

module _ {ℓ κ} {K : Type ℓ} {V : Type κ} ⦃c : Comparable K⦄ where
  pub get-put :
      (m : Map K V) (k j : K) (v : V) → get (put m k v) j ≡ (if k == j then some v else get m j)
  unfolding get put
  get-put [] k j v = refl
  get-put ((i, w) ∷ m) k j v = ground (arith, get-put m k j v)

  pub get-delete : (m : Map K V) (k j : K) → get (delete m k) j ≡ (if k == j then none else get m j)
  unfolding get delete
  get-delete [] k j = ground arith
  get-delete ((i, w) ∷ m) k j = ground (arith, get-delete m k j)

  -- No key stands twice.
  abbrev pub Distinct : Map K V → Type κ
  Distinct [] = Unit
  Distinct ((k, v) ∷ m) = (get m k ≡ none) × Distinct m

  pub put-Distinct : (m : Map K V) (k : K) (v : V) → Distinct m → Distinct (put m k v)
  unfolding get put
  put-Distinct [] k v d = (refl, tt)
  put-Distinct ((j, w) ∷ m) k v d = ground (arith, get-put m k j v, put-Distinct m k v d.1)

  pub delete-Distinct : (m : Map K V) (k : K) → Distinct m → Distinct (delete m k)
  unfolding get delete
  delete-Distinct [] k d = tt
  delete-Distinct ((j, w) ∷ m) k d = ground (arith, get-delete m k j, delete-Distinct m k d.1)

  pub has-put : (m : Map K V) (k j : K) (v : V) → has (put m k v) j ≡ (k == j || has m j)
  unfolding has
  has-put m k j v = ground (arith, get-put m k j v)

  pub has-delete : (m : Map K V) (k j : K) → has (delete m k) j ≡ (not (k == j) && has m j)
  unfolding has
  has-delete m k j = ground (arith, get-delete m k j)

  pub get-of-has : (m : Map K V) (k : K) → has m k ≡ true → (v : V) × (get m k ≡ some v)
  unfolding has
  get-of-has m k h = ground arith

pub ruleset map_laws = (get-put, get-delete)
