-- ===== src/Map.antt =====
-- Go maps, as association lists. A `range` over a map visits the list in its order: a theorem about
-- every list is a theorem about every order of iteration.
pub mod Laws
use mathlib.Core.List.{filter_map}
use hostlink.Prelude.{Bool, List, [], ◌∷◌, Option, none, some, Comparable, ◌==◌, if◌then◌else◌, map}

abbrev pub Map {ℓ κ} : Type ℓ → Type κ → Type (ℓ ⊔ κ)
Map K V = List (K × V)

module _ {ℓ κ} {K : Type ℓ} {V : Type κ} ⦃c : Comparable K⦄ where
  -- `m[k]`, with the second result of `v, ok := m[k]`.
  unfoldable pub get : Map K V → K → Option V
  get [] k = none
  get ((j, v) ∷ m) k = if j == k then some v else get m k

  -- `m[k] = v`
  unfoldable pub put : Map K V → K → V → Map K V
  put [] k v = (k, v) ∷ []
  put ((j, w) ∷ m) k v = if j == k then (k, v) ∷ m else (j, w) ∷ put m k v

  -- `delete(m, k)`
  unfoldable pub delete : Map K V → K → Map K V
  delete [] k = []
  delete ((j, v) ∷ m) k = let rest = delete m k in if j == k then rest else (j, v) ∷ rest

  -- The second result of `_, ok := m[k]`.
  unfoldable pub has : Map K V → K → Bool
  unfolding get
  has m k = elim (get m k) [ some _ ↦ Bool.true | none ↦ Bool.false ]

abbrev pub keys {ℓ κ} : {K : Type ℓ} {V : Type κ} → Map K V → List K
keys m = map (λ e. e.0) m
