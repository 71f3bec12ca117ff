-- ===== src/Order.antt =====
-- `sort.Slice` of Go's standard library on a numeric key, as an insertion sort. pkg/controller sorts
-- ports and forward responses with it.
use hostlink.Prelude.{
  ℕ, ◌≤◌, ◌≡◌, refl, Bool, true, false, Text, ◌||◌, List, [], ◌∷◌, if◌then◌else◌, leb, ◌==◌,
  nat_comparable, arith,
}

abbrev pub member : ℕ → List ℕ → Bool
member p [] = false
member p (q ∷ ps) = q == p || member p ps

module _ {ℓ} {A : Type ℓ} (key : A → ℕ) where
  unfoldable pub insert_by : A → List A → List A
  insert_by a [] = a ∷ []
  insert_by a (b ∷ bs) = if leb (key a) (key b) then a ∷ b ∷ bs else b ∷ insert_by a bs

  unfoldable pub sort_by : List A → List A
  unfolding insert_by
  sort_by [] = []
  sort_by (a ∷ rest) = insert_by a (sort_by rest)

  abbrev pub IsSorted : List A → Type 0
  IsSorted [] = Unit
  IsSorted (a ∷ []) = Unit
  IsSorted (a ∷ b ∷ bs) = (key a ≤ key b) × IsSorted (b ∷ bs)

  insert_by-IsSorted : (a : A) (bs : List A) → IsSorted bs → IsSorted (insert_by a bs)
  unfolding insert_by
  insert_by-IsSorted a [] s = tt
  insert_by-IsSorted a (b ∷ []) s = ground arith
  insert_by-IsSorted a (b ∷ c ∷ bs) s = ground (arith, insert_by-IsSorted a (c ∷ bs) s.1)

  pub sort_by-IsSorted : (bs : List A) → IsSorted (sort_by bs)
  unfolding sort_by
  sort_by-IsSorted [] = tt
  sort_by-IsSorted (a ∷ rest) = insert_by-IsSorted a (sort_by rest) (sort_by-IsSorted rest)

  -- Whether some element passes the test.
  unfoldable pub any : (A → Bool) → List A → Bool
  any test [] = false
  any test (a ∷ rest) = test a || any test rest

  any-insert_by :
      (test : A → Bool) (a : A) (bs : List A) → any test (insert_by a bs) ≡ (test a || any test bs)
  unfolding any insert_by
  any-insert_by test a [] = refl
  any-insert_by test a (b ∷ bs) = ground (arith, any-insert_by test a bs)

  pub any-sort_by : (test : A → Bool) (bs : List A) → any test (sort_by bs) ≡ any test bs
  unfolding any sort_by
  any-sort_by test [] = refl
  any-sort_by test (a ∷ rest) =
      ground (arith, any-insert_by test a (sort_by rest), any-sort_by test rest)

-- `sort.Slice` with a comparison.
module _ {ℓ} {A : Type ℓ} (le : A → A → Bool) where
  unfoldable pub insert_with : A → List A → List A
  insert_with a [] = a ∷ []
  insert_with a (b ∷ bs) = if le a b then a ∷ b ∷ bs else b ∷ insert_with a bs

  unfoldable pub sort_with : List A → List A
  unfolding insert_with
  sort_with [] = []
  sort_with (a ∷ rest) = insert_with a (sort_with rest)

-- `<=` on strings, byte by byte.
unfoldable pub text_leb : Text → Text → Bool
text_leb [] t = true
text_leb (b ∷ s) [] = false
text_leb (b ∷ s) (c ∷ t) = if b == c then text_leb s t else leb b c

-- `sortedPorts`
unfoldable pub sorted_ports : List ℕ → List ℕ
unfolding sort_by
sorted_ports ports = sort_by (λ p. p) ports

member-insert_by :
    (p a : ℕ) (bs : List ℕ) → member p (insert_by (λ q. q) a bs) ≡ (a == p || member p bs)
unfolding insert_by
member-insert_by p a [] = refl
member-insert_by p a (b ∷ bs) = ground (arith, member-insert_by p a bs)

pub member-sorted_ports : (p : ℕ) (ports : List ℕ) → member p (sorted_ports ports) ≡ member p ports
unfolding sorted_ports sort_by
member-sorted_ports p [] = refl
member-sorted_ports p (a ∷ rest) =
    ground (arith, member-insert_by p a (sorted_ports rest), member-sorted_ports p rest)

pub sorted_ports-IsSorted : (ports : List ℕ) → IsSorted (λ p. p) (sorted_ports ports)
unfolding sorted_ports
sorted_ports-IsSorted ports = sort_by-IsSorted (λ p. p) ports
