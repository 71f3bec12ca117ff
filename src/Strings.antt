-- ===== src/Strings.antt =====
-- The package `strings` of Go's standard library, where this repository calls it.
use hostlink.Prelude.{
  ℕ, ◌≡◌, ◌≢◌, refl, Option, none, some, List, [], ◌∷◌, ◌++◌, Text, ◌==◌, if◌then◌else◌, arith, All,
  nat_comparable, Bool-cases, inl, inr,
}

-- Puts a byte in front of the first part.
abbrev pub cons_first : ℕ → List Text → List Text
cons_first c [] = (c ∷ []) ∷ []
cons_first c (s ∷ parts) = (c ∷ s) ∷ parts

-- `strings.Split(s, sep)` for a separator of one byte
unfoldable pub split : ℕ → Text → List Text
split sep [] = [] ∷ []
split sep (c ∷ s) = let rest = split sep s in if c == sep then [] ∷ rest else cons_first c rest

-- `strings.HasPrefix` and `strings.TrimPrefix` in one: the text behind the prefix.
unfoldable pub cut_prefix : Text → Text → Option Text
cut_prefix [] s = some s
cut_prefix (p ∷ ps) [] = none
cut_prefix (p ∷ ps) (c ∷ s) = if c == p then cut_prefix ps s else none

pub cut_prefix-append : (p s : Text) → cut_prefix p (p ++ s) ≡ some s
unfolding cut_prefix
cut_prefix-append [] s = refl
cut_prefix-append (c ∷ p) s = ground (arith, cut_prefix-append p s)

pub split_whole : (sep : ℕ) (s : Text) → All (λ c. c ≢ sep) s → split sep s ≡ s ∷ []
unfolding split
split_whole sep [] a = refl
split_whole sep (c ∷ s) a = ground (arith, split_whole sep s a.1)

pub split_at :
    (sep : ℕ) (s t : Text) → All (λ c. c ≢ sep) s → split sep (s ++ sep ∷ t) ≡ s ∷ split sep t
unfolding split
split_at sep [] t a = ground arith
split_at sep (c ∷ s) t a = ground (arith, split_at sep s t a.1)

-- There is always a first part.
split_first : (sep : ℕ) (s : Text) → (p : Text) × (ps : List Text) × (split sep s ≡ p ∷ ps)
unfolding split
split_first sep [] = ([], [], refl)
split_first sep (c ∷ s) =
    let (p, ps, e) = split_first sep s in
    elim (Bool-cases (c == sep)) [
      | inl at_sep ↦ ([], split sep s, rw at_sep refl)
      | inr inside ↦ (c ∷ p, ps, rw (inside, e) refl)
    ]

-- Splitting at a separator in the middle splits both sides.
pub split-append : (sep : ℕ) (s t : Text) → split sep (s ++ sep ∷ t) ≡ split sep s ++ split sep t
unfolding split
split-append sep [] t = ground arith
split-append sep (c ∷ s) t =
    let (p, ps, e) = split_first sep s in ground (arith, e, split-append sep s t)

-- No part has the separator in it.
pub split_parts_clean : (sep : ℕ) (s : Text) → All (λ part. All (λ c. c ≢ sep) part) (split sep s)
unfolding split
split_parts_clean sep [] = (tt, tt)
split_parts_clean sep (c ∷ s) =
    let (p, ps, e) = split_first sep s in ground (arith, e, split_parts_clean sep s)
