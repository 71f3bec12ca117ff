-- ===== src/Prelude/Keys.antt =====
-- Go's comparable types: those whose values `==` compares. A key of a map is of such a type.
use Prim.Native.Nat.{ℕ}
use Prim.Native.Char.{code}
use Prim.Native.String.{String}
use mathlib.Core.Path.{◌≡◌, refl, sym}
use mathlib.Core.Bool.{Bool, true, false}
use mathlib.Core.List.{List, [], ◌∷◌, cons≢nil, tail-eq_of_cons-eq, head-eq_of_cons-eq}
use native.Mathlib.Omega.{arith}
use native.Mathlib.Decide.{ℕ_discrete}

pub record Comparable {ℓ} (A : Type ℓ) : Type ℓ where
  pub eq : Discrete A

infix 50 ◌==◌
abbrev pub ◌==◌ {ℓ} : {A : Type ℓ} ⦃c : Comparable A⦄ → A → A → Bool
◌==◌ ⦃c⦄ a b = elim (c.eq a b) [ yes _ ↦ true | no _ ↦ false ]

pub ==_refl {ℓ} : {A : Type ℓ} ⦃c : Comparable A⦄ (a : A) → (a == a) ≡ true
==_refl ⦃c⦄ a = ground arith

-- A Go string is a sequence of bytes.
abbrev pub Text : Type 0
Text = List ℕ

-- A text literal's bytes (it is ASCII).
abbrev pub codes : String → Text
codes String.[] = []
codes (String.◌∷◌ c s) = code c ∷ codes s

heads :
    {x y : ℕ} {xs ys : Text}
    → Dec (x ≡ y)
    → Dec (Path Text xs ys)
    → Dec (Path Text (x ∷ xs) (y ∷ ys))
heads (yes p) (yes q) = yes (λ i. p i ∷ q i)
heads (yes p) (no n) = no (λ e. n (tail-eq_of_cons-eq e))
heads (no n) q = no (λ e. n (head-eq_of_cons-eq e))

unfoldable pub Text-discrete : Discrete Text
unfolding heads ℕ_discrete
Text-discrete [] [] = yes refl
Text-discrete [] (y ∷ ys) = no (λ e. cons≢nil (sym e))
Text-discrete (x ∷ xs) [] = no (λ e. cons≢nil e)
Text-discrete (x ∷ xs) (y ∷ ys) = heads (ℕ_discrete x y) (Text-discrete xs ys)

instance abbrev pub nat_comparable : Comparable ℕ
nat_comparable = record { eq = ℕ_discrete }

instance abbrev pub text_comparable : Comparable Text
text_comparable = record { eq = Text-discrete }
