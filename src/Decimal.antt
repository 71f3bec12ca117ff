-- ===== src/Decimal.antt =====
-- `strconv` of Go's standard library at base 10, over the bytes of a text: `ParseUint` and
-- `FormatUint`, which pkg/controller uses for ports and request ids.
use hostlink.Prelude.{
  ℕ, zero, suc, ◌+◌, ◌-◌, ◌*◌, ◌/◌, ◌%◌, ◌^◌, ◌≤◌, ◌<◌, ◌≡◌, ◌≢◌, refl, Bool, ◌&&◌, Option, none,
  some, List, [], ◌∷◌, ◌++◌, Text, All, ltb, leb, le→leb, ltb→lt, Bool-cases, inl, inr,
  if◌then◌else◌, arith,
}
use mathlib.Core.List.{append_assoc, append-nil}
use hostlink.Prelude.{ap, sym, ◌∙◌}

abbrev pub is_digit : ℕ → Bool
is_digit c = leb b'0' c && leb c b'9'

-- The loop of `ParseUint`: `none` on a byte that is no digit and on a value above `limit`.
unfoldable pub parse_digits : ℕ → ℕ → Text → Option ℕ
parse_digits limit n [] = some n
parse_digits limit n (c ∷ s) =
    let n' = n * 10 + (c - 48) in
    let rest = parse_digits limit n' s in if is_digit c && leb n' limit then rest else none

-- `strconv.ParseUint(s, 10, bits)`
unfoldable pub parse_uint : ℕ → Text → Option ℕ
unfolding parse_digits
parse_uint bits [] = none
parse_uint bits (c ∷ s) = parse_digits (2 ^ bits - 1) 0 (c ∷ s)

unfoldable pub format_digits : ℕ → ℕ → Text
format_digits zero n = []
format_digits (suc f) n =
    let front = format_digits f (n / 10) in
    if ltb n 10 then (n + 48) ∷ [] else front ++ (n % 10 + 48) ∷ []

-- `strconv.FormatUint(n, 10)`: a number has no more than `n + 1` digits.
unfoldable pub format_uint : ℕ → Text
unfolding format_digits
format_uint n = format_digits (suc n) n

parse_digits_step :
    (limit m d : ℕ) (rest : Text)
    → d < 10
    → m * 10 + d ≤ limit
    → parse_digits limit m ((d + 48) ∷ rest) ≡ parse_digits limit (m * 10 + d) rest
unfolding parse_digits
parse_digits_step limit m d rest lt le =
    let e : d + 48 - 48 ≡ d = omega arith in
    rw e (
      rw (le→leb 48 (d + 48) (omega arith), le→leb (d + 48) 57 (omega arith), le→leb _ limit le)
        refl)

parse-format_digits :
    (limit f n : ℕ) (rest : Text)
    → n < f
    → n ≤ limit
    → parse_digits limit 0 (format_digits f n ++ rest) ≡ parse_digits limit n rest
unfolding format_digits
parse-format_digits limit zero n rest lt le = absurd (omega arith)
parse-format_digits limit (suc f) n rest lt le = elim (Bool-cases (ltb n 10)) [
  | inl small ↦
      rw (small, parse_digits_step limit 0 n rest (ltb→lt n 10 small) (omega arith))
        (ap (λ k. parse_digits limit k rest) (omega arith))
  | inr large ↦
      rw (large, append_assoc)
        (rw
          (parse-format_digits limit f (n / 10) ((n % 10 + 48) ∷ rest) (ground arith) (omega arith))
          (rw (parse_digits_step limit (n / 10) (n % 10) rest (omega arith) (omega arith))
            (ap (λ k. parse_digits limit k rest) (omega arith))))
]

-- Every value that the limit admits is read back.
pub parse_digits-format_uint :
    (limit n : ℕ) → n ≤ limit → parse_digits limit 0 (format_uint n) ≡ some n
unfolding format_uint parse_digits
parse_digits-format_uint limit n le =
    rw (sym (append-nil (format_digits (suc n) n)))
      (parse-format_digits limit (suc n) n [] (omega arith) le)

snoc-ne-nil : (s : Text) (c : ℕ) → s ++ c ∷ [] ≢ []
snoc-ne-nil [] c e = cc
snoc-ne-nil (d ∷ s) c e = cc

format_uint-ne-nil : (n : ℕ) → format_uint n ≢ []
unfolding format_uint format_digits
format_uint-ne-nil n = ground (arith, snoc-ne-nil (format_digits n (n / 10)) (n % 10 + 48))

parse_uint-eq : (bits : ℕ) (s : Text) → s ≢ [] → parse_uint bits s ≡ parse_digits (2 ^ bits - 1) 0 s
unfolding parse_uint
parse_uint-eq bits [] h = absurd (h refl)
parse_uint-eq bits (c ∷ s) h = refl

pub parse_uint-format_uint :
    (bits n : ℕ) → n ≤ 2 ^ bits - 1 → parse_uint bits (format_uint n) ≡ some n
parse_uint-format_uint bits n le =
    parse_uint-eq bits (format_uint n) (format_uint-ne-nil n)
    ∙ parse_digits-format_uint (2 ^ bits - 1) n le

parse_digits-le :
    (limit n : ℕ) (s : Text) (m : ℕ) → n ≤ limit → parse_digits limit n s ≡ some m → m ≤ limit
unfolding parse_digits
parse_digits-le limit n [] m le h = ground arith
parse_digits-le limit n (c ∷ s) m le h =
    ground (arith, parse_digits-le limit (n * 10 + (c - 48)) s m)

pub parse_uint-le : (bits : ℕ) (s : Text) (m : ℕ) → parse_uint bits s ≡ some m → m ≤ 2 ^ bits - 1
unfolding parse_uint
parse_uint-le bits [] m h = cc
parse_uint-le bits (c ∷ s) m h = parse_digits-le (2 ^ bits - 1) 0 (c ∷ s) m (omega arith) h

-- Two numbers with one decimal text are one number.
pub format_uint-injective : (a b : ℕ) → format_uint a ≡ format_uint b → a ≡ b
format_uint-injective a b e =
    let same : some a ≡ some b =
      sym (parse_digits-format_uint (a + b) a (omega arith))
      ∙ ap (parse_digits (a + b) 0) e
      ∙ parse_digits-format_uint (a + b) b (omega arith) in
    cc

All-append {ℓ κ} :
    {A : Type ℓ} (P : A → Type κ) (xs ys : List A) → All P xs → All P ys → All P (xs ++ ys)
All-append P [] ys p q = q
All-append P (x ∷ xs) ys p q = (p.0, All-append P xs ys p.1 q)

format_digits-ge : (f n : ℕ) → All (λ c. 48 ≤ c) (format_digits f n)
unfolding format_digits
format_digits-ge zero n = tt
format_digits-ge (suc f) n = elim (Bool-cases (ltb n 10)) [
  | inl small ↦ rw small (omega arith, tt)
  | inr large ↦
      rw large
        (All-append _ (format_digits f (n / 10)) _ (format_digits-ge f (n / 10)) (omega arith, tt))
]

-- A decimal text has no byte below that of the digit 0.
pub format_uint-ge : (n : ℕ) → All (λ c. 48 ≤ c) (format_uint n)
unfolding format_uint
format_uint-ge n = format_digits-ge (suc n) n
