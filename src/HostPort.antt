-- ===== src/HostPort.antt =====
-- `net.SplitHostPort` and `net.JoinHostPort` of Go's standard library, over the bytes of a text. Its
-- errors are told apart by no caller in this repository.
use mathlib.Core.List.{append_assoc}
use hostlink.Prelude.{
  ℕ, ◌≡◌, refl, sym, ap, ◌∙◌, subst, Bool, true, false, ◌||◌, Option, none, some, [], ◌∷◌, ◌++◌,
  if◌then◌else◌, ◌==◌, nat_comparable, Text, arith, inl, inr, Bool-cases, ℕ_discrete,
}

unfoldable pub contains : ℕ → Text → Bool
contains c [] = false
contains c (d ∷ s) = d == c || contains c s

-- The text before and behind the last `sep`.
unfoldable pub cut_last : ℕ → Text → Option (Text × Text)
cut_last sep [] = none
cut_last sep (c ∷ s) = elim (cut_last sep s) [
  | some (a, b) ↦ some (c ∷ a, b)
  | none ↦ if c == sep then some ([], s) else none
]

-- The text before and behind the first `sep`.
unfoldable pub cut_first : ℕ → Text → Option (Text × Text)
cut_first sep [] = none
cut_first sep (c ∷ s) =
    let rest = cut_first sep s in
    if c == sep then some ([], s) else elim rest [ some (a, b) ↦ some (c ∷ a, b) | none ↦ none ]

-- The part before the last colon, with the brackets of an IPv6 host, and the port behind it.
split_parts : Text → Text → Option (Text × Text)
split_parts [] port = if contains b'[' port || contains b']' port then none else some ([], port)
split_parts (c ∷ s) port =
    if c == b'['
    then elim (cut_first b']' s) [
      | none ↦ none
      | some (host, []) ↦
          if contains b'[' host || (contains b'[' port || contains b']' port)
          then none
          else some (host, port)
      | some (host, _ ∷ _) ↦ none
    ]
    else (if contains b':' (c ∷ s)
          || ((contains b'[' (c ∷ s) || contains b']' (c ∷ s))
              || (contains b'[' port || contains b']' port))
        then none
        else some (c ∷ s, port))

-- `net.SplitHostPort`
unfoldable pub split_host_port : Text → Option (Text × Text)
unfolding split_parts contains cut_first
split_host_port s = elim (cut_last b':' s) [
  | none ↦ none
  | some (before, port) ↦ split_parts before port
]

-- `net.JoinHostPort`
unfoldable pub join_host_port : Text → Text → Text
unfolding contains
join_host_port host port =
    if contains b':' host then b'[' ∷ (host ++ b']' ∷ b':' ∷ port) else host ++ b':' ∷ port

cut_last-none : (sep : ℕ) (s : Text) → contains sep s ≡ false → cut_last sep s ≡ none
unfolding contains cut_last
cut_last-none sep [] h = refl
cut_last-none sep (c ∷ s) h = ground (arith, cut_last-none sep s)

cut_last-append :
    (sep : ℕ) (a b : Text) → contains sep b ≡ false → cut_last sep (a ++ sep ∷ b) ≡ some (a, b)
unfolding cut_last
cut_last-append sep [] b h = ground (arith, cut_last-none sep b h)
cut_last-append sep (c ∷ a) b h = rw (cut_last-append sep a b h)

cut_first-append :
    (sep : ℕ) (a b : Text) → contains sep a ≡ false → cut_first sep (a ++ sep ∷ b) ≡ some (a, b)
unfolding cut_first contains
cut_first-append sep [] b h = ground arith
cut_first-append sep (c ∷ a) b h = ground (arith, cut_first-append sep a b)

split_parts_plain :
    (host port : Text)
    → contains b'[' host ≡ false
    → contains b']' host ≡ false
    → contains b'[' port ≡ false
    → contains b']' port ≡ false
    → contains b':' host ≡ false
    → split_parts host port ≡ some (host, port)
unfolding split_parts contains
split_parts_plain [] port a b c d e = ground arith
split_parts_plain (h ∷ host) port a b c d e = ground arith

split_parts_bracketed :
    (host port : Text)
    → contains b'[' host ≡ false
    → contains b']' host ≡ false
    → contains b'[' port ≡ false
    → contains b']' port ≡ false
    → split_parts (b'[' ∷ (host ++ b']' ∷ [])) port ≡ some (host, port)
unfolding split_parts ℕ_discrete
split_parts_bracketed host port a b c d = rw (cut_first-append b']' host [] b, a, c, d) refl

cut_last_bracketed :
    (host port : Text)
    → contains b':' port ≡ false
    → cut_last b':' (b'[' ∷ (host ++ b']' ∷ b':' ∷ port)) ≡ some (b'[' ∷ (host ++ b']' ∷ []), port)
cut_last_bracketed host port e =
    ap (λ s. cut_last b':' (b'[' ∷ s)) (sym (append_assoc host (b']' ∷ []) (b':' ∷ port)))
    ∙ cut_last-append b':' (b'[' ∷ (host ++ b']' ∷ [])) port e

join_host_port_bracketed :
    (host port : Text)
    → contains b':' host ≡ true
    → join_host_port host port ≡ b'[' ∷ (host ++ b']' ∷ b':' ∷ port)
unfolding join_host_port
join_host_port_bracketed host port v6 = rw v6 refl

split_host_port_bracketed :
    (host port : Text)
    → contains b'[' host ≡ false
    → contains b']' host ≡ false
    → contains b'[' port ≡ false
    → contains b']' port ≡ false
    → contains b':' port ≡ false
    → split_host_port (b'[' ∷ (host ++ b']' ∷ b':' ∷ port)) ≡ some (host, port)
unfolding split_host_port
split_host_port_bracketed host port a b c d e =
    subst (λ r. (elim r [ none ↦ none | some (x, y) ↦ split_parts x y ]) ≡ some (host, port))
      (sym (cut_last_bracketed host port e)) (split_parts_bracketed host port a b c d)

join_host_port_plain :
    (host port : Text) → contains b':' host ≡ false → join_host_port host port ≡ host ++ b':' ∷ port
unfolding join_host_port
join_host_port_plain host port v4 = rw v4 refl

split_host_port_plain :
    (host port : Text)
    → contains b'[' host ≡ false
    → contains b']' host ≡ false
    → contains b'[' port ≡ false
    → contains b']' port ≡ false
    → contains b':' port ≡ false
    → contains b':' host ≡ false
    → split_host_port (host ++ b':' ∷ port) ≡ some (host, port)
unfolding split_host_port
split_host_port_plain host port a b c d e v4 =
    subst (λ r. (elim r [ none ↦ none | some (x, y) ↦ split_parts x y ]) ≡ some (host, port))
      (sym (cut_last-append b':' host port e)) (split_parts_plain host port a b c d v4)

-- A host and a port without brackets, the port without a colon, are read back from their joined
-- text, an IPv6 host included.
pub split_host_port-join_host_port :
    (host port : Text)
    → contains b'[' host ≡ false
    → contains b']' host ≡ false
    → contains b'[' port ≡ false
    → contains b']' port ≡ false
    → contains b':' port ≡ false
    → split_host_port (join_host_port host port) ≡ some (host, port)
split_host_port-join_host_port host port a b c d e = elim (Bool-cases (contains b':' host)) [
  | inl v6 ↦
      ap split_host_port (join_host_port_bracketed host port v6)
      ∙ split_host_port_bracketed host port a b c d e
  | inr v4 ↦
      ap split_host_port (join_host_port_plain host port v4)
      ∙ split_host_port_plain host port a b c d e v4
]
