-- ===== src/ContainerEvents/Networks.antt =====
-- pkg/controller/container_events.go, `pickNetworkIP`: which of a container's addresses is taken.
use hostlink.Prelude.{
  ℕ, ◌≡◌, ◌≢◌, ◌⊎◌, inl, inr, refl, sym, ◌∙◌, true, false, List, [], ◌∷◌, ◌==◌, Text, All,
  nat_comparable, text_comparable, arith, Bool-cases, ==_refl,
}
use hostlink.Map.{Map, get, keys}
use hostlink.ContainerEvents.{
  text_leb, insert_name, sort_names, ip_of, has_ip, first_ip, only_ip, pick_network_ip,
}

-- Some network has the address.
abbrev pub Holds : Map Text Text → Text → Type 0
Holds [] x = ⊥
Holds ((name, ip) ∷ rest) x = (ip ≡ x) ⊎ Holds rest x

-- The address of the network with the least name among those that have one, or none where none has.
abbrev LeastOf : Map Text Text → Text → List Text → Type 0
LeastOf networks ip names =
    ((ip ≡ []) × All (λ name. ip_of networks name ≡ []) names)
    ⊎ ((least : Text) × (ip_of networks least ≡ ip)
        × (ip ≢ [])
        × All (λ name. (ip_of networks name ≡ []) ⊎ (text_leb least name ≡ true)) names)

-- The address that is to be taken: the old one while some network has it, and else that of the
-- least name.
abbrev pub IsPicked : Map Text Text → Text → Text → Type 0
IsPicked networks old ip =
    (Holds networks old × (ip ≡ old)) ⊎ (¬ Holds networks old × LeastOf networks ip (keys networks))

text_leb_refl : (s : Text) → text_leb s s ≡ true
unfolding text_leb
text_leb_refl [] = refl
text_leb_refl (c ∷ s) = ground (arith, text_leb_refl s)

text_leb_total : (s t : Text) → text_leb s t ≡ false → text_leb t s ≡ true
unfolding text_leb
text_leb_total [] t h = absurd (cc)
text_leb_total (c ∷ s) [] h = refl
text_leb_total (c ∷ s) (d ∷ t) h = ground (arith, text_leb_total s t)

text_leb_trans : (s t u : Text) → text_leb s t ≡ true → text_leb t u ≡ true → text_leb s u ≡ true
unfolding text_leb
text_leb_trans [] t u h k = refl
text_leb_trans (c ∷ s) [] u h k = absurd (cc)
text_leb_trans (c ∷ s) (d ∷ t) [] h k = absurd (cc)
text_leb_trans (c ∷ s) (d ∷ t) (e ∷ u) h k = ground (arith, text_leb_trans s t u)

abbrev Sorted : List Text → Type 0
Sorted [] = Unit
Sorted (name ∷ names) = All (λ m. text_leb name m ≡ true) names × Sorted names

All-below :
    (a b : Text) (names : List Text)
    → text_leb a b ≡ true
    → All (λ m. text_leb b m ≡ true) names
    → All (λ m. text_leb a m ≡ true) names
All-below a b [] h all = tt
All-below a b (m ∷ names) h all = (text_leb_trans a b m h all.0, All-below a b names h all.1)

module _ (P : Text → Type 0) where
  All-insert_name :
      (name : Text) (names : List Text) → P name → All P names → All P (insert_name name names)
  unfolding insert_name
  All-insert_name name [] p all = (p, tt)
  All-insert_name name (m ∷ names) p all = elim (Bool-cases (text_leb name m)) [
    | inl e ↦ rw e (p, all)
    | inr e ↦ rw e (all.0, All-insert_name name names p all.1)
  ]

  insert_name-All :
      (name : Text) (names : List Text) → All P (insert_name name names) → P name × All P names
  unfolding insert_name
  insert_name-All name [] all = (all.0, tt)
  insert_name-All name (m ∷ names) all = elim (Bool-cases (text_leb name m)) [
    | inl e ↦ let a : All P (name ∷ m ∷ names) = rw e at all in (a.0, a.1)
    | inr e ↦
        let a : All P (m ∷ insert_name name names) = rw e at all in
        let (p, rest) = insert_name-All name names a.1 in (p, (a.0, rest))
  ]

  sort_names-All : (names : List Text) → All P (sort_names names) → All P names
  unfolding sort_names
  sort_names-All [] all = tt
  sort_names-All (name ∷ names) all =
      let (p, rest) = insert_name-All name (sort_names names) all in (p, sort_names-All names rest)

insert_name-Sorted :
    (name : Text) (names : List Text) → Sorted names → Sorted (insert_name name names)
unfolding insert_name
insert_name-Sorted name [] s = (tt, tt)
insert_name-Sorted name (m ∷ names) s = elim (Bool-cases (text_leb name m)) [
  | inl e ↦ rw e ((e, All-below name m names e s.0), s)
  | inr e ↦ rw e (
    All-insert_name (λ x. text_leb m x ≡ true) name names (text_leb_total name m e) s.0,
    insert_name-Sorted name names s.1,
  )
]

sort_names-Sorted : (names : List Text) → Sorted (sort_names names)
unfolding sort_names
sort_names-Sorted [] = tt
sort_names-Sorted (name ∷ names) =
    insert_name-Sorted name (sort_names names) (sort_names-Sorted names)

All-weaken :
    (networks : Map Text Text) (name : Text) (names : List Text)
    → All (λ m. text_leb name m ≡ true) names
    → All (λ m. (ip_of networks m ≡ []) ⊎ (text_leb name m ≡ true)) names
All-weaken networks name [] all = tt
All-weaken networks name (m ∷ names) all = (inr all.0, All-weaken networks name names all.1)

first_ip_none :
    (networks : Map Text Text) (name : Text) (names : List Text)
    → ip_of networks name ≡ []
    → first_ip networks (name ∷ names) ≡ first_ip networks names
unfolding first_ip
first_ip_none networks name names e = ground arith

first_ip_some :
    (networks : Map Text Text) (name : Text) (names : List Text) (c : ℕ) (ip : Text)
    → ip_of networks name ≡ c ∷ ip
    → first_ip networks (name ∷ names) ≡ c ∷ ip
unfolding first_ip
first_ip_some networks name names c ip e = ground arith

Text-cases : (t : Text) → (t ≡ []) ⊎ ((c : ℕ) × (s : Text) × (t ≡ c ∷ s))
Text-cases [] = inl refl
Text-cases (c ∷ s) = inr (c, s, refl)

first_ip-LeastOf :
    (networks : Map Text Text) (names : List Text)
    → Sorted names
    → LeastOf networks (first_ip networks names) names
first_ip-LeastOf networks [] s = inl (unfold first_ip in refl, tt)
first_ip-LeastOf networks (name ∷ names) s = elim (Text-cases (ip_of networks name)) [
  | inl e ↦
      let step = first_ip_none networks name names e in
      elim (first_ip-LeastOf networks names s.1) [
        | inl (empty, all) ↦ inl (step ∙ empty, (e, all))
        | inr (least, found, some_ip, all) ↦
            inr (least, found ∙ sym step, rw step some_ip, (inl e, all))
      ]
  | inr (c, ip, e) ↦
      let step = first_ip_some networks name names c ip e in
      inr (
        name,
        e ∙ sym step,
        rw step (cc),
        (inr (text_leb_refl name), All-weaken networks name names s.0),
      )
]

-- A network's address is looked up by its name.
sole : (name ip : Text) → ip_of ((name, ip) ∷ []) name ≡ ip
unfolding get
sole name ip = ground (arith, ==_refl name)

LeastOf-sort_names :
    (networks : Map Text Text) (ip : Text) (names : List Text)
    → LeastOf networks ip (sort_names names)
    → LeastOf networks ip names
LeastOf-sort_names networks ip names (inl (empty, all)) =
    inl (empty, sort_names-All (λ name. ip_of networks name ≡ []) names all)
LeastOf-sort_names networks ip names (inr (least, found, some_ip, all)) = inr (
  least,
  found,
  some_ip,
  sort_names-All (λ name. (ip_of networks name ≡ []) ⊎ (text_leb least name ≡ true)) names all,
)

only_ip-LeastOf : (networks : Map Text Text) → LeastOf networks (only_ip networks) (keys networks)
unfolding only_ip
only_ip-LeastOf [] =
    LeastOf-sort_names [] _ [] (first_ip-LeastOf [] (sort_names []) (sort_names-Sorted []))
only_ip-LeastOf ((name, ip) ∷ []) = elim (Text-cases ip) [
  | inl e ↦ inl (e, (sole name ip ∙ e, tt))
  | inr (c, cs, e) ↦ inr (name, sole name ip, rw e (cc), (inr (text_leb_refl name), tt))
]
only_ip-LeastOf (a ∷ b ∷ rest) =
    let names = keys (a ∷ b ∷ rest) in
    LeastOf-sort_names (a ∷ b ∷ rest) _ names
      (first_ip-LeastOf (a ∷ b ∷ rest) (sort_names names) (sort_names-Sorted names))

has_ip-Holds :
    (networks : Map Text Text) (old : Text)
    → ((has_ip networks old ≡ true) × Holds networks old)
      ⊎ ((has_ip networks old ≡ false) × ¬ Holds networks old)
unfolding has_ip
has_ip-Holds [] old = inr (refl, λ h. h)
has_ip-Holds ((name, ip) ∷ rest) old = elim (Bool-cases (ip == old)) [
  | inl e ↦ inl (rw e refl, inl (ground (arith, e)))
  | inr e ↦ elim (has_ip-Holds rest old) [
    | inl (f, h) ↦ inl (rw (e, f) refl, inr h)
    | inr (f, h) ↦ inr (rw (e, f) refl, λ k. elim k [ inl x ↦ ground (arith, e) | inr y ↦ h y ])
  ]
]

pub pick_network_ip-IsPicked :
    (networks : Map Text Text) (old : Text) → IsPicked networks old (pick_network_ip networks old)
unfolding pick_network_ip
pick_network_ip-IsPicked networks old = elim (has_ip-Holds networks old) [
  | inl (f, h) ↦ rw f (inl (h, refl))
  | inr (f, h) ↦ rw f (inr (h, only_ip-LeastOf networks))
]
