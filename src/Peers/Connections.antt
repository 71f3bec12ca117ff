-- ===== src/Peers/Connections.antt =====
-- pkg/controller/peer.go, `peerClients.conn`: one connection per address.
use hostlink.Prelude.{
  ℕ, suc, ◌<◌, ◌≡◌, refl, sym, ap, ◌∙◌, Bool, true, false, none, some, ◌==◌, Text, arith,
  Bool-cases, Option-cases, inl, inr, ◌⊎◌, nat_comparable, text_comparable, ==_refl,
}
use hostlink.Map.{get, put}
use hostlink.Map.Laws.{get-put}
use hostlink.Peers.{PeerClients, conn, close}

-- Every sequence of calls of `conn` since the connections were last closed.
pub data Reachable (dials : Text → Bool) : PeerClients → Type 0 where
  closed : (p : PeerClients) → Reachable dials (close p).0
  calls :
      {p : PeerClients} (addr : Text) → Reachable dials p → Reachable dials (conn dials addr p).0

-- The connections were dialled, and no two addresses share one.
pub record IsCache (p : PeerClients) : Type 0 where
  pub numbered : (addr : Text) (c : ℕ) → get p.conns addr ≡ some c → c < p.dialled
  pub apart : (a b : Text) (c : ℕ) → get p.conns a ≡ some c → get p.conns b ≡ some c → a ≡ b

conn_known :
    (dials : Text → Bool) (addr : Text) (p : PeerClients) (c : ℕ)
    → get p.conns addr ≡ some c
    → conn dials addr p ≡ (p, some c)
unfolding conn
conn_known dials addr p c h = rw (h, conn) refl

dialled_now : Text → PeerClients → PeerClients
dialled_now addr p = record { conns = put p.conns addr p.dialled; dialled = suc p.dialled }

conn_new :
    (dials : Text → Bool) (addr : Text) (p : PeerClients)
    → get p.conns addr ≡ none
    → dials addr ≡ true
    → conn dials addr p ≡ (dialled_now addr p, some p.dialled)
unfolding conn dialled_now
conn_new dials addr p h d = rw (h, d, conn) refl

conn_refused :
    (dials : Text → Bool) (addr : Text) (p : PeerClients)
    → get p.conns addr ≡ none
    → dials addr ≡ false
    → conn dials addr p ≡ (p, none)
unfolding conn
conn_refused dials addr p h d = rw (h, d, conn) refl

found :
    (addr a : Text) (c : ℕ) (p : PeerClients)
    → get (dialled_now addr p).conns a ≡ some c
    → ((addr ≡ a) × (p.dialled ≡ c)) ⊎ (get p.conns a ≡ some c)
unfolding dialled_now
found addr a c p h =
    let e = sym (get-put p.conns addr a p.dialled) ∙ h in
    elim (Bool-cases (addr == a)) [
      | inl same ↦ inl (ground arith, ground arith)
      | inr other ↦ inr (ground arith)
    ]

fresh_number :
    (addr : Text) (p : PeerClients) (c : ℕ) → p.dialled ≡ c → c < (dialled_now addr p).dialled
unfolding dialled_now
fresh_number addr p c e = omega arith

old_number :
    (addr : Text) (p : PeerClients) (c : ℕ) → c < p.dialled → c < (dialled_now addr p).dialled
unfolding dialled_now
old_number addr p c lt = omega arith

dialled_now-IsCache : (addr : Text) (p : PeerClients) → IsCache p → IsCache (dialled_now addr p)
dialled_now-IsCache addr p i = record {
  numbered = λ a c h. elim (found addr a c p h) [
    | inl (same, new) ↦ fresh_number addr p c new
    | inr old ↦ old_number addr p c (i.numbered a c old)
  ];
  apart = λ a b c h k. elim (found addr a c p h) [
    | inl (same, new) ↦ elim (found addr b c p k) [
      | inl (same', new') ↦ sym same ∙ same'
      | inr old ↦ let lt = i.numbered b c old in absurd (omega arith)
    ]
    | inr old ↦ elim (found addr b c p k) [
      | inl (same', new') ↦ let lt = i.numbered a c old in absurd (omega arith)
      | inr old' ↦ i.apart a b c old old'
    ]
  ];
}

conn-IsCache :
    (dials : Text → Bool) (addr : Text) (p : PeerClients)
    → IsCache p
    → IsCache (conn dials addr p).0
conn-IsCache dials addr p i = elim (Option-cases (get p.conns addr)) [
  | inr (c, old) ↦ rw (conn_known dials addr p c old) i
  | inl new ↦ elim (Bool-cases (dials addr)) [
    | inl d ↦ rw (conn_new dials addr p new d) (dialled_now-IsCache addr p i)
    | inr d ↦ rw (conn_refused dials addr p new d) i
  ]
]

close-IsCache : (p : PeerClients) → IsCache (close p).0
unfolding close get
close-IsCache p = record { numbered = λ addr c h. absurd cc; apart = λ a b c h k. absurd cc }

Reachable-IsCache : {dials : Text → Bool} {p : PeerClients} → Reachable dials p → IsCache p
Reachable-IsCache (Reachable.closed p) = close-IsCache p
Reachable-IsCache {dials = dials} (Reachable.calls {p = p} addr r) =
    conn-IsCache dials addr p (Reachable-IsCache r)

stored :
    (dials : Text → Bool) (addr : Text) (p : PeerClients) (c : ℕ)
    → (conn dials addr p).1 ≡ some c
    → get (conn dials addr p).0.conns addr ≡ some c
unfolding dialled_now
stored dials addr p c h = elim (Option-cases (get p.conns addr)) [
  | inr (b, old) ↦
      let e = conn_known dials addr p b old in
      ap (λ r. get (PeerClients.conns r.0) addr) e ∙ old ∙ sym (ap (λ r. r.1) e) ∙ h
  | inl new ↦ elim (Bool-cases (dials addr)) [
    | inl d ↦
        let e = conn_new dials addr p new d in
        ap (λ r. get (PeerClients.conns r.0) addr) e
        ∙ ground (arith, get-put p.conns addr addr p.dialled, ==_refl addr)
        ∙ sym (ap (λ r. r.1) e)
        ∙ h
    | inr d ↦ let e = sym (ap (λ r. r.1) (conn_refused dials addr p new d)) ∙ h in absurd cc
  ]
]

-- Since the connections were last closed, no two addresses share a connection, and an address that
-- was given one gets the same one again, without another dial.
pub conn_lem :
    {dials : Text → Bool} {p : PeerClients} (addr : Text) (c : ℕ)
    → Reachable dials p
    → (conn dials addr p).1 ≡ some c
    → let p' = (conn dials addr p).0 in
      (conn dials addr p' ≡ (p', some c))
      × ((other : Text) → get p'.conns other ≡ some c → addr ≡ other)
conn_lem {dials = dials} {p = p} addr c r h =
    let i = conn-IsCache dials addr p (Reachable-IsCache r) in
    let there = stored dials addr p c h in
    (conn_known dials addr (conn dials addr p).0 c there, λ other k. i.apart addr other c there k)
