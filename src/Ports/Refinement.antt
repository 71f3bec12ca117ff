-- ===== src/Ports/Refinement.antt =====
-- pkg/controller/ports.go: the store in redis allocates as the store of a single replica does.
use hostlink.Prelude.{
  ℕ, ◌≤◌, ◌<◌, ◌≡◌, ◌≢◌, refl, sym, ◌∙◌, ap, subst, Bool, true, false, Option, none, some, ◌==◌,
  if◌then◌else◌, Result, ok, err, Text, arith, nat_comparable, text_comparable, ltb, ◌⊎◌, inl, inr,
  Bool-cases, Option-cases, ==_refl,
}
use hostlink.Map.{get, has}
use hostlink.Ports.{
  PortMapping, PortError, port_range_exhausted, invalid_port_range, validate_port_range,
  validate_port_range_cases, maximum_public_port,
}
use hostlink.Ports.Keys.{port_key, port_from_key, port_from_key-port_key}
use hostlink.Ports.Memory.{MemPortStore, allocate}
use hostlink.Ports.Memory.Allocate.{Claimed, allocate_lem}
use hostlink.Ports.Redis.{Redis, Codec, RedisPortStore, allocate as redis_allocate}
use hostlink.Ports.Redis.Allocate.{RedisLaws, Searched, redis_allocate_lem}

-- The ranges that can be allocated from.
abbrev pub IsRange : ℕ → ℕ → Type 0
IsRange from to = (0 < from) × (from ≤ to) × (to ≤ maximum_public_port)

refused-IsRange :
    (from to : ℕ) → validate_port_range from to ≡ err invalid_port_range → ¬ IsRange from to
unfolding validate_port_range
refused-IsRange from to bad range = ground arith

-- The key of a port names no other port.
pub port_key_eq :
    (p q : ℕ)
    → 0 < p
    → p ≤ maximum_public_port
    → 0 < q
    → q ≤ maximum_public_port
    → (port_key p == port_key q) ≡ (p == q)
port_key_eq p q a b c d = elim (Bool-cases (p == q)) [
  | inl same ↦
      let e : p ≡ q = ground arith in
      ap (λ x. port_key p == port_key x) (sym e) ∙ ==_refl (port_key p) ∙ sym same
  | inr differ ↦ elim (Bool-cases (port_key p == port_key q)) [
    | inl e ↦
        let k : port_key p ≡ port_key q = ground arith in
        let r =
          sym (port_from_key-port_key p a b) ∙ ap port_from_key k ∙ port_from_key-port_key q c d in
        ground arith
    | inr e ↦ e ∙ sym differ
  ]
]

module _ {S : Type 0} (redis : Redis S) (codec : Codec) (view : S → Text → Option Text) where
  abbrev encoded : Option PortMapping → Option Text
  encoded none = none
  encoded (some mapping) = some (codec.encode mapping)

  -- Redis holds at the key of each valid port what the store of a single replica maps it to.
  abbrev pub Related : S → MemPortStore → Type 0
  Related s m =
      (q : ℕ) → 0 < q → q ≤ maximum_public_port → view s (port_key q) ≡ encoded (get m.mappings q)

  -- What a call that ends so means for the same call on the other store; a failure of redis is none
  -- of its concern.
  unfoldable pub Simulates :
      RedisPortStore S × Result PortError ℕ → MemPortStore × Result PortError ℕ → Type 0
  Simulates (s, ok port) (m, r) = (r ≡ ok port) × Related s.server m
  Simulates (s, err e) (m, r) = e ≡ port_range_exhausted → r ≡ err port_range_exhausted

  free-has :
      (s : S) (m : MemPortStore) (q : ℕ)
      → Related s m
      → 0 < q
      → q ≤ maximum_public_port
      → view s (port_key q) ≡ none
      → has m.mappings q ≡ false
  unfolding has
  free-has s m q related pos max free =
      let e = sym (related q pos max) ∙ free in
      elim (Option-cases (get m.mappings q)) [
        | inl h ↦ rw (h, has) refl
        | inr (v, h) ↦ let x = sym e ∙ ap encoded h in absurd cc
      ]

  held-has :
      (s : S) (m : MemPortStore) (q : ℕ)
      → Related s m
      → 0 < q
      → q ≤ maximum_public_port
      → view s (port_key q) ≢ none
      → has m.mappings q ≡ true
  unfolding has
  held-has s m q related pos max held = elim (Option-cases (get m.mappings q)) [
    | inl h ↦ absurd (held (related q pos max ∙ ap encoded h))
    | inr (v, h) ↦ rw (h, has) refl
  ]

  encoded-if :
      (b : Bool) (mapping : PortMapping) (o : Option PortMapping)
      → (if b then some (codec.encode mapping) else encoded o)
        ≡ encoded (if b then some mapping else o)
  encoded-if true mapping o = refl
  encoded-if false mapping o = refl

  Related-put :
      (s s' : S) (m m' : MemPortStore) (port : ℕ) (mapping : PortMapping)
      → Related s m
      → 0 < port
      → port ≤ maximum_public_port
      → ((j : Text)
          → view s' j ≡ (if port_key port == j then some (codec.encode mapping) else view s j))
      → ((q : ℕ) → get m'.mappings q ≡ (if port == q then some mapping else get m.mappings q))
      → Related s' m'
  Related-put s s' m m' port mapping related pos max h k q pos' max' =
      h (port_key q)
      ∙ ap (λ b. if b then some (codec.encode mapping) else view s (port_key q))
          (port_key_eq port q pos max pos' max')
      ∙ ap (λ v. if port == q then some (codec.encode mapping) else v) (related q pos' max')
      ∙ encoded-if (port == q) mapping (get m.mappings q)
      ∙ ap encoded (sym (k q))

  -- Both searches of a valid range stop at the same port.
  Searched-Simulates :
      (from to : ℕ) (mapping : PortMapping) (s : S) (m : MemPortStore)
      (q : RedisPortStore S × Result PortError ℕ) (r : MemPortStore × Result PortError ℕ)
      → 0 < from
      → to ≤ maximum_public_port
      → Related s m
      → Searched redis codec view from to (codec.encode mapping) s q
      → Claimed from to mapping m r
      → Simulates q r
  unfolding Searched Simulates
  Searched-Simulates from to mapping s m (s', ok port) (m', ok p) pos max related w c =
      elim (Bool-cases (port == p)) [
        | inl same ↦
            let e : p ≡ port = ground arith in
            (
              ap ok e,
              Related-put s s'.server m m' port mapping related (omega (arith, w.0))
                  (omega (arith, w.1)) w.4
                  (λ q.
                    subst
                      (λ x. get m'.mappings q ≡ (if x == q then some mapping else get m.mappings q))
                      e (c.4 q)),
            )
        | inr differ ↦ elim (Bool-cases (ltb port p)) [
          | inl below ↦
              let f = free-has s m port related (omega (arith, w.0)) (omega (arith, w.1)) w.2 in
              let t = c.3 port w.0 (ground arith) in absurd cc
          | inr above ↦
              let lt : p < port = ground arith in
              let t =
                held-has s m p related (omega (arith, c.0)) (omega (arith, c.1)) (w.3 p c.0 lt) in
              let f = c.2 in absurd cc
        ]
      ]
  Searched-Simulates from to mapping s m (s', ok port) (m', err e) pos max related w c =
      let f = free-has s m port related (omega (arith, w.0)) (omega (arith, w.1)) w.2 in
      let t = c.2 port w.0 (omega (arith, w.1)) in absurd cc
  Searched-Simulates from to mapping s m (s', err e) (m', ok p) pos max related w c = λ x.
      let t =
        held-has s m p related (omega (arith, c.0)) (omega (arith, c.1))
          (w x p c.0 (omega (arith, c.1))) in
      let f = c.2 in absurd cc
  Searched-Simulates from to mapping s m (s', err e) (m', err e') pos max related w c =
      λ x. ap err c.1

  -- The store in redis refines the store of a single replica, while no other replica changes the
  -- keys. From related states both return: on a range that is empty or not
  -- within 1 to 65535 both refuse and change nothing; on any other, a port
  -- that redis returns is the one that the other returns, and the states are related again, and if
  -- redis reports exhaustion so does the other.
  pub allocate_refinement :
      (laws : RedisLaws redis view) (from to : ℕ) (mapping : PortMapping) (s : RedisPortStore S)
      (m : MemPortStore)
      → Related s.server m
      → (q : RedisPortStore S × Result PortError ℕ) × (r : MemPortStore × Result PortError ℕ)
        × (redis_allocate redis codec from to mapping s ≡ some q)
        × (allocate from to mapping m ≡ some r)
        × ((¬ IsRange from to
              × (q ≡ (s, err invalid_port_range))
              × (r ≡ (m, err invalid_port_range)))
            ⊎ (IsRange from to × Simulates q r))
  allocate_refinement laws from to mapping s m related =
      let (q, e, w) = redis_allocate_lem redis codec view laws from to mapping s in
      let (r, e', c) = allocate_lem from to mapping m in
      (
        q,
        r,
        e,
        e',
        elim w [
          | inl (bad, refused) ↦ elim c [
            | inl (bad', refused') ↦ inl (refused-IsRange from to bad, refused, refused')
            | inr (good, found) ↦ let x = sym bad ∙ good in absurd cc
          ]
          | inr (good, found) ↦ elim c [
            | inl (bad', refused') ↦ let x = sym good ∙ bad' in absurd cc
            | inr (good', found') ↦ (elim (validate_port_range_cases from to) [
              | inl bad ↦ let x = sym good ∙ bad in absurd cc
              | inr (g, pos, le, max) ↦ inr (
                (pos, le, max),
                Searched-Simulates from to mapping s.server m q r pos max related found found',
              )
            ])
          ]
        ],
      )
