-- ===== src/Ports/Redis/Allocate.antt =====
-- pkg/controller/ports.go, `redisPortStore.allocate`: which port a call takes while no other replica
-- changes the keys.
use hostlink.Prelude.{
  ℕ, zero, suc, ◌+◌, ◌-◌, ◌%◌, ◌^◌, ◌≤◌, ◌<◌, ◌≡◌, ◌≢◌, refl, sym, ◌∙◌, subst, Bool, true, false,
  Option, none, some, List, map, ◌==◌, if◌then◌else◌, Result, ok, err, Text, arith, nat_comparable,
  text_comparable, ltb, ◌⊎◌, inl, inr, Bool-cases, Option-cases,
}
use hostlink.Ports.{
  PortMapping, PortError, port_range_exhausted, invalid_port_range, validate_port_range,
  validate_port_range_cases, maximum_public_port,
}
use hostlink.Ports.Keys.{port_key}
use hostlink.Ports.Redis.{
  Redis, Codec, RedisPortStore, port_keys, after_set_nx, claim_free, after_batch, batch_end,
  claim_batches, allocate,
}

-- What redis documents of the commands, by the value that it holds at each key: `MGET` replies with
-- the values in order, `SETNX` sets an absent key and leaves a present one, and `PUBLISH` changes
-- none. An error of redis is not the store's own.
pub record RedisLaws {S : Type 0} (redis : Redis S) (view : S → Text → Option Text) : Type 0 where
  pub mget_values :
      (ks : List Text) (s : S) (values : List (Option Text))
      → redis.mget ks s ≡ ok values
      → values ≡ map (view s) ks
  pub set_nx_sets :
      (key value : Text) (s s' : S)
      → redis.set_nx key value s ≡ (s', ok true)
      → (j : Text) → view s' j ≡ (if key == j then some value else view s j)
  pub set_nx_keeps :
      (key value : Text) (s s' : S) → redis.set_nx key value s ≡ (s', ok false) → view s key ≢ none
  pub mget_fails :
      (ks : List Text) (s : S) (e : PortError) → redis.mget ks s ≡ err e → e ≢ port_range_exhausted
  pub set_nx_fails :
      (key value : Text) (s s' : S) (e : PortError)
      → redis.set_nx key value s ≡ (s', err e)
      → e ≢ port_range_exhausted
  pub publish_keeps : (s : S) (j : Text) → view (redis.publish s) j ≡ view s j

module _ {S : Type 0} (redis : Redis S) (codec : Codec) (view : S → Text → Option Text) where
  abbrev pub Held : ℕ → ℕ → S → Type 0
  Held from to s = (q : ℕ) → from ≤ q → q < to → view s (port_key q) ≢ none

  -- What the search from `from` to before `to` promises of its result, where redis has not failed.
  unfoldable pub Claimed :
      ℕ → ℕ → Text → S → RedisPortStore S × Result PortError (Option ℕ) → Type 0
  Claimed from to value s (s', err e) = e ≢ port_range_exhausted
  Claimed from to value s (s', ok none) = (s'.server ≡ s) × Held from to s
  Claimed from to value s (s', ok (some port)) =
      (from ≤ port)
      × (port < to)
      × (view s (port_key port) ≡ none)
      × Held from port s
      × ((j : Text) → view s'.server j ≡ (if port_key port == j then some value else view s j))

  Held-back :
      (from to : ℕ) (s : S) → view s (port_key from) ≢ none → Held (suc from) to s → Held from to s
  Held-back from to s first held q le lt = elim (Bool-cases (from == q)) [
    | inl e ↦ ground (arith, first)
    | inr e ↦ ground (arith, held q)
  ]

  Claimed-back :
      (from to : ℕ) (value : Text) (s : S) (r : RedisPortStore S × Result PortError (Option ℕ))
      → view s (port_key from) ≢ none
      → Claimed (suc from) to value s r
      → Claimed from to value s r
  unfolding Claimed
  Claimed-back from to value s (s', err e) first c = c
  Claimed-back from to value s (s', ok none) first c = (c.0, Held-back from to s first c.1)
  Claimed-back from to value s (s', ok (some port)) first c =
      (omega (arith, c.0), c.1, c.2, Held-back from port s first c.3, c.4)

  after_set_nx-Claimed :
      (laws : RedisLaws redis view) (from to : ℕ) (value : Text) (s : RedisPortStore S)
      (r : S × Result PortError Bool) (rest : RedisPortStore S × Result PortError (Option ℕ))
      → from < to
      → view s.server (port_key from) ≡ none
      → redis.set_nx (port_key from) value s.server ≡ r
      → Claimed from to value s.server
          (after_set_nx redis codec from (record s { server = r.0 }) r.1 rest)
  unfolding after_set_nx Claimed
  after_set_nx-Claimed laws from to value s (s', err e) rest lt free h =
      laws.set_nx_fails (port_key from) value s.server s' e h
  after_set_nx-Claimed laws from to value s (s', ok true) rest lt free h = (
    omega arith,
    lt,
    free,
    λ q a b. absurd (omega arith),
    λ j. laws.publish_keeps s' j ∙ laws.set_nx_sets (port_key from) value s.server s' h j,
  )
  after_set_nx-Claimed laws from to value s (s', ok false) rest lt free h =
      absurd (laws.set_nx_keeps (port_key from) value s.server s' h free)

  nothing-Claimed :
      (from : ℕ) (value : Text) (s : RedisPortStore S)
      → Claimed from (from + 0) value s.server (s, ok none)
  unfolding Claimed
  nothing-Claimed from value s = (refl, λ q a b. absurd (omega arith))

  claim_free-Claimed :
      (laws : RedisLaws redis view) (n from : ℕ) (value : Text) (s : RedisPortStore S)
      → from + n ≤ 65536
      → Claimed from
          (from + n)
          value
          s.server
          (claim_free redis codec value from (map (view s.server) (port_keys n from)) s)
  unfolding claim_free port_keys
  claim_free-Claimed laws zero from value s small = nothing-Claimed from value s
  claim_free-Claimed laws (suc n) from value s small =
      let next : (from + 1) % 2 ^ 32 ≡ suc from = ground arith in
      elim (Option-cases (view s.server (port_key from))) [
        | inl free ↦ rw free (
            after_set_nx-Claimed laws from (from + suc n) value s
              (redis.set_nx (port_key from) value s.server) _ (omega arith) free refl)
        | inr (v, taken) ↦
            let shift : from + suc n ≡ suc from + n = omega arith in
            let one : from + 1 ≡ suc from = omega arith in
            rw (taken, next, one, shift)
              (Claimed-back from (suc from + n) value s.server
                (claim_free redis codec value (suc from)
                  (map (view s.server) (port_keys n (suc from))) s)
                (λ h. cc) (claim_free-Claimed laws n (suc from) value s (omega arith)))
      ]

  -- What a whole search from `from` to `to` promises.
  unfoldable pub Searched : ℕ → ℕ → Text → S → RedisPortStore S × Result PortError ℕ → Type 0
  Searched from to value s (s', err e) = e ≡ port_range_exhausted → Held from (suc to) s
  Searched from to value s (s', ok port) =
      (from ≤ port)
      × (port ≤ to)
      × (view s (port_key port) ≡ none)
      × Held from port s
      × ((j : Text) → view s'.server j ≡ (if port_key port == j then some value else view s j))

  Held-join : (from mid to : ℕ) (s : S) → Held from mid s → Held mid to s → Held from to s
  Held-join from mid to s a b q le lt = elim (Bool-cases (ltb q mid)) [
    | inl e ↦ a q le (ground arith)
    | inr e ↦ b q (ground arith) lt
  ]

  Searched-back :
      (from mid to : ℕ) (value : Text) (s : S) (r : RedisPortStore S × Result PortError ℕ)
      → from ≤ mid
      → Held from mid s
      → Searched mid to value s r
      → Searched from to value s r
  unfolding Searched
  Searched-back from mid to value s (s', err e) le held w =
      λ h. Held-join from mid (suc to) s held (w h)
  Searched-back from mid to value s (s', ok port) le held w =
      (omega (arith, w.0), w.1, w.2, Held-join from mid port s held w.3, w.4)

  after_batch-Searched :
      (from end to : ℕ) (value : Text) (s : S) (r : RedisPortStore S × Result PortError (Option ℕ))
      (rest : Option (RedisPortStore S × Result PortError ℕ))
      → from ≤ end
      → end ≤ to
      → Claimed from (suc end) value s r
      → ((end == to) ≡ false
          → r.0.server ≡ s
          → (q : RedisPortStore S × Result PortError ℕ) × (rest ≡ some q)
            × Searched (suc end) to value s q)
      → (q : RedisPortStore S × Result PortError ℕ) × (after_batch redis codec (end == to) r rest
          ≡ some q)
        × Searched from to value s q
  unfolding after_batch Claimed Searched
  after_batch-Searched from end to value s (s', err e) rest le max c more =
      (_, refl, λ h. absurd (c h))
  after_batch-Searched from end to value s (s', ok (some port)) rest le max c more =
      (_, refl, (c.0, omega (arith, c.1), c.2, c.3, c.4))
  after_batch-Searched from end to value s (s', ok none) rest le max c more =
      elim (Bool-cases (end == to)) [
        | inl last ↦ rw last (_, refl, λ h q a b. c.1 q a (ground arith))
        | inr go ↦
            let (q, e, w) = more go c.0 in
            rw go (q, e, Searched-back from (suc end) to value s q (omega arith) c.1 w)
      ]

  Result-cases :
      {A : Type 0} (r : Result PortError A)
      → ((e : PortError) × (r ≡ err e)) ⊎ ((a : A) × (r ≡ ok a))
  Result-cases (err e) = inl (e, refl)
  Result-cases (ok a) = inr (a, refl)

  failed-Searched :
      (from to : ℕ) (value : Text) (s : RedisPortStore S) (e : PortError)
      → e ≢ port_range_exhausted
      → Searched from to value s.server (s, err e)
  unfolding Searched
  failed-Searched from to value s e other = λ h. absurd (other h)

  claim_batches-Searched :
      (laws : RedisLaws redis view) (f from to : ℕ) (value : Text) (s : RedisPortStore S)
      → from ≤ to
      → to - from < f
      → to ≤ maximum_public_port
      → (q : RedisPortStore S × Result PortError ℕ) × (claim_batches redis codec f value from to s
          ≡ some q)
        × Searched from to value s.server q
  unfolding claim_batches
  claim_batches-Searched laws zero from to value s le fuel max = absurd (omega arith)
  claim_batches-Searched laws (suc f) from to value s le fuel max =
      let end = batch_end redis codec from to in
      let in_range : ltb to from ≡ false = ground arith in
      let low : from ≤ end = omega (arith, le, max) in
      let high : end ≤ to = omega arith in
      let width : from + (end + 1 - from) ≡ suc end = omega (arith, low) in
      elim (Result-cases (redis.mget (port_keys (end + 1 - from) from) s.server)) [
        | inl (e, h) ↦
            rw (in_range, h)
              (_, refl, failed-Searched from to value s e (laws.mget_fails _ s.server e h))
        | inr (values, h) ↦
            let c =
              subst
                (λ vs.
                  Claimed from (suc end) value s.server (claim_free redis codec value from vs s))
                (sym (laws.mget_values (port_keys (end + 1 - from) from) s.server values h))
                (subst
                  (λ z. Claimed from z value s.server (
                    claim_free redis codec value from
                      (map (view s.server) (port_keys (end + 1 - from) from)) s))
                  width
                  (claim_free-Claimed laws (end + 1 - from) from value s
                    (omega (arith, low, high)))) in
            rw (in_range, h)
              (after_batch-Searched from end to value s.server
                (claim_free redis codec value from values s) _ low high c
                (λ go same.
                  let r = claim_free redis codec value from values s in
                  let next : (end + 1) % 2 ^ 32 ≡ suc end = ground (arith, high, max) in
                  let below : suc end ≤ to = ground (arith, high, go) in
                  let (q, e, w) =
                    claim_batches-Searched laws f (suc end) to value r.0 below
                      (omega (arith, fuel, low, below)) max in
                  (
                    q,
                    subst (λ z. claim_batches redis codec f value z to r.0 ≡ some q) (sym next) e,
                    subst (λ z. Searched (suc end) to value z q) same w,
                  )))
      ]

  -- While no other replica changes the keys, `allocate` of the store in redis always returns, however
  -- the range falls into batches. A port that it returns is the lowest of the range without a key, and
  -- that key now holds the mapping and no other key has changed; a valid range is exhausted only if
  -- each of its ports has a key; an invalid range is refused.
  pub redis_allocate_lem :
      (laws : RedisLaws redis view) (from to : ℕ) (mapping : PortMapping) (s : RedisPortStore S)
      → (q : RedisPortStore S × Result PortError ℕ) × (allocate redis codec from to mapping s
          ≡ some q)
        × (((validate_port_range from to ≡ err invalid_port_range)
              × (q ≡ (s, err invalid_port_range)))
            ⊎ ((validate_port_range from to ≡ ok tt)
                × Searched from to (codec.encode mapping) s.server q))
  unfolding allocate
  redis_allocate_lem laws from to mapping s = elim (validate_port_range_cases from to) [
    | inl bad ↦ rw (bad, allocate) (_, refl, inl (refl, refl))
    | inr (good, pos, le, max) ↦
        let (q, e, w) =
          claim_batches-Searched laws (suc (to - from)) from to (codec.encode mapping) s le
            (omega arith) max in
        rw (good, allocate) (q, e, inr (refl, w))
  ]
