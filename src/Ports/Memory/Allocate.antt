-- ===== src/Ports/Memory/Allocate.antt =====
-- pkg/controller/ports.go, `memPortStore.allocate`: which port a call takes.
use hostlink.Prelude.{
  ℕ, zero, suc, ◌+◌, ◌-◌, ◌%◌, ◌^◌, ◌≤◌, ◌<◌, ◌≡◌, refl, true, false, some, ◌==◌, if◌then◌else◌,
  Result, ok, err, arith, nat_comparable, Bool-cases, inl, inr, ◌⊎◌,
}
use hostlink.Map.{Map, get, has}
use hostlink.Map.Laws.{get-put}
use hostlink.Ports.{
  PortMapping, PortError, port_range_exhausted, invalid_port_range, validate_port_range,
  maximum_public_port, validate_port_range_cases,
}
use hostlink.Ports.Watchers.{notify}
use hostlink.Ports.Memory.{MemPortStore, claim, allocate}

abbrev pub Taken : ℕ → ℕ → Map ℕ PortMapping → Type 0
Taken from to m = (q : ℕ) → from ≤ q → q < to → has m q ≡ true

-- What the loop from `port` promises of its result.
abbrev pub Claimed : ℕ → ℕ → PortMapping → MemPortStore → MemPortStore × Result PortError ℕ → Type 0
Claimed from to mapping s (s', ok port) =
    (from ≤ port)
    × (port ≤ to)
    × (has s.mappings port ≡ false)
    × Taken from port s.mappings
    × ((q : ℕ) → get s'.mappings q ≡ (if port == q then some mapping else get s.mappings q))
    × (s'.watchers ≡ notify s.watchers)
Claimed from to mapping s (s', err e) =
    (s' ≡ s) × (e ≡ port_range_exhausted) × Taken from (suc to) s.mappings

-- A longer run of taken ports in front.
Claimed-back :
    (from to : ℕ) (mapping : PortMapping) (s : MemPortStore) (r : MemPortStore × Result PortError ℕ)
    → has s.mappings from ≡ true
    → Claimed (suc from) to mapping s r
    → Claimed from to mapping s r
Claimed-back from to mapping s (s', ok port) taken c = (
  omega (arith, c.0),
  c.1,
  c.2,
  λ q le lt. elim (Bool-cases (from == q)) [ inl e ↦ ground arith | inr e ↦ ground (arith, c.3 q) ],
  c.4,
  c.5,
)
Claimed-back from to mapping s (s', err e) taken c = (
  c.0,
  c.1,
  λ q le lt. elim (Bool-cases (from == q)) [ inl e ↦ ground arith | inr e ↦ ground (arith, c.2 q) ],
)

claim-Claimed :
    (f port to : ℕ) (mapping : PortMapping) (s : MemPortStore)
    → port ≤ to
    → to - port < f
    → to ≤ maximum_public_port
    → (r : MemPortStore × Result PortError ℕ) × (claim f port to mapping s ≡ some r)
      × Claimed port to mapping s r
unfolding claim
claim-Claimed zero port to mapping s le fuel max = absurd (omega arith)
claim-Claimed (suc f) port to mapping s le fuel max = elim (Bool-cases (has s.mappings port)) [
  | inr free ↦ rw free (
    _,
    refl,
    (
      omega arith,
      le,
      free,
      λ q h k. absurd (omega arith),
      λ q. get-put s.mappings port q mapping,
      refl,
    ),
  )
  | inl taken ↦ elim (Bool-cases (port == to)) [
    | inl last ↦ rw (taken, last) (_, refl, (refl, refl, λ q h k. ground arith))
    | inr more ↦
        let next : (port + 1) % 2 ^ 32 ≡ suc port = ground arith in
        let (r, e, c) = claim-Claimed f (suc port) to mapping s (ground arith) (ground arith) max in
        rw (taken, more, next) (r, e, Claimed-back port to mapping s r taken c)
  ]
]

-- The whole call: an invalid range is refused and leaves the store alone; a valid one is searched.
abbrev pub Allocated :
    ℕ → ℕ → PortMapping → MemPortStore → MemPortStore × Result PortError ℕ → Type 0
Allocated from to mapping s r =
    ((validate_port_range from to ≡ err invalid_port_range) × (r ≡ (s, err invalid_port_range)))
    ⊎ ((validate_port_range from to ≡ ok tt) × Claimed from to mapping s r)

-- `allocate` always returns. On a valid range it takes the lowest free port, records the mapping
-- there, leaves every other port alone and notifies; if every port of the range is taken it reports
-- exhaustion and changes nothing. An invalid range is refused, with nothing changed.
pub allocate_lem :
    (from to : ℕ) (mapping : PortMapping) (s : MemPortStore)
    → (r : MemPortStore × Result PortError ℕ) × (allocate from to mapping s ≡ some r)
      × Allocated from to mapping s r
unfolding allocate
allocate_lem from to mapping s = elim (validate_port_range_cases from to) [
  | inl bad ↦ rw (bad, allocate) (_, refl, inl (refl, refl))
  | inr (good, pos, le, max) ↦
      let (r, e, c) = claim-Claimed (suc (to - from)) from to mapping s le (omega arith) max in
      rw (good, allocate) (r, e, inr (refl, c))
]
