-- ===== src/AgentLink/Backoff.antt =====
-- pkg/agent/agent.go, `backoff` and `Start`: how long the agent waits before it reconnects.
use native.Mathlib.Nat.{pow-suc}
use hostlink.Prelude.{
  ℕ, zero, suc, ◌+◌, ◌-◌, ◌*◌, ◌/◌, ◌^◌, min, ◌≤◌, ◌<◌, ◌≡◌, refl, sym, ap, ◌∙◌, List, [], ◌∷◌, All,
  if◌then◌else◌, arith, Bool-cases, inl, inr,
}
use hostlink.AgentLink.{reconnect_base_delay, reconnect_max_delay, grow, next, Round, start}

-- `backoff.cur` after so many calls of `next` since a reset.
unfoldable pub cur_after : ℕ → ℕ
unfolding grow
cur_after zero = 0
cur_after (suc n) = grow (cur_after n)

-- What Go documents of `rand.Int63n`: its result is below its argument.
abbrev pub IsRandom : Round → Type 0
IsRandom r = (n : ℕ) → 0 < n → r.int63n n < n

grow_bounds :
    (cur : ℕ)
    → cur ≤ reconnect_max_delay
    → (reconnect_base_delay ≤ grow cur) × (grow cur ≤ reconnect_max_delay)
unfolding grow
grow_bounds cur le = (ground arith, ground arith)

grow-min :
    (p : ℕ)
    → 1 ≤ p
    → grow (min (reconnect_base_delay * p) reconnect_max_delay)
      ≡ min (reconnect_base_delay * (p * 2)) reconnect_max_delay
unfolding grow
grow-min p pos = ground arith

one_le_pow : (n : ℕ) → 1 ≤ 2 ^ n
one_le_pow zero = omega arith
one_le_pow (suc n) = omega (arith, one_le_pow n, pow-suc 2 n)

cur_after_closed :
    (n : ℕ) → cur_after (suc n) ≡ min (reconnect_base_delay * 2 ^ n) reconnect_max_delay
unfolding cur_after grow
cur_after_closed zero = refl
cur_after_closed (suc n) =
    ap grow (cur_after_closed n)
    ∙ grow-min (2 ^ n) (one_le_pow n)
    ∙ ap (λ p. min (reconnect_base_delay * p) reconnect_max_delay) (sym (pow-suc 2 n))

jitter :
    (cur base drawn : ℕ)
    → cur ≡ base
    → drawn < cur / 5 + 1
    → (cur - drawn ≤ base) × (base ≤ cur - drawn + base / 5)
jitter cur base drawn e lt = (omega (arith, e, lt), omega (arith, e, lt))

-- After a reset, the (n + 1)-th `next` has the delay 1s * 2^n, at most 30s, less a fifth of it at
-- most, whatever random numbers it draws.
pub next_closed :
    (n : ℕ) (r : Round)
    → IsRandom r
    → let base = min (reconnect_base_delay * 2 ^ n) reconnect_max_delay in
      let (cur, delay) = next r.int63n (cur_after n) in
      (cur ≡ cur_after (suc n)) × (cur ≡ base) × (delay ≤ base) × (base ≤ delay + base / 5)
unfolding next cur_after
next_closed n r random =
    let c = cur_after_closed n in
    let (high, low) =
      jitter (grow (cur_after n)) _ (r.int63n (grow (cur_after n) / 5 + 1)) c
        (random (grow (cur_after n) / 5 + 1) (omega arith)) in
    (refl, c, high, low)

-- A delay between 0.8s and 30s.
abbrev pub IsDelay : ℕ → Type 0
IsDelay delay = (800000000 ≤ delay) × (delay ≤ reconnect_max_delay)

next_bounds :
    (int63n : ℕ → ℕ) (cur : ℕ)
    → ((n : ℕ) → 0 < n → int63n n < n)
    → cur ≤ reconnect_max_delay
    → ((next int63n cur).0 ≤ reconnect_max_delay) × IsDelay (next int63n cur).1
unfolding next
next_bounds int63n cur random le =
    let b = grow_bounds cur le in
    let lt = random (grow cur / 5 + 1) (omega arith) in
    (b.1, (omega (arith, b, lt), omega (arith, b, lt)))

-- However the sessions of `Start` go, it never waits less than 0.8s nor more than 30s before it
-- reconnects, from a value of `cur` that is not above the maximum.
pub start-IsDelay :
    (cur : ℕ) (rounds : List Round)
    → cur ≤ reconnect_max_delay
    → All IsRandom rounds
    → All IsDelay (start cur rounds).0
unfolding start
start-IsDelay cur [] le random = tt
start-IsDelay cur (r ∷ rounds) le random =
    let from : (if r.connected then 0 else cur) ≤ reconnect_max_delay = ground arith in
    let (small, d) = next_bounds r.int63n (if r.connected then 0 else cur) random.0 from in
    let more =
      start-IsDelay (next r.int63n (if r.connected then 0 else cur)).0 rounds small random.1 in
    elim (Bool-cases r.cancelled) [
      | inl stops ↦ rw stops tt
      | inr goes ↦ elim (Bool-cases r.cancelled_waiting) [
        | inl stops ↦ rw (goes, stops) (d, tt)
        | inr on ↦ rw (goes, on) (d, more)
      ]
    ]
