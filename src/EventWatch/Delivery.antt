-- ===== src/EventWatch/Delivery.antt =====
-- pkg/agent/events.go: what the watch sends, and how long it waits between subscriptions.
use hostlink.Prelude.{
  ℕ, ◌≤◌, ◌≡◌, refl, ap, Bool, true, false, ◌||◌, List, [], ◌∷◌, ◌==◌, if◌then◌else◌, All, arith,
  Bool-cases, inl, inr, nat_comparable, text_comparable,
}
use hostlink.EventWatch.{
  retry_base, retry_max, Message, Seen, context_done, messages_closed, errors_seen, message,
  consume_docker_events, Subscription, doubled, run_docker_events_loop,
}

-- The messages of a subscription up to its end.
unfoldable pub messages_of : List Seen → List Message
messages_of [] = []
messages_of (message m ∷ rest) = m ∷ messages_of rest
messages_of (_ ∷ rest) = []

-- Those that name a container.
unfoldable pub with_id : List Message → List Message
with_id [] = []
with_id (m ∷ ms) = if m.id == [] then with_id ms else m ∷ with_id ms

-- Of what a subscription yields, each message that names a container is sent, once and in order, up to
-- its end or that of the context.
consume_docker_events-sent :
    (received : Bool) (seen : List Seen)
    → (consume_docker_events received seen).sent ≡ with_id (messages_of seen)
unfolding consume_docker_events messages_of with_id
consume_docker_events-sent received [] = refl
consume_docker_events-sent received (context_done ∷ rest) = refl
consume_docker_events-sent received (messages_closed ∷ rest) = refl
consume_docker_events-sent received (errors_seen ∷ rest) = refl
consume_docker_events-sent received (message m ∷ rest) = elim (Bool-cases (m.id == [])) [
  | inl nameless ↦ simp nameless (consume_docker_events-sent true rest)
  | inr named ↦ simp named (ap (λ ms. m ∷ ms) (consume_docker_events-sent true rest))
]

abbrev pub IsRetry : ℕ → Type 0
IsRetry delay = (retry_base ≤ delay) × (delay ≤ retry_max)

doubled-IsRetry : (delay : ℕ) → IsRetry delay → IsRetry (doubled delay)
doubled-IsRetry delay (low, high) = (ground arith, ground arith)

-- However the subscriptions go, the watch waits between 1s and 30s before each new one, from a delay
-- within these bounds.
pub run_docker_events_loop-IsRetry :
    (delay : ℕ) (rounds : List Subscription)
    → IsRetry delay
    → All IsRetry (run_docker_events_loop delay rounds).delays
unfolding run_docker_events_loop
run_docker_events_loop-IsRetry delay [] r = tt
run_docker_events_loop-IsRetry delay (s ∷ rest) r =
    let c = consume_docker_events false s.yields in
    let now = if c.received_message || s.healthy then retry_base else delay in
    let n : IsRetry now = elim (Bool-cases (c.received_message || s.healthy)) [
      | inl reset ↦ rw reset (omega arith, omega arith)
      | inr keep ↦ rw keep r
    ] in
    let more = run_docker_events_loop-IsRetry (doubled now) rest (doubled-IsRetry now n) in
    elim (Bool-cases s.cancelled_before) [
      | inl a ↦ rw a tt
      | inr a ↦ elim (Bool-cases c.returned) [
        | inr b ↦ rw (a, b) tt
        | inl b ↦ elim (Bool-cases c.canceled) [
          | inl d ↦ rw (a, b, d) tt
          | inr d ↦ elim (Bool-cases s.cancelled_waiting) [
            | inl e ↦ rw (a, b, d, e) (n, tt)
            | inr e ↦ rw (a, b, d, e) (n, more)
          ]
        ]
      ]
    ]
