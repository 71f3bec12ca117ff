-- ===== src/EventWatch.antt =====
-- pkg/agent/events.go: the watch of the Docker daemon's container events. What the daemon's stream
-- yields, the clock and the context are inputs; a delay is in nanoseconds.
pub mod Delivery
use hostlink.Prelude.{
  ℕ, ◌*◌, Bool, true, false, not, ◌&&◌, ◌||◌, List, [], ◌∷◌, ◌++◌, ◌==◌, if◌then◌else◌, ltb, Text,
  nat_comparable, text_comparable,
}

-- `dockerEventRetry`, without `healthyAfter`, which only the clock decides.
abbrev pub retry_base : ℕ
retry_base = 1000000000

abbrev pub retry_max : ℕ
retry_max = 30000000000

-- A container event: its action and the id of its container.
pub record Message : Type 0 where
  pub action : Text
  pub id : Text

-- What the `select` of `consumeDockerEvents` sees.
pub data Seen : Type 0 where
  context_done messages_closed errors_seen : Seen
  message : Message → Seen

-- How `consumeDockerEvents` ends, or that it waits: the messages for which it calls `send`, oldest
-- first, whether it received one, and whether the context ended it.
pub record Consumed : Type 0 where
  pub sent : List Message
  pub received_message : Bool
  pub canceled : Bool
  pub returned : Bool

abbrev pub returns : Bool → Bool → Consumed
returns received canceled = record {
  sent = [];
  received_message = received;
  canceled = canceled;
  returned = true;
}

abbrev pub send_first : Message → Consumed → Consumed
send_first m c = if m.id == [] then c else record c { sent = m ∷ c.sent }

-- `consumeDockerEvents`; the first argument is `receivedMessage`.
unfoldable pub consume_docker_events : Bool → List Seen → Consumed
consume_docker_events received [] = record {
  sent = [];
  received_message = received;
  canceled = false;
  returned = false;
}
consume_docker_events received (context_done ∷ rest) = returns received true
consume_docker_events received (messages_closed ∷ rest) = returns received false
consume_docker_events received (errors_seen ∷ rest) = returns received false
consume_docker_events received (message m ∷ rest) = send_first m (consume_docker_events true rest)

-- One round of `runDockerEventsLoop`: whether the context has ended before it, what the subscription
-- yields, whether it has stood for `healthyAfter`, and whether the wait is cut short.
pub record Subscription : Type 0 where
  pub cancelled_before : Bool
  pub yields : List Seen
  pub healthy : Bool
  pub cancelled_waiting : Bool

-- The messages that are sent, the delays that are waited for, and whether the loop has returned.
pub record Watch : Type 0 where
  pub sent : List Message
  pub delays : List ℕ
  pub returned : Bool

abbrev pub doubled : ℕ → ℕ
doubled delay =
    if ltb delay retry_max
    then (if ltb retry_max (delay * 2) then retry_max else delay * 2)
    else delay

abbrev pub stop : List Message → List ℕ → Bool → Watch
stop sent delays returned = record { sent = sent; delays = delays; returned = returned }

-- The loop of `runDockerEventsLoop`, with the value of `delay`.
unfoldable pub run_docker_events_loop : ℕ → List Subscription → Watch
unfolding consume_docker_events
run_docker_events_loop delay [] = stop [] [] false
run_docker_events_loop delay (s ∷ rest) =
    let c = consume_docker_events false s.yields in
    let now = if c.received_message || s.healthy then retry_base else delay in
    let more = run_docker_events_loop (doubled now) rest in
    if s.cancelled_before
    then stop [] [] true
    else if not c.returned
    then stop c.sent [] false
    else if c.canceled
    then stop c.sent [] true
    else if s.cancelled_waiting
    then stop c.sent (now ∷ []) true
    else stop (c.sent ++ more.sent) (now ∷ more.delays) more.returned
