-- ===== src/AgentLink.antt =====
-- pkg/agent/agent.go: the agent's end of the Control stream, with the upload registry of
-- pkg/agent/fs.go. The sessions that the supervisor runs, the clock and the random numbers are inputs; a
-- handler's goroutine is named by a number. A step is what one goroutine does under a mutex, or one
-- channel operation.
pub mod Backoff
pub mod Cancelling
pub mod Chunks
use hostlink.Prelude.{
  ℕ, suc, ◌+◌, ◌-◌, ◌*◌, ◌/◌, Bool, true, false, not, ◌&&◌, ◌||◌, Option, none, some, List, [], ◌∷◌,
  ◌++◌, ◌==◌, if◌then◌else◌, ltb, length, Text, nat_comparable, text_comparable,
}
use hostlink.Map.{Map, get, put, delete}

-- Nanoseconds.
abbrev pub reconnect_base_delay : ℕ
reconnect_base_delay = 1000000000

abbrev pub reconnect_max_delay : ℕ
reconnect_max_delay = 30000000000

-- `backoff.cur` after `next`.
unfoldable pub grow : ℕ → ℕ
grow cur =
    if ltb cur reconnect_base_delay
    then reconnect_base_delay
    else if ltb reconnect_max_delay (cur * 2)
    then reconnect_max_delay
    else cur * 2

-- `next`, with `rand.Int63n`: the new `cur` and the delay.
unfoldable pub next : (ℕ → ℕ) → ℕ → ℕ × ℕ
unfolding grow
next int63n cur = (grow cur, grow cur - int63n (grow cur / 5 + 1))

-- One round of `Start`: whether the session connected, whether the context has ended after it, how
-- `rand.Int63n` answers in it, and whether the context ends while it waits.
pub record Round : Type 0 where
  pub connected : Bool
  pub cancelled : Bool
  pub int63n : ℕ → ℕ
  pub cancelled_waiting : Bool

-- The loop of `Start`, with the value of `backoff.cur`: the delays that it waits for, and whether it
-- has returned.
unfoldable pub start : ℕ → List Round → List ℕ × Bool
unfolding next
start cur [] = ([], false)
start cur (r ∷ rounds) =
    let (cur', delay) = next r.int63n (if r.connected then 0 else cur) in
    let (delays, returned) = start cur' rounds in
    if r.cancelled
    then ([], true)
    else if r.cancelled_waiting
    then (delay ∷ [], true)
    else (delay ∷ delays, returned)

-- A streaming handler's goroutine.
pub record Handler : Type 0 where
  pub request_id : Text
  pub running : Bool
  pub cancelled : Bool

pub record Handlers : Type 0 where
  pub cancels : Map Text ℕ
  pub handlers : Map ℕ Handler
  pub made : ℕ

abbrev pub no_handlers : Handlers
no_handlers = record { cancels = []; handlers = []; made = 0 }

-- `startCancellable` up to the start of the goroutine.
unfoldable pub start_cancellable : Text → Handlers → Handlers
start_cancellable request_id a = record {
  cancels = put a.cancels request_id a.made;
  handlers =
      put a.handlers a.made (record { request_id = request_id; running = true; cancelled = false });
  made = suc a.made;
}

-- `cancel()`
abbrev pub cancel : ℕ → Map ℕ Handler → Map ℕ Handler
cancel h handlers = elim (get handlers h) [
  | some x ↦ put handlers h (record x { cancelled = true })
  | none ↦ handlers
]

-- The deferred end of a handler's goroutine.
unfoldable pub finish_handler : ℕ → Handlers → Handlers
finish_handler h a = elim (get a.handlers h) [
  | some x ↦ record a {
    cancels = delete a.cancels x.request_id;
    handlers = put a.handlers h (record x { running = false; cancelled = true });
  }
  | none ↦ a
]

-- `cancelInflight`, on the decoded payload.
unfoldable pub cancel_inflight : Option Text → Handlers → Handlers
cancel_inflight none a = a
cancel_inflight (some request_id) a = elim (get a.cancels request_id) [
  | some h ↦ record a { handlers = cancel h a.handlers }
  | none ↦ a
]

-- `uploadChunk`
pub record UploadChunk : Type 0 where
  pub data_bytes : Text
  pub last : Bool

-- `inboundStream`: `sent` is every chunk that was put on `ch`, oldest first, and `taken` is how many
-- of them the handler has read.
pub record InboundStream : Type 0 where
  pub sent : List UploadChunk
  pub taken : ℕ
  pub done : Bool

pub record Inbound : Type 0 where
  pub inbound : Map Text ℕ
  pub streams : Map ℕ InboundStream
  pub made : ℕ

-- `registerInbound`
unfoldable pub register_inbound : Text → Inbound → Inbound
register_inbound request_id a = record {
  inbound = put a.inbound request_id a.made;
  streams = put a.streams a.made (record { sent = []; taken = 0; done = false });
  made = suc a.made;
}

-- How a `routeChunk` goes: it waits for room or for the handler's end, or it returns.
pub data Routed : Type 0 where
  blocked : Routed
  routed : Inbound → Routed

abbrev pub inbound_capacity : ℕ
inbound_capacity = 8

-- The `select` of `routeChunk`; where both are ready `prefer_send` chooses.
offer : Bool → ℕ → UploadChunk → Option InboundStream → Inbound → Routed
offer prefer_send g c none a = blocked
offer prefer_send g c (some s) a =
    if ltb (length s.sent - s.taken) inbound_capacity && (prefer_send || not s.done)
    then routed (record a { streams = put a.streams g (record s { sent = s.sent ++ c ∷ [] }) })
    else if s.done
    then routed a
    else blocked

-- `routeChunk`
unfoldable pub route_chunk : Bool → Text → UploadChunk → Inbound → Routed
unfolding offer
route_chunk prefer_send request_id c a = elim (get a.inbound request_id) [
  | none ↦ routed a
  | some g ↦ offer prefer_send g c (get a.streams g) a
]

abbrev pub points_to : Option ℕ → ℕ → Bool
points_to none g = false
points_to (some h) g = h == g

-- `close(reg.done)`
unfoldable pub close_done : Map ℕ InboundStream → ℕ → Map ℕ InboundStream
close_done streams g = elim (get streams g) [
  | some s ↦ put streams g (record s { done = true })
  | none ↦ streams
]

-- `deregisterInbound`
unfoldable pub deregister_inbound : Text → ℕ → Inbound → Inbound
unfolding close_done
deregister_inbound request_id g a = record a {
  inbound =
      if points_to (get a.inbound request_id) g then delete a.inbound request_id else a.inbound;
  streams = close_done a.streams g;
}
