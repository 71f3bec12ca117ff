-- ===== src/AgentConn.antt =====
-- pkg/controller/registry.go, `agentConn`: the requests in flight on one agent's Control stream. A
-- step below is what one goroutine does under `mu` (the atomic request counter only names the
-- request, so taking a number is part of the step that registers it), or one channel operation.
pub mod Invariant
pub mod Unary
pub mod Streams
pub mod Frames
pub mod Closing
pub mod Safety
use hostlink.Prelude.{
  ℕ, suc, ◌+◌, ◌-◌, ◌%◌, ◌^◌, Bool, true, false, not, ◌&&◌, ◌||◌, Option, none, some, List, [], ◌∷◌,
  ◌++◌, ◌==◌, if◌then◌else◌, ltb, length, Text, codes, nat_comparable, text_comparable,
}
use hostlink.Map.{Map, get, put, delete}
use hostlink.Decimal.{format_uint}

-- `hostlinkv1.AgentResult` and `AgentProgress`
pub record AgentResult : Type 0 where
  pub request_id : Text
  pub payload : Text
  pub code : ℕ
  pub error : Text

pub record AgentProgress : Type 0 where
  pub request_id : Text
  pub payload : Text

pub record StreamFrame : Type 0 where
  pub payload : Text
  pub code : ℕ
  pub error : Text
  pub final : Bool

-- A unary waiter's `chan *AgentResult` of capacity one. `request_id` is the id under which its
-- dispatcher registered it; no code reads that field.
pub record Waiter : Type 0 where
  pub request_id : Text
  pub buffer : Option AgentResult
  pub closed : Bool

-- `streamReg`. `sent` is every frame that was put on `ch`, oldest first, and `taken` is how many of
-- them the consumer has read; the rest is the buffer.
pub record StreamReg : Type 0 where
  pub request_id : Text
  pub sent : List StreamFrame
  pub taken : ℕ
  pub done : Bool
  pub reliable : Bool

-- A send that the receive loop has looked up and not yet made.
pub data Delivery : Type 0 where
  to_waiter : ℕ → AgentResult → Delivery
  to_stream : ℕ → StreamFrame → Delivery

-- The connection, with the heap of its channels. The receive loop handles one event at a time, so
-- there is at most one delivery under way.
pub record AgentConn : Type 0 where
  pub agent_id : Text
  pub pending : Map Text ℕ
  pub pending_stream : Map Text ℕ
  pub closed : Bool
  pub seq : ℕ  -- uint64
  pub waiters : Map ℕ Waiter
  pub regs : Map ℕ StreamReg
  pub made : ℕ
  pub delivering : Option Delivery

-- `newAgentConn`
unfoldable pub new_agent_conn : Text → AgentConn
new_agent_conn agent_id = record {
  agent_id = agent_id;
  pending = [];
  pending_stream = [];
  closed = false;
  seq = 0;
  waiters = [];
  regs = [];
  made = 0;
  delivering = none;
}

-- `c.seq.Add(1)`
abbrev pub next_seq : AgentConn → ℕ
next_seq c = (c.seq + 1) % 2 ^ 64

abbrev pub next_id : AgentConn → Text
next_id c = format_uint (next_seq c)

-- `dispatch` and `dispatchUpload` up to the registration: the request id and the channel, unless the
-- connection is closed.
unfoldable pub open_unary : AgentConn → AgentConn × Option (Text × ℕ)
open_unary c = if c.closed then (record c { seq = next_seq c }, none) else (
  record c {
    seq = next_seq c;
    pending = put c.pending (next_id c) c.made;
    waiters =
        put c.waiters c.made (record { request_id = next_id c; buffer = none; closed = false });
    made = suc c.made;
  },
  some (next_id c, c.made),
)

-- The deferred `delete(c.pending, requestID)` of `dispatch`, `dispatchUpload` and `await`.
unfoldable pub forget : Text → AgentConn → AgentConn
forget request_id c = record c { pending = delete c.pending request_id }

-- `dispatchStream` up to the registration.
unfoldable pub open_stream : Bool → AgentConn → AgentConn × Option (Text × ℕ)
open_stream reliable c = if c.closed then (record c { seq = next_seq c }, none) else (
  record c {
    seq = next_seq c;
    pending_stream = put c.pending_stream (next_id c) c.made;
    regs = put c.regs c.made (record {
      request_id = next_id c;
      sent = [];
      taken = 0;
      done = false;
      reliable = reliable;
    });
    made = suc c.made;
  },
  some (next_id c, c.made),
)

-- `reg.close()`: `done` is closed once, whoever closes it first.
abbrev pub close_reg : Map ℕ StreamReg → ℕ → Map ℕ StreamReg
close_reg regs g = elim (get regs g) [
  | some reg ↦ put regs g (record reg { done = true })
  | none ↦ regs
]

abbrev pub points_to : Option ℕ → ℕ → Bool
points_to none g = false
points_to (some h) g = h == g

-- The cancel function of `dispatchStream`. The Boolean is whether it goes on to send the agent a
-- request.cancel, for which it takes one more number.
unfoldable pub cancel_stream : Text → ℕ → AgentConn → AgentConn × Bool
cancel_stream request_id g c =
    let live = points_to (get c.pending_stream request_id) g in
    let tell = live && not c.closed in
    (
      record c {
        pending_stream = if live then delete c.pending_stream request_id else c.pending_stream;
        regs = close_reg c.regs g;
        seq = if tell then next_seq c else c.seq;
      },
      tell,
    )

abbrev pub final_frame : AgentResult → StreamFrame
final_frame r = record { payload = r.payload; code = r.code; error = r.error; final = true }

abbrev pub progress_frame : AgentProgress → StreamFrame
progress_frame p = record { payload = p.payload; code = 0; error = []; final = false }

-- `deliver` up to its unlock: the registration goes, and the send is still to be made. A result that
-- nobody waits for is dropped.
unfoldable pub deliver : AgentResult → AgentConn → AgentConn
deliver r c = elim (get c.pending_stream r.request_id) [
  | some g ↦ record c {
    pending_stream = delete c.pending_stream r.request_id;
    delivering = some (to_stream g (final_frame r));
  }
  | none ↦ elim (get c.pending r.request_id) [
    | some ch ↦ record c {
      pending = delete c.pending r.request_id;
      delivering = some (to_waiter ch r);
    }
    | none ↦ c
  ]
]

-- `deliverProgress` up to its unlock: the stream stays registered.
unfoldable pub deliver_progress : AgentProgress → AgentConn → AgentConn
deliver_progress p c = elim (get c.pending_stream p.request_id) [
  | some g ↦ record c { delivering = some (to_stream g (progress_frame p)) }
  | none ↦ c
]

-- What becomes of a channel operation: it panics, it has to wait, or it is done.
pub data Effect : Type 0 where
  panics blocks : Effect
  does : AgentConn → Effect

-- `ch <- result` on a unary waiter's channel.
send_result : ℕ → AgentResult → Option Waiter → AgentConn → Effect
send_result ch r none c = blocks
send_result ch r (some w) c = if w.closed then panics else elim w.buffer [
  | some _ ↦ blocks
  | none ↦
      does
        (record c { waiters = put c.waiters ch (record w { buffer = some r }); delivering = none })
]

abbrev pub stream_capacity : ℕ
stream_capacity = 64

abbrev pub has_room : StreamReg → Bool
has_room reg = ltb (length reg.sent - reg.taken) stream_capacity

-- The `select` on `reg.ch <- frame` and `<-reg.done`; where both are ready `prefer_send` chooses. A
-- progress frame of an unreliable stream is dropped where neither is.
send_frame : Bool → ℕ → StreamFrame → Option StreamReg → AgentConn → Effect
send_frame prefer_send g f none c = blocks
send_frame prefer_send g f (some reg) c =
    if has_room reg && (prefer_send || not reg.done)
    then does (record c {
      regs = put c.regs g (record reg { sent = reg.sent ++ f ∷ [] });
      delivering = none;
    })
    else (if reg.done || (not f.final && not reg.reliable)
        then does (record c { delivering = none })
        else blocks)

-- The send that `deliver` and `deliverProgress` make after their unlock.
unfoldable pub finish : Bool → AgentConn → Effect
unfolding send_result send_frame
finish prefer_send c = elim c.delivering [
  | none ↦ blocks
  | some (to_waiter ch r) ↦ send_result ch r (get c.waiters ch) c
  | some (to_stream g f) ↦ send_frame prefer_send g f (get c.regs g) c
]

-- The waiters after `close(ch)` on every channel of the list; `none` is the panic on a closed one.
unfoldable pub close_waiters : Map Text ℕ → Map ℕ Waiter → Option (Map ℕ Waiter)
close_waiters [] waiters = some waiters
close_waiters ((request_id, ch) ∷ rest) waiters = elim (get waiters ch) [
  | none ↦ none
  | some w ↦
      if w.closed then none else close_waiters rest (put waiters ch (record w { closed = true }))
]

unfoldable pub close_regs : Map Text ℕ → Map ℕ StreamReg → Map ℕ StreamReg
close_regs [] regs = regs
close_regs ((request_id, g) ∷ rest) regs = close_regs rest (close_reg regs g)

-- `closeAll`. The code closes the collected registrations right after the unlock; here that is in the
-- same step, since no send on them depends on the lock and closing twice is a no-op.
unfoldable pub close_all : AgentConn → Effect
unfolding close_waiters close_regs
close_all c = elim (close_waiters c.pending c.waiters) [
  | none ↦ panics
  | some waiters ↦ does (record c {
    closed = true;
    pending = [];
    waiters = waiters;
    regs = close_regs c.pending_stream c.regs;
    pending_stream = [];
  })
]
