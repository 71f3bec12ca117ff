-- ===== src/AgentConn/Invariant.antt =====
-- pkg/controller/registry.go, `agentConn`: the steps of its goroutines, and what holds between them.
use hostlink.Prelude.{
  ℕ, suc, ◌+◌, ◌≤◌, ◌<◌, ◌≡◌, ◌≢◌, Bool, true, false, Option, none, some, List, [], ◌∷◌, length,
  Text, nat_comparable, text_comparable,
}
use hostlink.Map.{Map, get, put}
use hostlink.Map.Laws.{Distinct}
use hostlink.AgentConn.{
  AgentConn, AgentResult, AgentProgress, StreamFrame, StreamReg, Waiter, Delivery, to_waiter,
  to_stream, does, new_agent_conn, open_unary, open_stream, forget, cancel_stream, deliver,
  deliver_progress, finish, close_all, stream_capacity,
}

-- A waiter to whom nothing was sent, under its request id.
abbrev pub IsIdle : Text → Option Waiter → Type 0
IsIdle request_id none = ⊥
IsIdle request_id (some w) = (w.request_id ≡ request_id) × (w.buffer ≡ none) × (w.closed ≡ false)

-- No frame of the list is a terminal frame.
abbrev pub IsOpen : List StreamFrame → Type 0
IsOpen [] = Unit
IsOpen (f ∷ fs) = (f.final ≡ false) × IsOpen fs

-- Only the last frame may be a terminal frame.
abbrev pub IsEnded : List StreamFrame → Type 0
IsEnded [] = Unit
IsEnded (f ∷ []) = Unit
IsEnded (f ∷ g ∷ fs) = (f.final ≡ false) × IsEnded (g ∷ fs)

abbrev pub IsLive : Text → Option StreamReg → Type 0
IsLive request_id none = ⊥
IsLive request_id (some reg) = (reg.request_id ≡ request_id) × IsOpen reg.sent

abbrev pub Matches : Text → Option AgentResult → Type 0
Matches request_id none = Unit
Matches request_id (some r) = r.request_id ≡ request_id

-- A channel was made, and what it holds answers the request that it was made for.
abbrev pub Answered : ℕ → ℕ → Option Waiter → Type 0
Answered made ch none = Unit
Answered made ch (some w) = (ch < made) × Matches w.request_id w.buffer

-- A stream was made, it carries at most one terminal frame, as its last, and its buffer is within
-- the channel's capacity.
abbrev pub Streamed : ℕ → ℕ → Option StreamReg → Type 0
Streamed made g none = Unit
Streamed made g (some reg) =
    (g < made)
    × IsEnded reg.sent
    × (reg.taken ≤ length reg.sent)
    × (length reg.sent ≤ reg.taken + stream_capacity)

-- The target of a send under way: it is open, and no registration leads to it any more.
abbrev pub Sendable :
    Map Text ℕ → Map Text ℕ → Map ℕ Waiter → Map ℕ StreamReg → Option Delivery → Type 0
Sendable pending streams waiters regs none = Unit
Sendable pending streams waiters regs (some (to_waiter ch r)) =
    IsIdle r.request_id (get waiters ch) × ((request_id : Text) → get pending request_id ≢ some ch)
Sendable pending streams waiters regs (some (to_stream g f)) =
    (owner : Text) × IsLive owner (get regs g)
    × (f.final ≡ true → (request_id : Text) → get streams request_id ≢ some g)

pub record IsValid (c : AgentConn) : Type 0 where
  pub distinct : Distinct c.pending
  pub waiting :
      (request_id : Text) (ch : ℕ)
      → get c.pending request_id ≡ some ch
      → IsIdle request_id (get c.waiters ch)
  pub streaming :
      (request_id : Text) (g : ℕ)
      → get c.pending_stream request_id ≡ some g
      → IsLive request_id (get c.regs g)
  pub sending : Sendable c.pending c.pending_stream c.waiters c.regs c.delivering
  pub answered : (ch : ℕ) → Answered c.made ch (get c.waiters ch)
  pub streamed : (g : ℕ) → Streamed c.made g (get c.regs g)
  pub shut : c.closed ≡ true → (c.pending ≡ []) × (c.pending_stream ≡ [])

-- One step of some goroutine. The agent may send any event at any time, a dispatcher may give up at
-- any time, and the stream may end at any time.
pub data Step (c : AgentConn) : AgentConn → Type 0 where
  opens : Step c (open_unary c).0
  opens_stream : (reliable : Bool) → Step c (open_stream reliable c).0
  forgets : (request_id : Text) → Step c (forget request_id c)
  cancels : (request_id : Text) (g : ℕ) → Step c (cancel_stream request_id g c).0
  receives : (r : AgentResult) → c.delivering ≡ none → Step c (deliver r c)
  receives_progress : (p : AgentProgress) → c.delivering ≡ none → Step c (deliver_progress p c)
  finishes : (prefer_send : Bool) {c' : AgentConn} → finish prefer_send c ≡ does c' → Step c c'
  closes : {c' : AgentConn} → close_all c ≡ does c' → Step c c'
  wakes :
      (ch : ℕ) (w : Waiter) (r : AgentResult)
      → get c.waiters ch ≡ some w
      → w.buffer ≡ some r
      → Step c (record c { waiters = put c.waiters ch (record w { buffer = none }) })
  reads :
      (g : ℕ) (reg : StreamReg)
      → get c.regs g ≡ some reg
      → reg.taken < length reg.sent
      → Step c (record c { regs = put c.regs g (record reg { taken = suc reg.taken }) })

pub data Reach (c : AgentConn) : AgentConn → Type 0 where
  start : Reach c c
  later : {d e : AgentConn} → Reach c d → Step d e → Reach c e

pub new_agent_conn-IsValid : (agent_id : Text) → IsValid (new_agent_conn agent_id)
unfolding new_agent_conn get
new_agent_conn-IsValid agent_id = record {
  distinct = tt;
  waiting = λ request_id ch h. cc;
  streaming = λ request_id g h. cc;
  sending = tt;
  answered = λ ch. tt;
  streamed = λ g. tt;
  shut = λ h. cc;
}
