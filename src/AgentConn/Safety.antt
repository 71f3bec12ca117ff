-- ===== src/AgentConn/Safety.antt =====
-- pkg/controller/registry.go, `agentConn`: what every interleaving of its goroutines keeps.
use hostlink.Prelude.{
  ℕ, ◌≡◌, ◌≢◌, refl, Bool, true, Option, none, some, [], Text, nat_comparable, text_comparable,
  arith, inl, inr, Bool-cases, Option-cases, subst, length, ◌≤◌, ◌+◌,
}
use hostlink.Map.{get}
use hostlink.AgentConn.{
  AgentConn, AgentResult, AgentProgress, StreamFrame, StreamReg, Waiter, Delivery, to_waiter,
  to_stream, does, panics, new_agent_conn, deliver, deliver_progress, finish, send_result,
  send_frame, has_room, close_all,
}
use hostlink.AgentConn.Invariant.{
  IsValid, Sendable, IsEnded, Step, opens, opens_stream, forgets, cancels, receives,
  receives_progress, finishes, closes, wakes, reads, Reach, start, later, new_agent_conn-IsValid,
}
use hostlink.AgentConn.Unary.{
  open_unary-IsValid, forget-IsValid, deliver_unary-IsValid, send_to_waiter-IsValid, wake-IsValid,
}
use hostlink.AgentConn.Streams.{
  open_stream-IsValid, cancel_stream-IsValid, deliver_stream-IsValid,
  deliver_progress_stream-IsValid, dropped-IsValid,
}
use hostlink.AgentConn.Frames.{send_to_stream-IsValid, read-IsValid}
use hostlink.AgentConn.Closing.{close_all-IsValid, IsShut, IsDone, close_regs-IsDone}

deliver-IsValid : (r : AgentResult) (c : AgentConn) → IsValid c → IsValid (deliver r c)
unfolding deliver
deliver-IsValid r c v = elim (Option-cases (get c.pending_stream r.request_id)) [
  | inr (g, e) ↦ rw (e, deliver) (deliver_stream-IsValid r c g e v)
  | inl e ↦ elim (Option-cases (get c.pending r.request_id)) [
    | inr (ch, h) ↦ rw (e, h, deliver) (deliver_unary-IsValid r c ch h v)
    | inl h ↦ rw (e, h, deliver) v
  ]
]

deliver_progress-IsValid :
    (p : AgentProgress) (c : AgentConn) → IsValid c → IsValid (deliver_progress p c)
unfolding deliver_progress
deliver_progress-IsValid p c v = elim (Option-cases (get c.pending_stream p.request_id)) [
  | inr (g, e) ↦ rw (e, deliver_progress) (deliver_progress_stream-IsValid p c g e v)
  | inl e ↦ rw (e, deliver_progress) v
]

-- A send to a registered waiter is made, and at once.
send_result-does :
    (c : AgentConn) (ch : ℕ) (r : AgentResult)
    → c.delivering ≡ some (to_waiter ch r)
    → IsValid c
    → (c' : AgentConn) × (send_result ch r (get c.waiters ch) c ≡ does c') × IsValid c'
unfolding finish
send_result-does c ch r e v =
    let target : Sendable c.pending c.pending_stream c.waiters c.regs (some (to_waiter ch r)) =
      subst (Sendable c.pending c.pending_stream c.waiters c.regs) e v.sending in
    elim (Option-cases (get c.waiters ch)) [
      | inl missing ↦ absurd (ground (arith, target.0))
      | inr (w, found) ↦ (_, ground (arith, target.0), send_to_waiter-IsValid c ch r w e found v)
    ]

send_frame-IsValid :
    (prefer_send : Bool) (c c' : AgentConn) (g : ℕ) (f : StreamFrame) (o : Option StreamReg)
    → get c.regs g ≡ o
    → c.delivering ≡ some (to_stream g f)
    → send_frame prefer_send g f o c ≡ does c'
    → IsValid c
    → IsValid c'
unfolding finish
send_frame-IsValid prefer_send c c' g f none found e h v = cc
send_frame-IsValid prefer_send c c' g f (some reg) found e h v = elim (Bool-cases (has_room reg)) [
  | inl room ↦ ground (arith, send_to_stream-IsValid c g f reg e found room v, dropped-IsValid c v)
  | inr full ↦ ground (arith, dropped-IsValid c v)
]

finish-IsValid :
    (prefer_send : Bool) (c c' : AgentConn) (d : Option Delivery)
    → c.delivering ≡ d
    → finish prefer_send c ≡ does c'
    → IsValid c
    → IsValid c'
unfolding finish
finish-IsValid b c c' none e h v = ground arith
finish-IsValid b c c' (some (to_waiter ch r)) e h v = ground (arith, send_result-does c ch r e v)
finish-IsValid b c c' (some (to_stream g f)) e h v =
    send_frame-IsValid b c c' g f (get c.regs g) refl e (ground arith) v

pub Step-IsValid : {c c' : AgentConn} → Step c c' → IsValid c → IsValid c'
Step-IsValid {c} opens v = open_unary-IsValid c v
Step-IsValid {c} (opens_stream reliable) v = open_stream-IsValid reliable c v
Step-IsValid {c} (forgets id) v = forget-IsValid id c v
Step-IsValid {c} (cancels id g) v = cancel_stream-IsValid id g c v
Step-IsValid {c} (receives r free) v = deliver-IsValid r c v
Step-IsValid {c} (receives_progress p free) v = deliver_progress-IsValid p c v
Step-IsValid {c} {c'} (finishes b h) v = finish-IsValid b c c' c.delivering refl h v
Step-IsValid {c} {c'} (closes h) v =
    let (waiters', done, e, v') = close_all-IsValid c v in ground (arith, v')
Step-IsValid {c} (wakes ch w r found full) v = wake-IsValid c ch w r found full v
Step-IsValid {c} (reads g reg found more) v = read-IsValid c g reg found more v

-- Every state of a connection that its goroutines can reach is valid.
pub Reach-IsValid : {c c' : AgentConn} → IsValid c → Reach c c' → IsValid c'
Reach-IsValid v start = v
Reach-IsValid v (later r s) = Step-IsValid s (Reach-IsValid v r)

finish-safe :
    (b : Bool) (c : AgentConn) (d : Option Delivery)
    → c.delivering ≡ d
    → IsValid c
    → finish b c ≢ panics
unfolding finish
finish-safe b c none e v h = ground arith
finish-safe b c (some (to_waiter ch r)) e v h = ground (arith, send_result-does c ch r e v)
finish-safe b c (some (to_stream g f)) e v h = ground arith

-- Whatever the interleaving of dispatchers, cancellations, received events and the stream's end, no
-- goroutine sends on a closed channel or closes one twice, and the send of a result to a unary
-- waiter is always made without waiting.
pub agent_conn_never_panics :
    (agent_id : Text) {c : AgentConn} (prefer_send : Bool)
    → Reach (new_agent_conn agent_id) c
    → (finish prefer_send c ≢ panics)
      × (close_all c ≢ panics)
      × ((ch : ℕ) (r : AgentResult)
          → c.delivering ≡ some (to_waiter ch r)
          → (c' : AgentConn) × (finish prefer_send c ≡ does c'))
unfolding finish
agent_conn_never_panics agent_id {c} b reach =
    let v = Reach-IsValid (new_agent_conn-IsValid agent_id) reach in
    (
      finish-safe b c c.delivering refl v,
      λ h. ground (arith, close_all-IsValid c v),
      λ ch r e. let (c', h, _) = send_result-does c ch r e v in (c', ground arith),
    )

-- A dispatcher only ever reads a result that carries the request id under which it registered.
pub waiter_gets_its_result :
    (agent_id : Text) {c : AgentConn} (ch : ℕ) (w : Waiter) (r : AgentResult)
    → Reach (new_agent_conn agent_id) c
    → get c.waiters ch ≡ some w
    → w.buffer ≡ some r
    → r.request_id ≡ w.request_id
waiter_gets_its_result agent_id {c} ch w r reach found full =
    let v = Reach-IsValid (new_agent_conn-IsValid agent_id) reach in ground (arith, v.answered ch)

-- On the channel of a streaming dispatch a terminal frame is the last frame ever sent, and no more
-- than 64 frames are buffered.
pub stream_ends_once :
    (agent_id : Text) {c : AgentConn} (g : ℕ) (reg : StreamReg)
    → Reach (new_agent_conn agent_id) c
    → get c.regs g ≡ some reg
    → IsEnded reg.sent × (length reg.sent ≤ reg.taken + 64)
stream_ends_once agent_id {c} g reg reach found =
    let v = Reach-IsValid (new_agent_conn-IsValid agent_id) reach in ground (arith, v.streamed g)

-- `closeAll` always succeeds: it leaves no registration, every unary waiter's channel is closed and
-- empty, so its dispatcher fails with a disconnect, and every stream's `done` is closed.
pub close_all_wakes :
    (agent_id : Text) {c : AgentConn}
    → Reach (new_agent_conn agent_id) c
    → (c' : AgentConn) × (close_all c ≡ does c')
      × (c'.closed ≡ true)
      × (c'.pending ≡ [])
      × (c'.pending_stream ≡ [])
      × ((id : Text) (ch : ℕ) → get c.pending id ≡ some ch → IsShut (get c'.waiters ch))
      × ((id : Text) (g : ℕ) → get c.pending_stream id ≡ some g → IsDone (get c'.regs g))
close_all_wakes agent_id {c} reach =
    let v = Reach-IsValid (new_agent_conn-IsValid agent_id) reach in
    let (waiters', done, e, _) = close_all-IsValid c v in
    (
      _,
      e,
      refl,
      refl,
      refl,
      done.shut,
      λ id g h. close_regs-IsDone c.pending_stream c.regs id g h (v.streaming id g h),
    )
