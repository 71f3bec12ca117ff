-- ===== src/AgentConn/Streams.antt =====
-- pkg/controller/registry.go, `agentConn`: the streaming operations keep the invariant.
use hostlink.Prelude.{
  ℕ, ◌≡◌, Bool, true, false, Option, none, some, List, [], ◌∷◌, ◌++◌, Text, nat_comparable,
  text_comparable, arith, inl, inr, Bool-cases, Option-cases, ap,
}
use hostlink.Map.{Map, get, put, delete}
use hostlink.Map.Laws.{get-put, get-delete}
use hostlink.AgentConn.{
  AgentConn, AgentResult, AgentProgress, StreamFrame, StreamReg, Waiter, Delivery, to_waiter,
  to_stream, open_stream, cancel_stream, next_id, close_reg, close_regs, points_to, final_frame,
  progress_frame,
}
use hostlink.AgentConn.Invariant.{IsValid, IsLive, IsOpen, IsEnded, Sendable, Streamed}

pub IsOpen-snoc :
    (fs : List StreamFrame) (f : StreamFrame) → IsOpen fs → f.final ≡ false → IsOpen (fs ++ f ∷ [])
IsOpen-snoc [] f o h = (h, tt)
IsOpen-snoc (g ∷ fs) f o h = (o.0, IsOpen-snoc fs f o.1 h)

pub IsEnded-snoc : (fs : List StreamFrame) (f : StreamFrame) → IsOpen fs → IsEnded (fs ++ f ∷ [])
IsEnded-snoc [] f o = tt
IsEnded-snoc (g ∷ []) f o = (o.0, tt)
IsEnded-snoc (g ∷ h ∷ fs) f o = (o.0, IsEnded-snoc (h ∷ fs) f o.1)

-- Closing `done` changes nothing else of a stream.
pub IsLive-close_reg :
    (regs : Map ℕ StreamReg) (g k : ℕ) (id : Text)
    → IsLive id (get regs k)
    → IsLive id (get (close_reg regs g) k)
IsLive-close_reg regs g k id l = elim (Option-cases (get regs g)) [
  | inl e ↦ rw (e, close_reg) l
  | inr (reg, e) ↦ rw (e, close_reg) (ground (arith, get-put regs g k (record reg { done = true })))
]

pub Streamed-close_reg :
    (regs : Map ℕ StreamReg) (g made k : ℕ)
    → Streamed made k (get regs k)
    → Streamed made k (get (close_reg regs g) k)
Streamed-close_reg regs g made k s = elim (Option-cases (get regs g)) [
  | inl e ↦ rw (e, close_reg) s
  | inr (reg, e) ↦ rw (e, close_reg) (ground (arith, get-put regs g k (record reg { done = true })))
]

pub IsLive-close_regs :
    (m : Map Text ℕ) (regs : Map ℕ StreamReg) (k : ℕ) (id : Text)
    → IsLive id (get regs k)
    → IsLive id (get (close_regs m regs) k)
unfolding close_regs
IsLive-close_regs [] regs k id l = l
IsLive-close_regs ((rid, g) ∷ m) regs k id l =
    IsLive-close_regs m (close_reg regs g) k id (IsLive-close_reg regs g k id l)

pub Streamed-close_regs :
    (m : Map Text ℕ) (regs : Map ℕ StreamReg) (made k : ℕ)
    → Streamed made k (get regs k)
    → Streamed made k (get (close_regs m regs) k)
unfolding close_regs
Streamed-close_regs [] regs made k s = s
Streamed-close_regs ((rid, g) ∷ m) regs made k s =
    Streamed-close_regs m (close_reg regs g) made k (Streamed-close_reg regs g made k s)

abbrev new_reg : AgentConn → Bool → StreamReg
new_reg c reliable = record {
  request_id = next_id c;
  sent = [];
  taken = 0;
  done = false;
  reliable = reliable;
}

Sendable-put :
    (pending streams : Map Text ℕ) (waiters : Map ℕ Waiter) (regs : Map ℕ StreamReg) (made : ℕ)
    (id : Text) (reg : StreamReg) (d : Option Delivery)
    → ((g : ℕ) → Streamed made g (get regs g))
    → Sendable pending streams waiters regs d
    → Sendable pending (put streams id made) waiters (put regs made reg) d
Sendable-put pending streams waiters regs made id reg none a s = tt
Sendable-put pending streams waiters regs made id reg (some (to_waiter ch r)) a s = s
Sendable-put pending streams waiters regs made id reg (some (to_stream g f)) a s = (
  s.0,
  ground (arith, get-put regs made g reg, a g, s.1),
  λ last rid. ground (arith, get-put streams id rid made, s.2 last rid, a g, s.1),
)

pub open_stream-IsValid :
    (reliable : Bool) (c : AgentConn) → IsValid c → IsValid (open_stream reliable c).0
unfolding open_stream
open_stream-IsValid reliable c v = elim (Bool-cases c.closed) [
  | inl shut ↦
      rw (shut, open_stream)
        (record {
          distinct = v.distinct;
          waiting = v.waiting;
          streaming = v.streaming;
          sending = v.sending;
          answered = v.answered;
          streamed = v.streamed;
          shut = λ h. v.shut shut;
        })
  | inr live ↦
      rw (live, open_stream)
        (record {
          distinct = v.distinct;
          waiting = v.waiting;
          streaming = λ id g h. ground (
            arith,
            get-put c.pending_stream (next_id c) id c.made,
            get-put c.regs c.made g (new_reg c reliable),
            v.streaming id g,
            v.streamed g,
          );
          sending =
              Sendable-put c.pending c.pending_stream c.waiters c.regs c.made (next_id c)
                (new_reg c reliable) c.delivering v.streamed v.sending;
          answered = λ ch. ground (arith, v.answered ch);
          streamed =
              λ g. ground (arith, v.streamed g, get-put c.regs c.made g (new_reg c reliable));
          shut = λ h. cc;
        })
]

-- Registrations may only go, and `done` channels may only be closed.
Sendable-close :
    (pending streams streams' : Map Text ℕ) (waiters : Map ℕ Waiter) (regs regs' : Map ℕ StreamReg)
    (d : Option Delivery)
    → ((id : Text) (g : ℕ) → get streams' id ≡ some g → get streams id ≡ some g)
    → ((k : ℕ) (id : Text) → IsLive id (get regs k) → IsLive id (get regs' k))
    → Sendable pending streams waiters regs d
    → Sendable pending streams' waiters regs' d
Sendable-close pending streams streams' waiters regs regs' none fewer keep s = tt
Sendable-close pending streams streams' waiters regs regs' (some (to_waiter ch r)) fewer keep s = s
Sendable-close pending streams streams' waiters regs regs' (some (to_stream g f)) fewer keep s =
    (s.0, keep g s.0 s.1, λ last id h. s.2 last id (fewer id g h))

fewer-delete :
    (m : Map Text ℕ) (id rid : Text) (g : ℕ) → get (delete m id) rid ≡ some g → get m rid ≡ some g
fewer-delete m id rid g h = ground (arith, get-delete m id rid)

pub cancel_stream-IsValid :
    (id : Text) (g : ℕ) (c : AgentConn) → IsValid c → IsValid (cancel_stream id g c).0
unfolding cancel_stream delete
cancel_stream-IsValid id g c v = elim (Bool-cases (points_to (get c.pending_stream id) g)) [
  | inl live ↦
      rw (live, cancel_stream)
        (record {
          distinct = v.distinct;
          waiting = v.waiting;
          streaming = λ rid k h.
              IsLive-close_reg c.regs g k rid
                (v.streaming rid k (fewer-delete c.pending_stream id rid k h));
          sending =
              Sendable-close c.pending c.pending_stream (delete c.pending_stream id) c.waiters
                c.regs (close_reg c.regs g) c.delivering (fewer-delete c.pending_stream id)
                (IsLive-close_reg c.regs g) v.sending;
          answered = v.answered;
          streamed = λ k. Streamed-close_reg c.regs g c.made k (v.streamed k);
          shut = λ h. ((v.shut h).0, ap (λ m. delete m id) (v.shut h).1);
        })
  | inr gone ↦
      rw (gone, cancel_stream)
        (record {
          distinct = v.distinct;
          waiting = v.waiting;
          streaming = λ rid k h. IsLive-close_reg c.regs g k rid (v.streaming rid k h);
          sending =
              Sendable-close c.pending c.pending_stream c.pending_stream c.waiters c.regs
                (close_reg c.regs g) c.delivering (λ rid k h. h) (IsLive-close_reg c.regs g)
                v.sending;
          answered = v.answered;
          streamed = λ k. Streamed-close_reg c.regs g c.made k (v.streamed k);
          shut = v.shut;
        })
]

-- The terminal frame of a result that is being delivered: the stream has lost its registration.
pub deliver_stream-IsValid :
    (r : AgentResult) (c : AgentConn) (g : ℕ)
    → get c.pending_stream r.request_id ≡ some g
    → IsValid c
    → IsValid (record c {
      pending_stream = delete c.pending_stream r.request_id;
      delivering = some (to_stream g (final_frame r));
    })
unfolding delete
deliver_stream-IsValid r c g hit v = record {
  distinct = v.distinct;
  waiting = v.waiting;
  streaming = λ id k h. v.streaming id k (fewer-delete c.pending_stream r.request_id id k h);
  sending = (
    r.request_id,
    v.streaming r.request_id g hit,
    λ last id h. ground (
      arith,
      get-delete c.pending_stream r.request_id id,
      v.streaming id g,
      v.streaming r.request_id g hit,
    ),
  );
  answered = v.answered;
  streamed = v.streamed;
  shut = λ h. ((v.shut h).0, ap (λ m. delete m r.request_id) (v.shut h).1);
}

pub deliver_progress_stream-IsValid :
    (p : AgentProgress) (c : AgentConn) (g : ℕ)
    → get c.pending_stream p.request_id ≡ some g
    → IsValid c
    → IsValid (record c { delivering = some (to_stream g (progress_frame p)) })
deliver_progress_stream-IsValid p c g hit v = record {
  distinct = v.distinct;
  waiting = v.waiting;
  streaming = v.streaming;
  sending = (p.request_id, v.streaming p.request_id g hit, λ last. cc);
  answered = v.answered;
  streamed = v.streamed;
  shut = v.shut;
}

pub dropped-IsValid : (c : AgentConn) → IsValid c → IsValid (record c { delivering = none })
dropped-IsValid c v = record {
  distinct = v.distinct;
  waiting = v.waiting;
  streaming = v.streaming;
  sending = tt;
  answered = v.answered;
  streamed = v.streamed;
  shut = v.shut;
}
