-- ===== src/AgentConn/Frames.antt =====
-- pkg/controller/registry.go, `agentConn`: frames put on a stream and read from it.
use hostlink.Prelude.{
  ℕ, suc, ◌<◌, ◌≡◌, true, Option, none, some, [], ◌∷◌, ◌++◌, length, length-append, Text,
  nat_comparable, text_comparable, arith, inl, inr, Bool-cases, subst,
}
use hostlink.Map.{Map, get, put}
use hostlink.Map.Laws.{get-put}
use hostlink.AgentConn.{
  AgentConn, StreamFrame, StreamReg, Waiter, Delivery, to_waiter, to_stream, has_room,
}
use hostlink.AgentConn.Invariant.{IsValid, IsLive, Sendable}
use hostlink.AgentConn.Streams.{IsOpen-snoc, IsEnded-snoc}

abbrev with_frame : StreamReg → StreamFrame → StreamReg
with_frame reg f = record reg { sent = reg.sent ++ f ∷ [] }

-- A frame that is sent: there was room, and no terminal frame had been sent before.
pub send_to_stream-IsValid :
    (c : AgentConn) (g : ℕ) (f : StreamFrame) (reg : StreamReg)
    → c.delivering ≡ some (to_stream g f)
    → get c.regs g ≡ some reg
    → has_room reg ≡ true
    → IsValid c
    → IsValid (record c { regs = put c.regs g (with_frame reg f); delivering = none })
send_to_stream-IsValid c g f reg e found room v =
    let target : Sendable c.pending c.pending_stream c.waiters c.regs (some (to_stream g f)) =
      subst (Sendable c.pending c.pending_stream c.waiters c.regs) e v.sending in
    let open_before : IsLive target.0 (some reg) = subst (IsLive target.0) found target.1 in
    record {
      distinct = v.distinct;
      waiting = v.waiting;
      streaming = λ id k h. elim (Bool-cases f.final) [
        | inl last ↦
            ground
              (arith, get-put c.regs g k (with_frame reg f), v.streaming id k h, target.2 last id)
        | inr more ↦ ground (
          arith,
          get-put c.regs g k (with_frame reg f),
          v.streaming id k h,
          IsOpen-snoc reg.sent f open_before.1 more,
        )
      ];
      sending = tt;
      answered = v.answered;
      streamed = λ k. ground (
        arith,
        get-put c.regs g k (with_frame reg f),
        v.streamed k,
        v.streamed g,
        IsEnded-snoc reg.sent f open_before.1,
        length-append reg.sent (f ∷ []),
      );
      shut = v.shut;
    }

Sendable-read :
    (pending streams : Map Text ℕ) (waiters : Map ℕ Waiter) (regs : Map ℕ StreamReg) (g : ℕ)
    (reg : StreamReg) (d : Option Delivery)
    → get regs g ≡ some reg
    → Sendable pending streams waiters regs d
    → Sendable pending streams waiters (put regs g (record reg { taken = suc reg.taken })) d
Sendable-read pending streams waiters regs g reg none found s = tt
Sendable-read pending streams waiters regs g reg (some (to_waiter ch r)) found s = s
Sendable-read pending streams waiters regs g reg (some (to_stream k f)) found s =
    (s.0, ground (arith, get-put regs g k (record reg { taken = suc reg.taken }), s.1), s.2)

pub read-IsValid :
    (c : AgentConn) (g : ℕ) (reg : StreamReg)
    → get c.regs g ≡ some reg
    → reg.taken < length reg.sent
    → IsValid c
    → IsValid (record c { regs = put c.regs g (record reg { taken = suc reg.taken }) })
read-IsValid c g reg found more v =
    let law = λ (k : ℕ). get-put c.regs g k (record reg { taken = suc reg.taken }) in
    record {
      distinct = v.distinct;
      waiting = v.waiting;
      streaming = λ id k h. ground (arith, law k, v.streaming id k h);
      sending =
          Sendable-read c.pending c.pending_stream c.waiters c.regs g reg c.delivering found
            v.sending;
      answered = v.answered;
      streamed = λ k. ground (arith, law k, v.streamed k, v.streamed g);
      shut = v.shut;
    }
