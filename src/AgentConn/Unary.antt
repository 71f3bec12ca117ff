-- ===== src/AgentConn/Unary.antt =====
-- pkg/controller/registry.go, `agentConn`: the unary operations keep the invariant.
use hostlink.Prelude.{
  ℕ, ◌≡◌, false, Option, none, some, Text, nat_comparable, text_comparable, arith, inl, inr,
  Bool-cases, ap, subst,
}
use hostlink.Map.{Map, get, put, delete}
use hostlink.Map.Laws.{get-put, get-delete, put-Distinct, delete-Distinct}
use hostlink.AgentConn.{
  AgentConn, AgentResult, StreamReg, Waiter, Delivery, to_waiter, to_stream, open_unary, forget,
  next_id,
}
use hostlink.AgentConn.Invariant.{IsValid, Sendable, Answered}

-- A new waiter, under a number that no channel has yet, is not the target of the send under way.
Sendable-put :
    (pending streams : Map Text ℕ) (waiters : Map ℕ Waiter) (regs : Map ℕ StreamReg) (made : ℕ)
    (id : Text) (w : Waiter) (d : Option Delivery)
    → ((ch : ℕ) → Answered made ch (get waiters ch))
    → Sendable pending streams waiters regs d
    → Sendable (put pending id made) streams (put waiters made w) regs d
Sendable-put pending streams waiters regs made id w none a s = tt
Sendable-put pending streams waiters regs made id w (some (to_waiter ch r)) a s = (
  ground (arith, get-put waiters made ch w, a ch),
  λ rid. ground (arith, get-put pending id rid made, s.1 rid, a ch),
)
Sendable-put pending streams waiters regs made id w (some (to_stream g f)) a s = s

Sendable-delete :
    (pending streams : Map Text ℕ) (waiters : Map ℕ Waiter) (regs : Map ℕ StreamReg) (id : Text)
    (d : Option Delivery)
    → Sendable pending streams waiters regs d
    → Sendable (delete pending id) streams waiters regs d
Sendable-delete pending streams waiters regs id none s = tt
Sendable-delete pending streams waiters regs id (some (to_waiter ch r)) s =
    (s.0, λ rid. ground (arith, get-delete pending id rid, s.1 rid))
Sendable-delete pending streams waiters regs id (some (to_stream g f)) s = s

abbrev new_waiter : AgentConn → Waiter
new_waiter c = record { request_id = next_id c; buffer = none; closed = false }

pub open_unary-IsValid : (c : AgentConn) → IsValid c → IsValid (open_unary c).0
unfolding open_unary
open_unary-IsValid c v = elim (Bool-cases c.closed) [
  | inl shut ↦
      rw (shut, open_unary)
        (record {
          distinct = v.distinct;
          waiting = v.waiting;
          streaming = v.streaming;
          sending = v.sending;
          answered = v.answered;
          streamed = v.streamed;
          shut = λ h. v.shut shut;
        })
  | inr live ↦
      rw (live, open_unary)
        (record {
          distinct = put-Distinct c.pending (next_id c) c.made v.distinct;
          waiting = λ id ch h. ground (
            arith,
            get-put c.pending (next_id c) id c.made,
            get-put c.waiters c.made ch (new_waiter c),
            v.waiting id ch,
            v.answered ch,
          );
          streaming = v.streaming;
          sending =
              Sendable-put c.pending c.pending_stream c.waiters c.regs c.made (next_id c)
                (new_waiter c) c.delivering v.answered v.sending;
          answered =
              λ ch. ground (arith, v.answered ch, get-put c.waiters c.made ch (new_waiter c));
          streamed = λ g. ground (arith, v.streamed g);
          shut = λ h. cc;
        })
]

pub forget-IsValid : (id : Text) (c : AgentConn) → IsValid c → IsValid (forget id c)
unfolding forget delete
forget-IsValid id c v = record {
  distinct = delete-Distinct c.pending id v.distinct;
  waiting = λ rid ch h. ground (arith, get-delete c.pending id rid, v.waiting rid ch);
  streaming = v.streaming;
  sending = Sendable-delete c.pending c.pending_stream c.waiters c.regs id c.delivering v.sending;
  answered = v.answered;
  streamed = v.streamed;
  shut = λ h. (ap (λ m. delete m id) (v.shut h).0, (v.shut h).1);
}

-- A waiter's registration and its channel determine one another.
waiting-injective :
    (c : AgentConn) (a b : Text) (ch : ℕ)
    → IsValid c
    → get c.pending a ≡ some ch
    → get c.pending b ≡ some ch
    → a ≡ b
waiting-injective c a b ch v p q = ground (arith, v.waiting a ch p, v.waiting b ch q)

-- The registered waiter of a result that is being delivered.
pub deliver_unary-IsValid :
    (r : AgentResult) (c : AgentConn) (ch : ℕ)
    → get c.pending r.request_id ≡ some ch
    → IsValid c
    → IsValid
        (record c { pending = delete c.pending r.request_id; delivering = some (to_waiter ch r) })
unfolding delete
deliver_unary-IsValid r c ch hit v = record {
  distinct = delete-Distinct c.pending r.request_id v.distinct;
  waiting = λ rid k h. ground (arith, get-delete c.pending r.request_id rid, v.waiting rid k);
  streaming = v.streaming;
  sending = (
    v.waiting r.request_id ch hit,
    λ rid h.
        ground
          (arith, get-delete c.pending r.request_id rid, waiting-injective c rid r.request_id ch v),
  );
  answered = v.answered;
  streamed = v.streamed;
  shut = λ h. (ap (λ m. delete m r.request_id) (v.shut h).0, (v.shut h).1);
}

-- The send to a waiter: its channel is open and empty, so the send is made, and at once.
pub send_to_waiter-IsValid :
    (c : AgentConn) (ch : ℕ) (r : AgentResult) (w : Waiter)
    → c.delivering ≡ some (to_waiter ch r)
    → get c.waiters ch ≡ some w
    → IsValid c
    → IsValid
        (record c { waiters = put c.waiters ch (record w { buffer = some r }); delivering = none })
send_to_waiter-IsValid c ch r w e found v =
    let target : Sendable c.pending c.pending_stream c.waiters c.regs (some (to_waiter ch r)) =
      subst (Sendable c.pending c.pending_stream c.waiters c.regs) e v.sending in
    record {
      distinct = v.distinct;
      waiting = λ rid k h. ground (
        arith,
        get-put c.waiters ch k (record w { buffer = some r }),
        v.waiting rid k h,
        target.1 rid,
      );
      streaming = v.streaming;
      sending = tt;
      answered = λ k. ground (
        arith,
        get-put c.waiters ch k (record w { buffer = some r }),
        v.answered k,
        v.answered ch,
        target.0,
      );
      streamed = v.streamed;
      shut = v.shut;
    }

-- A waiter that holds a result is not the target of the send under way.
Sendable-wake :
    (pending streams : Map Text ℕ) (waiters : Map ℕ Waiter) (regs : Map ℕ StreamReg) (ch : ℕ)
    (w : Waiter) (r : AgentResult) (d : Option Delivery)
    → get waiters ch ≡ some w
    → w.buffer ≡ some r
    → Sendable pending streams waiters regs d
    → Sendable pending streams (put waiters ch (record w { buffer = none })) regs d
Sendable-wake pending streams waiters regs ch w r none found full s = tt
Sendable-wake pending streams waiters regs ch w r (some (to_waiter k q)) found full s =
    (ground (arith, get-put waiters ch k (record w { buffer = none }), s.0), s.1)
Sendable-wake pending streams waiters regs ch w r (some (to_stream g f)) found full s = s

pub wake-IsValid :
    (c : AgentConn) (ch : ℕ) (w : Waiter) (r : AgentResult)
    → get c.waiters ch ≡ some w
    → w.buffer ≡ some r
    → IsValid c
    → IsValid (record c { waiters = put c.waiters ch (record w { buffer = none }) })
wake-IsValid c ch w r found full v = record {
  distinct = v.distinct;
  waiting = λ rid k h.
      ground (arith, get-put c.waiters ch k (record w { buffer = none }), v.waiting rid k h);
  streaming = v.streaming;
  sending =
      Sendable-wake c.pending c.pending_stream c.waiters c.regs ch w r c.delivering found full
        v.sending;
  answered = λ k.
      ground
        (arith, get-put c.waiters ch k (record w { buffer = none }), v.answered k, v.answered ch);
  streamed = v.streamed;
  shut = v.shut;
}
