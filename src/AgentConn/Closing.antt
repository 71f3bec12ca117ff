-- ===== src/AgentConn/Closing.antt =====
-- pkg/controller/registry.go, `agentConn.closeAll`: it closes every channel that is waited on.
use hostlink.Prelude.{
  ℕ, ◌≡◌, ◌≢◌, refl, true, Option, none, some, [], ◌∷◌, Text, nat_comparable, text_comparable,
  arith, inl, inr, Option-cases,
}
use hostlink.Map.{Map, get, put}
use hostlink.Map.Laws.{get-put, Distinct}
use hostlink.AgentConn.{
  AgentConn, StreamReg, Waiter, Delivery, to_waiter, to_stream, does, close_waiters, close_regs,
  close_reg, close_all,
}
use hostlink.AgentConn.Invariant.{IsValid, IsIdle, IsLive, Sendable, Answered}
use hostlink.AgentConn.Streams.{IsLive-close_reg, IsLive-close_regs, Streamed-close_regs}

-- A waiter whose channel is closed with nothing on it: its dispatcher reads the closed channel.
abbrev pub IsShut : Option Waiter → Type 0
IsShut none = ⊥
IsShut (some w) = (w.buffer ≡ none) × (w.closed ≡ true)

pub record Closed (m : Map Text ℕ) (waiters waiters' : Map ℕ Waiter) : Type 0 where
  pub kept : (k : ℕ) → ((id : Text) → get m id ≢ some k) → get waiters' k ≡ get waiters k
  pub shut : (id : Text) (k : ℕ) → get m id ≡ some k → IsShut (get waiters' k)
  pub same : (made k : ℕ) → Answered made k (get waiters k) → Answered made k (get waiters' k)

-- The loop finds every channel open, so it does not panic, and closes exactly those of the map.
pub close_waiters-Closed :
    (m : Map Text ℕ) (waiters : Map ℕ Waiter)
    → Distinct m
    → ((id : Text) (k : ℕ) → get m id ≡ some k → IsIdle id (get waiters k))
    → (waiters' : Map ℕ Waiter) × (close_waiters m waiters ≡ some waiters')
      × Closed m waiters waiters'
unfolding close_waiters get
close_waiters-Closed [] waiters d idle =
    (waiters, refl, record { kept = λ k h. refl; shut = λ id k h. cc; same = λ made k a. a })
close_waiters-Closed ((id, ch) ∷ m) waiters d idle = elim (Option-cases (get waiters ch)) [
  | inl missing ↦ absurd (ground (arith, idle id ch))
  | inr (w, found) ↦
      let first : IsIdle id (get waiters ch) = ground (arith, idle id ch) in
      let law = λ (k : ℕ). get-put waiters ch k (record w { closed = true }) in
      let (waiters', e, c) =
        close_waiters-Closed m (put waiters ch (record w { closed = true })) d.1
          (λ rid k h. ground (arith, law k, idle rid k, first)) in
      (
        waiters',
        ground (arith, first),
        record {
          kept = λ k h. ground (arith, c.kept k (λ rid hit. ground (arith, h rid)), law k, h id);
          shut = λ rid k hit. ground (
            arith,
            c.shut rid k,
            c.kept ch (λ other here. ground (arith, idle other ch, first)),
            law ch,
            first,
          );
          same = λ made k a. c.same made k (ground (arith, law k));
        },
      )
]

Sendable-close_all :
    (pending streams : Map Text ℕ) (waiters waiters' : Map ℕ Waiter) (regs regs' : Map ℕ StreamReg)
    (d : Option Delivery)
    → Closed pending waiters waiters'
    → ((k : ℕ) (id : Text) → IsLive id (get regs k) → IsLive id (get regs' k))
    → Sendable pending streams waiters regs d
    → Sendable [] [] waiters' regs' d
unfolding get
Sendable-close_all pending streams waiters waiters' regs regs' none c keep s = tt
Sendable-close_all pending streams waiters waiters' regs regs' (some (to_waiter ch r)) c keep s =
    (ground (arith, c.kept ch s.1, s.0), λ id h. cc)
Sendable-close_all pending streams waiters waiters' regs regs' (some (to_stream g f)) c keep s =
    (s.0, keep g s.0 s.1, λ last id h. cc)

pub close_all-IsValid :
    (c : AgentConn)
    → IsValid c
    → (waiters' : Map ℕ Waiter) × Closed c.pending c.waiters waiters'
      × (close_all c
          ≡ does (record c {
            closed = true;
            pending = [];
            waiters = waiters';
            regs = close_regs c.pending_stream c.regs;
            pending_stream = [];
          }))
      × IsValid (record c {
        closed = true;
        pending = [];
        waiters = waiters';
        regs = close_regs c.pending_stream c.regs;
        pending_stream = [];
      })
unfolding close_all get
close_all-IsValid c v =
    let (waiters', e, done) = close_waiters-Closed c.pending c.waiters v.distinct v.waiting in
    (
      waiters',
      done,
      rw (e, close_all) refl,
      record {
        distinct = tt;
        waiting = λ id k h. cc;
        streaming = λ id k h. cc;
        sending =
            Sendable-close_all c.pending c.pending_stream c.waiters waiters' c.regs
              (close_regs c.pending_stream c.regs) c.delivering done
              (IsLive-close_regs c.pending_stream c.regs) v.sending;
        answered = λ k. done.same c.made k (v.answered k);
        streamed = λ k. Streamed-close_regs c.pending_stream c.regs c.made k (v.streamed k);
        shut = λ h. (refl, refl);
      },
    )

abbrev pub IsDone : Option StreamReg → Type 0
IsDone none = ⊥
IsDone (some reg) = reg.done ≡ true

IsDone-close_reg :
    (regs : Map ℕ StreamReg) (g k : ℕ) → IsDone (get regs k) → IsDone (get (close_reg regs g) k)
IsDone-close_reg regs g k d = elim (Option-cases (get regs g)) [
  | inl e ↦ rw (e, close_reg) d
  | inr (reg, e) ↦ rw (e, close_reg) (ground (arith, get-put regs g k (record reg { done = true })))
]

IsDone-close_reg_self :
    (regs : Map ℕ StreamReg) (g : ℕ) (id : Text)
    → IsLive id (get regs g)
    → IsDone (get (close_reg regs g) g)
IsDone-close_reg_self regs g id l = elim (Option-cases (get regs g)) [
  | inl e ↦ absurd (ground arith)
  | inr (reg, e) ↦ rw (e, close_reg) (ground (arith, get-put regs g g (record reg { done = true })))
]

IsDone-close_regs :
    (m : Map Text ℕ) (regs : Map ℕ StreamReg) (k : ℕ)
    → IsDone (get regs k)
    → IsDone (get (close_regs m regs) k)
unfolding close_regs
IsDone-close_regs [] regs k d = d
IsDone-close_regs ((id, g) ∷ m) regs k d =
    IsDone-close_regs m (close_reg regs g) k (IsDone-close_reg regs g k d)

-- Every registered stream that exists is told that it has ended.
pub close_regs-IsDone :
    (m : Map Text ℕ) (regs : Map ℕ StreamReg) (id : Text) (g : ℕ)
    → get m id ≡ some g
    → IsLive id (get regs g)
    → IsDone (get (close_regs m regs) g)
unfolding close_regs get
close_regs-IsDone [] regs id g hit l = cc
close_regs-IsDone ((rid, h) ∷ m) regs id g hit l = ground (
  arith,
  IsDone-close_reg_self regs g id l,
  IsDone-close_regs m (close_reg regs h) g,
  close_regs-IsDone m (close_reg regs h) id g,
  IsLive-close_reg regs h g id l,
)
