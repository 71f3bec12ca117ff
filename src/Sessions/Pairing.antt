-- ===== src/Sessions/Pairing.antt =====
-- pkg/controller/sessions.go: every interleaving of `expect`, `cancel` and `deliver` pairs sessions
-- rightly.
use hostlink.Prelude.{
  ℕ, ◌<◌, ◌≡◌, ◌≢◌, refl, true, false, Option, none, some, Text, nat_comparable, text_comparable,
  arith, inl, inr, Bool-cases, Option-cases,
}
use hostlink.Map.{get}
use hostlink.Map.Laws.{get-put, get-delete}
use hostlink.Sessions.{
  ForwardSession, WaiterChan, SessionTable, new_session_table, expect, cancel, points_to, deliver,
  finish, take,
}

-- A channel on which nothing was sent, made for the session id.
abbrev pub IsIdle : Text → Option WaiterChan → Type 0
IsIdle id none = ⊥
IsIdle id (some c) = (c.session_id ≡ id) × (c.sent ≡ none)

abbrev pub Matches : Text → Option ForwardSession → Type 0
Matches id none = Unit
Matches id (some s) = s.session_id ≡ id

abbrev pub Paired : ℕ → ℕ → Option WaiterChan → Type 0
Paired made ch none = Unit
Paired made ch (some c) = (ch < made) × Matches c.session_id c.sent

pub record IsValid (t : SessionTable) : Type 0 where
  pub waiting : (id : Text) (ch : ℕ) → get t.waiters id ≡ some ch → IsIdle id (get t.chans ch)
  pub sending :
      (ch : ℕ) (s : ForwardSession)
      → get t.flying ch ≡ some s
      → IsIdle s.session_id (get t.chans ch)
  pub apart :
      (ch : ℕ) (s : ForwardSession) (id : Text)
      → get t.flying ch ≡ some s
      → get t.waiters id ≢ some ch
  pub paired : (ch : ℕ) → Paired t.made ch (get t.chans ch)

-- One step of some goroutine.
pub data Step (t : SessionTable) : SessionTable → Type 0 where
  expects : (id : Text) → Step t (expect id t).0
  cancels : (id : Text) (ch : ℕ) → Step t (cancel id ch t)
  delivers : (s : ForwardSession) → Step t (deliver s t).0
  finishes : (ch : ℕ) (s : ForwardSession) → get t.flying ch ≡ some s → Step t (finish ch s t).0
  takes :
      (ch : ℕ) (c : WaiterChan) (s : ForwardSession)
      → get t.chans ch ≡ some c
      → c.sent ≡ some s
      → Step t (take ch c t)

pub data Reach (t : SessionTable) : SessionTable → Type 0 where
  start : Reach t t
  later : {u v : SessionTable} → Reach t u → Step u v → Reach t v

new_session_table-IsValid : IsValid new_session_table
unfolding new_session_table get
new_session_table-IsValid = record {
  waiting = λ id ch h. cc;
  sending = λ ch s h. cc;
  apart = λ ch s id h. cc;
  paired = λ ch. tt;
}

abbrev fresh : Text → WaiterChan
fresh id = record { session_id = id; sent = none; taken = false }

expect-IsValid : (id : Text) (t : SessionTable) → IsValid t → IsValid (expect id t).0
unfolding expect
expect-IsValid id t v = record {
  waiting = λ k ch h. ground (
    arith,
    get-put t.waiters id k t.made,
    get-put t.chans t.made ch (fresh id),
    v.waiting k ch,
    v.paired ch,
  );
  sending =
      λ ch s h. ground (arith, get-put t.chans t.made ch (fresh id), v.sending ch s h, v.paired ch);
  apart = λ ch s k h.
      ground
        (arith, get-put t.waiters id k t.made, v.apart ch s k h, v.sending ch s h, v.paired ch);
  paired = λ ch. ground (arith, get-put t.chans t.made ch (fresh id), v.paired ch);
}

cancel-IsValid : (id : Text) (ch : ℕ) (t : SessionTable) → IsValid t → IsValid (cancel id ch t)
unfolding cancel
cancel-IsValid id ch t v = elim (Bool-cases (points_to (get t.waiters id) ch)) [
  | inr other ↦ rw (other, cancel) v
  | inl own ↦
      rw (own, cancel)
        (record {
          waiting = λ k c h. ground (arith, get-delete t.waiters id k, v.waiting k c);
          sending = v.sending;
          apart = λ c s k h. ground (arith, get-delete t.waiters id k, v.apart c s k h);
          paired = v.paired;
        })
]

deliver-IsValid : (s : ForwardSession) (t : SessionTable) → IsValid t → IsValid (deliver s t).0
unfolding deliver
deliver-IsValid s t v = elim (Option-cases (get t.waiters s.session_id)) [
  | inl unknown ↦ rw (unknown, deliver) v
  | inr (ch, e) ↦
      rw (e, deliver)
        (record {
          waiting = λ k c h. ground (arith, get-delete t.waiters s.session_id k, v.waiting k c);
          sending = λ c q h.
              ground (arith, get-put t.flying ch c s, v.sending c q, v.waiting s.session_id ch e);
          apart = λ c q k h. ground (
            arith,
            get-put t.flying ch c s,
            get-delete t.waiters s.session_id k,
            v.apart c q k,
            v.waiting s.session_id ch e,
            v.waiting k c,
          );
          paired = v.paired;
        })
]

-- The send of a delivery is made: its channel is empty.
finish-sends :
    (ch : ℕ) (s : ForwardSession) (t : SessionTable)
    → IsValid t
    → get t.flying ch ≡ some s
    → ((finish ch s t).1 ≡ true) × IsValid (finish ch s t).0
unfolding finish
finish-sends ch s t v h = elim (Option-cases (get t.chans ch)) [
  | inl missing ↦ absurd (ground (arith, v.sending ch s h))
  | inr (c, e) ↦
      let idle : IsIdle s.session_id (some c) = ground (arith, v.sending ch s h) in
      let law = λ (k : ℕ). get-put t.chans ch k (record c { sent = some s; taken = false }) in
      rw (e, finish, idle.1)
        (
          refl,
          record {
            waiting = λ k d g. ground (arith, law d, v.waiting k d g, v.apart ch s k h);
            sending = λ d q g. ground (arith, law d, get-delete t.flying ch d, v.sending d q);
            apart = λ d q k g. ground (arith, get-delete t.flying ch d, v.apart d q k);
            paired = λ d. ground (arith, law d, v.paired d, v.paired ch, idle);
          },
        )
]

take-IsValid :
    (ch : ℕ) (c : WaiterChan) (s : ForwardSession) (t : SessionTable)
    → get t.chans ch ≡ some c
    → c.sent ≡ some s
    → IsValid t
    → IsValid (take ch c t)
unfolding take
take-IsValid ch c s t found full v =
    let law = λ (k : ℕ). get-put t.chans ch k (record c { taken = true }) in
    record {
      waiting = λ k d g. ground (arith, law d, v.waiting k d g);
      sending = λ d q g. ground (arith, law d, v.sending d q g);
      apart = v.apart;
      paired = λ d. ground (arith, law d, v.paired d, v.paired ch);
    }

Step-IsValid : {t u : SessionTable} → Step t u → IsValid t → IsValid u
Step-IsValid {t} (expects id) v = expect-IsValid id t v
Step-IsValid {t} (cancels id ch) v = cancel-IsValid id ch t v
Step-IsValid {t} (delivers s) v = deliver-IsValid s t v
Step-IsValid {t} (finishes ch s h) v = (finish-sends ch s t v h).1
Step-IsValid {t} (takes ch c s found full) v = take-IsValid ch c s t found full v

pub Reach-IsValid : {t u : SessionTable} → IsValid t → Reach t u → IsValid u
Reach-IsValid v start = v
Reach-IsValid v (later r s) = Step-IsValid s (Reach-IsValid v r)

-- In every state that the goroutines can reach: a delivery that found a waiter is made, so `deliver`
-- reports true for it; a channel only ever holds a session with the id that its consumer expected;
-- and once a session id has been delivered, a second stream for it is refused and changes nothing.
pub sessions_are_paired :
    {t : SessionTable}
    → Reach new_session_table t
    → ((ch : ℕ) (s : ForwardSession) → get t.flying ch ≡ some s → (finish ch s t).1 ≡ true)
      × ((ch : ℕ) (c : WaiterChan) (s : ForwardSession)
          → get t.chans ch ≡ some c
          → c.sent ≡ some s
          → s.session_id ≡ c.session_id)
      × ((s r : ForwardSession)
          → r.session_id ≡ s.session_id
          → deliver r (deliver s t).0 ≡ ((deliver s t).0, false))
unfolding deliver
sessions_are_paired {t} reach =
    let v = Reach-IsValid new_session_table-IsValid reach in
    (
      λ ch s h. (finish-sends ch s t v h).0,
      λ ch c s found full. ground (arith, v.paired ch),
      λ s r e. ground (arith, get-delete t.waiters s.session_id r.session_id),
    )
