-- ===== src/ForwardHandler/Phases.antt =====
-- pkg/controller/forward_handler.go: the order in which a connection is handled, and which
-- connections are handed to the splice.
use hostlink.Prelude.{
  ℕ, ◌+◌, ◌≡◌, ◌==◌, ◌&&◌, ◌||◌, not, if◌then◌else◌, ==_refl, Option, none, some, inl, inr, Bool,
  true, false, List, [], ◌∷◌, ◌++◌, Text, text_comparable, Result, ok, err, arith, Option-cases,
  Bool-cases, subst,
}
use hostlink.Ports.{PortMapping, PortError}
use hostlink.Tunnel.{reset}
use hostlink.ForwardHandler.{
  Action, reset_public, splice_public, expect_session, cancel_session, dial_peer, Paired, paired,
  send_open_forward, opened, LocalAnswers, after_pairing, handle_local, Dialled,
  agent_not_connected, RemoteAnswers, dial_result, attempt, handle_remote,
}

abbrev pub ends_connection : Action → ℕ
ends_connection reset_public = 1
ends_connection splice_public = 1
ends_connection _ = 0

abbrev pub splices : Action → ℕ
splices splice_public = 1
splices _ = 0

-- How far the handling of a connection has come: no session is expected, and a peer has been dialled
-- or not; a session is expected; the agent is told of the expected session.
pub data Phase : Type 0 where
  free : Bool → Phase
  expecting told : Text → Phase

-- The phase after an action, or nothing where the action is out of place. A session is expected while
-- none is; then the agent is told of that one, with the mapping's target; then that one is canceled.
-- A peer is dialled while no session is expected, at an address that is there and not this pod's, for
-- the mapping's agent and target. The splice comes after the agent is told, or after a dial.
abbrev pub follow : PortMapping → Text → Phase → Action → Option Phase
follow m self_addr (free b) (expect_session id) = some (expecting id)
follow m self_addr (free b) (cancel_session id) = none
follow m self_addr (free b) (send_open_forward id target) = none
follow m self_addr (free b) (dial_peer addr agent target id) =
    if not (addr == []) && (not (addr == self_addr) && (agent == m.agent_id && target == m.target))
    then some (free true)
    else none
follow m self_addr (free b) splice_public = if b then some (free b) else none
follow m self_addr (free b) _ = some (free b)
follow m self_addr (expecting open_id) (send_open_forward id target) =
    if open_id == id && target == m.target then some (told open_id) else none
follow m self_addr (expecting open_id) _ = none
follow m self_addr (told open_id) (expect_session id) = none
follow m self_addr (told open_id) (cancel_session id) =
    if open_id == id then some (free false) else none
follow m self_addr (told open_id) (send_open_forward id target) = none
follow m self_addr (told open_id) (dial_peer addr agent target id) = none
follow m self_addr (told open_id) _ = some (told open_id)

-- Every action is in its place, and no session is left expected.
unfoldable pub follows : PortMapping → Text → Phase → List Action → Bool
follows m self_addr (free b) [] = true
follows m self_addr (expecting id) [] = false
follows m self_addr (told id) [] = false
follows m self_addr phase (a ∷ actions) = elim (follow m self_addr phase a) [
  | none ↦ false
  | some after ↦ follows m self_addr after actions
]

-- Whether the stream that the agent opens is paired and has not reset.
abbrev pub is_paired : Paired → Bool
is_paired (paired reset) = false
is_paired (paired _) = true
is_paired _ = false

abbrev pub local_serves : LocalAnswers → Bool
local_serves l = elim l.session_id [ none ↦ false | some id ↦ l.sent && is_paired l.pairing ]

-- Whether a round of the remote path comes to a dial: another pod is known, and a session id is made.
abbrev pub comes_to_dial : Text → RemoteAnswers → Bool
comes_to_dial self_addr a = elim a.holder [
  | err e ↦ false
  | ok addr ↦
      not (addr == [])
      && (not (addr == self_addr) && (elim a.session_id [ none ↦ false | some id ↦ true ]))
]

abbrev pub is_opened : Dialled → Bool
is_opened opened = true
is_opened _ = false

abbrev pub is_stale : Dialled → Bool
is_stale agent_not_connected = true
is_stale _ = false

abbrev pub remote_serves : Text → RemoteAnswers → RemoteAnswers → Bool
remote_serves self_addr a b =
    comes_to_dial self_addr a
    && (is_opened a.dialled
        || (is_stale a.dialled && (comes_to_dial self_addr b && is_opened b.dialled)))

unfoldable pub count : (Action → ℕ) → List Action → ℕ
count f [] = 0
count f (x ∷ xs) = f x + count f xs

-- A path's actions after a dial or none: one end of the connection, a splice where it is served, and
-- every action in place.
abbrev pub Handled : Bool → PortMapping → Text → Bool → List Action → Type 0
Handled has_dialled m self_addr served actions =
    (count ends_connection actions ≡ 1)
    × (count splices actions ≡ (if served then 1 else 0))
    × (follows m self_addr (free has_dialled) actions ≡ true)

after_pairing-Handled :
    (m : PortMapping) (self_addr : Text) (p : Paired) (spliced : Bool) (id : Text)
    → (count ends_connection (after_pairing p spliced ++ cancel_session id ∷ []) ≡ 1)
      × (count splices (after_pairing p spliced ++ cancel_session id ∷ [])
          ≡ (if is_paired p then 1 else 0))
      × (follows m self_addr (told id) (after_pairing p spliced ++ cancel_session id ∷ []) ≡ true)
unfolding after_pairing count follows
after_pairing-Handled m self_addr p spliced id = ground (arith, ==_refl id)

pub handle_local-Handled :
    (m : PortMapping) (self_addr : Text) (l : LocalAnswers)
    → Handled false m self_addr (local_serves l) (handle_local m l)
unfolding handle_local count follows
handle_local-Handled m self_addr l = elim (Option-cases l.session_id) [
  | inl e ↦ ground arith
  | inr (id, e) ↦ ground (
    arith,
    ==_refl id,
    ==_refl m.target,
    after_pairing-Handled m self_addr l.pairing l.spliced id,
  )
]

dial_result-Handled :
    (m : PortMapping) (self_addr : Text) (is_first again : Bool) (retry : List Action)
    (dialled : Dialled) (spliced : Bool)
    → (is_first ≡ true → Handled true m self_addr again retry)
    → Handled true m self_addr
        (is_opened dialled || (is_first && (is_stale dialled && again)))
        (dial_result is_first retry dialled spliced)
unfolding dial_result count follows
dial_result-Handled m self_addr is_first again retry dialled spliced h = ground arith

round-Handled :
    (has_dialled : Bool) (m : PortMapping) (self_addr : Text) (is_first again : Bool)
    (retry : List Action) (holder : Result PortError Text) (session_id : Option Text)
    (dialled : Dialled) (spliced : Bool)
    → (is_first ≡ true → Handled true m self_addr again retry)
    → let a : RemoteAnswers = record {
      holder = holder;
      session_id = session_id;
      dialled = dialled;
      spliced = spliced;
    } in
      Handled has_dialled m self_addr
        (comes_to_dial self_addr a
          && (is_opened dialled || (is_first && (is_stale dialled && again))))
        (attempt is_first retry self_addr m a)
unfolding attempt count follows
round-Handled b m self_addr is_first again retry (err e) session_id dialled spliced h = ground arith
round-Handled b m self_addr is_first again retry (ok []) session_id dialled spliced h = ground arith
round-Handled b m self_addr is_first again retry (ok (c ∷ addr)) none dialled spliced h =
    elim (Bool-cases ((c ∷ addr) == self_addr)) [
      | inl e ↦ rw e (ground arith)
      | inr e ↦ rw e (ground arith)
    ]
round-Handled b m self_addr is_first again retry (ok (c ∷ addr)) (some id) dialled spliced h =
    elim (Bool-cases ((c ∷ addr) == self_addr)) [
      | inl e ↦ rw e (ground arith)
      | inr e ↦ rw e (
          ground (
            arith,
            ==_refl m.agent_id,
            ==_refl m.target,
            dial_result-Handled m self_addr is_first again retry dialled spliced h,
          ))
    ]

attempt-Handled :
    (has_dialled : Bool) (m : PortMapping) (self_addr : Text) (is_first again : Bool)
    (retry : List Action) (a : RemoteAnswers)
    → (is_first ≡ true → Handled true m self_addr again retry)
    → Handled has_dialled m self_addr
        (comes_to_dial self_addr a
          && (is_opened a.dialled || (is_first && (is_stale a.dialled && again))))
        (attempt is_first retry self_addr m a)
attempt-Handled has_dialled m self_addr is_first again retry a h =
    round-Handled has_dialled m self_addr is_first again retry a.holder a.session_id a.dialled
      a.spliced h

without_retry : (dials opens : Bool) → (dials && (opens || false)) ≡ (dials && opens)
without_retry dials opens = ground arith

pub handle_remote-Handled :
    (has_peers : Bool) (self_addr : Text) (m : PortMapping) (a b : RemoteAnswers)
    → Handled false m self_addr
        (has_peers && remote_serves self_addr a b)
        (handle_remote has_peers self_addr m a b)
unfolding handle_remote count follows
handle_remote-Handled false self_addr m a b = ground arith
handle_remote-Handled true self_addr m a b =
    let last = attempt-Handled true m self_addr false false [] b (λ h. absurd (cc)) in
    attempt-Handled false m self_addr true (comes_to_dial self_addr b && is_opened b.dialled)
      (attempt false [] self_addr m b) a
      (λ h.
        subst (λ v. Handled true m self_addr v (attempt false [] self_addr m b))
          (without_retry (comes_to_dial self_addr b) (is_opened b.dialled)) last)
