-- ===== src/ForwardHandler/Disposal.antt =====
-- pkg/controller/forward_handler.go: every accepted connection is disposed of once, and a stale
-- holder is retried once.
use hostlink.Prelude.{
  ℕ, suc, ◌≤◌, ◌≡◌, ◌&&◌, not, if◌then◌else◌, inl, inr, Bool, true, false, List, [], ◌∷◌, Text,
  text_comparable, Result, ok, err, arith, Bool-cases, ◌<◌,
}
use hostlink.Ports.{PortMapping, PortError, port_not_found}
use hostlink.ForwardHandler.{
  Action, expect_session, cancel_session, dial_peer, send_open_forward, LocalAnswers, after_pairing,
  handle_local, Dialled, agent_not_connected, RemoteAnswers, dial_result, attempt, handle_remote,
  handle_conn,
}
use hostlink.ForwardHandler.Phases.{
  ends_connection, splices, free, follows, local_serves, remote_serves, count, handle_local-Handled,
  handle_remote-Handled,
}
use hostlink.ForwardHandler.SessionIds.{
  sessions_in, made_sessions, sessions_in-handle_local, sessions_in-handle_remote,
  no_peers-sessions_in,
}

abbrev pub dials : Action → ℕ
dials (dial_peer _ _ _ _) = 1
dials _ = 0

-- No session, no agent and no peer has a part.
unfoldable pub all_ends : List Action → Bool
all_ends [] = true
all_ends (expect_session _ ∷ actions) = false
all_ends (cancel_session _ ∷ actions) = false
all_ends (send_open_forward _ _ ∷ actions) = false
all_ends (dial_peer _ _ _ _ ∷ actions) = false
all_ends (_ ∷ actions) = all_ends actions

-- Without a mapping that is in use, nothing is expected, told or dialled.
unfoldable pub keeps_order : Result PortError PortMapping → Text → List Action → Bool
unfolding follows
keeps_order (err e) self_addr actions = all_ends actions
keeps_order (ok m) self_addr actions =
    if m.suspended then all_ends actions else follows m self_addr (free false) actions

-- Whether the answers let a connection through to the target.
abbrev pub is_served :
    Bool
    → Text
    → Result PortError PortMapping
    → Bool
    → LocalAnswers
    → RemoteAnswers
    → RemoteAnswers
    → Bool
is_served has_peers self_addr (err e) here l a b = false
is_served has_peers self_addr (ok m) here l a b =
    not m.suspended && (if here then local_serves l else has_peers && remote_serves self_addr a b)

handle_local-dials : (m : PortMapping) (l : LocalAnswers) → count dials (handle_local m l) ≡ 0
unfolding handle_local after_pairing count
handle_local-dials m l = ground arith

dial_result-dials :
    (is_first : Bool) (retry : List Action) (dialled : Dialled) (spliced : Bool) (n : ℕ)
    → (is_first ≡ true → count dials retry ≤ n)
    → count dials (dial_result is_first retry dialled spliced) ≤ n
unfolding dial_result count
dial_result-dials is_first retry dialled spliced n h = ground arith

attempt-dials :
    (is_first : Bool) (retry : List Action) (self_addr : Text) (m : PortMapping) (a : RemoteAnswers)
    (n : ℕ)
    → (is_first ≡ true → count dials retry ≤ n)
    → count dials (attempt is_first retry self_addr m a) ≤ suc n
unfolding attempt count
attempt-dials is_first retry self_addr m a n h =
    ground (arith, dial_result-dials is_first retry a.dialled a.spliced n h)

handle_remote-dials :
    (has_peers : Bool) (self_addr : Text) (m : PortMapping) (a b : RemoteAnswers)
    → count dials (handle_remote has_peers self_addr m a b) ≤ 2
unfolding handle_remote count
handle_remote-dials false self_addr m a b = ground arith
handle_remote-dials true self_addr m a b =
    attempt-dials true (attempt false [] self_addr m b) self_addr m a 1
      (λ h. attempt-dials false [] self_addr m b 0 (λ k. absurd (cc)))

dial_result_again :
    (retry : List Action) (dialled : Dialled) (spliced : Bool)
    → 0 < count dials (dial_result true retry dialled spliced)
    → dialled ≡ agent_not_connected
unfolding dial_result count
dial_result_again retry dialled spliced h = ground arith

attempt_again :
    (retry : List Action) (self_addr : Text) (mapping : PortMapping) (a : RemoteAnswers)
    → 1 < count dials (attempt true retry self_addr mapping a)
    → a.dialled ≡ agent_not_connected
unfolding attempt count
attempt_again retry self_addr mapping a h =
    ground (arith, dial_result_again retry a.dialled a.spliced)

handle_remote_again :
    (has_peers : Bool) (self_addr : Text) (mapping : PortMapping) (a b : RemoteAnswers)
    → 1 < count dials (handle_remote has_peers self_addr mapping a b)
    → a.dialled ≡ agent_not_connected
unfolding handle_remote count
handle_remote_again false self_addr mapping a b h = ground arith
handle_remote_again true self_addr mapping a b h =
    attempt_again (attempt false [] self_addr mapping b) self_addr mapping a h

-- Whatever the store, the agent and the peers answer, the public connection is reset or handed to the
-- splice, and that once; it is handed to the splice exactly where the port has a mapping that is in use
-- and the agent's stream is paired and has not reset, or a pod is reached that has the agent. With an
-- agent at this pod a session is expected under the id that is made for it; the agent is told of that
-- session, with the mapping's target, before a splice, and the session is canceled in the end. A peer
-- is dialled for the mapping's agent and target at another pod's address, each time with the id made
-- for that, twice at most, and a second time only where the first one's holder did not have the agent.
-- Without a mapping in use there are no sessions, no commands and no dials.
pub handle_conn_lem :
    (has_peers : Bool) (self_addr : Text) (looked_up : Result PortError PortMapping) (here : Bool)
    (l : LocalAnswers) (a b : RemoteAnswers)
    → let actions = handle_conn has_peers self_addr looked_up here l a b in
      (count ends_connection actions ≡ 1)
      × (count splices actions
          ≡ (if is_served has_peers self_addr looked_up here l a b then 1 else 0))
      × (keeps_order looked_up self_addr actions ≡ true)
      × (sessions_in actions ≡ made_sessions has_peers self_addr looked_up here l a b)
      × (count dials actions ≤ 2)
      × (1 < count dials actions → a.dialled ≡ agent_not_connected)
unfolding handle_conn count keeps_order all_ends sessions_in
handle_conn_lem has_peers self_addr (err port_not_found) here l a b = ground arith
handle_conn_lem has_peers self_addr (err e) here l a b = ground arith
handle_conn_lem has_peers self_addr (ok m) here l a b = elim (Bool-cases m.suspended) [
  | inl e ↦ ground (arith, e)
  | inr e ↦ ground (
    arith,
    e,
    handle_local-Handled m self_addr l,
    handle_local-dials m l,
    sessions_in-handle_local m l,
    sessions_in-handle_remote self_addr m a b,
    no_peers-sessions_in self_addr m a b,
    handle_remote-Handled has_peers self_addr m a b,
    handle_remote-dials has_peers self_addr m a b,
    handle_remote_again has_peers self_addr m a b,
  )
]
