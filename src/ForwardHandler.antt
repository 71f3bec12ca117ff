-- ===== src/ForwardHandler.antt =====
-- pkg/controller/forward_handler.go: what becomes of one accepted public connection. The answers of
-- the store, the registry, the agent and the peers are arguments, in the order in which the code asks
-- for them; the result is the sequence of what the handler does, its logs aside.
pub mod Phases
pub mod SessionIds
pub mod Disposal
use hostlink.Prelude.{
  ℕ, suc, ◌+◌, ◌≤◌, ◌≡◌, ◌⊎◌, inl, inr, refl, Bool, true, false, Option, none, some, List, [], ◌∷◌,
  ◌++◌, if◌then◌else◌, ◌==◌, Text, text_comparable, Result, ok, err, arith,
}
use hostlink.Ports.{PortMapping, PortError, port_not_found}
use hostlink.Tunnel.{FrameType, reset}

-- The labels of `recordForwardFailure` that this file uses.
pub data ForwardFailure : Type 0 where
  port_not_mapped lookup_failed port_suspended session_id_failed : ForwardFailure
  send_command_failed agent_reject splice_failed pair_timeout : ForwardFailure
  cross_pod_disabled locate_failed holder_unavailable holder_self remote_open_failed :
      ForwardFailure

-- What the handler does: the public connection is reset, or handed to the splice, which owns it from
-- then on; an agent is told to open a stream; a peer is dialled; a stream's RPC is let go.
pub data Action : Type 0 where
  record_failure : ForwardFailure → Action
  reset_public : Action
  splice_public : Action
  expect_session : Text → Action
  cancel_session : Text → Action
  send_open_forward : Text → Text → Action
  dial_peer : Text → Text → Text → Text → Action
  release_session : Action
  close_send : Action

-- What the `select` of `handleLocal` sees first: the paired stream's first frame, the timer, or the
-- end of the context.
pub data Paired : Type 0 where
  paired : FrameType → Paired
  timed_out canceled : Paired

-- What the code asks for on the local path: a new session id, whether `send` succeeded, what came of
-- the wait, whether the splice ended without an error.
pub record LocalAnswers : Type 0 where
  pub session_id : Option Text
  pub sent : Bool
  pub pairing : Paired
  pub spliced : Bool

unfoldable pub after_pairing : Paired → Bool → List Action
after_pairing timed_out spliced = record_failure pair_timeout ∷ reset_public ∷ []
after_pairing canceled spliced = reset_public ∷ []
after_pairing (paired reset) spliced =
    record_failure agent_reject ∷ release_session ∷ reset_public ∷ []
after_pairing (paired _) true = splice_public ∷ release_session ∷ []
after_pairing (paired _) false = splice_public ∷ record_failure splice_failed ∷ release_session ∷ []

-- `handleLocal`; the cancel of the waiter is deferred to its end.
unfoldable pub handle_local : PortMapping → LocalAnswers → List Action
unfolding after_pairing
handle_local mapping a = elim a.session_id [
  | none ↦ record_failure session_id_failed ∷ reset_public ∷ []
  | some id ↦
      expect_session id
      ∷ send_open_forward id mapping.target
      ∷ ((if a.sent
            then after_pairing a.pairing a.spliced
            else record_failure send_command_failed ∷ reset_public ∷ [])
          ++ cancel_session id ∷ [])
]

-- What `peers.forward` gives: a stream, `errAgentNotConnected`, or another error.
pub data Dialled : Type 0 where
  opened agent_not_connected dial_failed : Dialled

-- What the code asks for in one attempt of the remote path.
pub record RemoteAnswers : Type 0 where
  pub holder : Result PortError Text
  pub session_id : Option Text
  pub dialled : Dialled
  pub spliced : Bool

unfoldable pub dial_result : Bool → List Action → Dialled → Bool → List Action
dial_result is_first retry opened true = splice_public ∷ close_send ∷ []
dial_result is_first retry opened false =
    splice_public ∷ record_failure splice_failed ∷ close_send ∷ []
dial_result true retry agent_not_connected spliced = retry
dial_result false retry agent_not_connected spliced =
    record_failure remote_open_failed ∷ reset_public ∷ []
dial_result is_first retry dial_failed spliced =
    record_failure remote_open_failed ∷ reset_public ∷ []

-- One round of the loop of `handleRemote`: whether it is the first, and what a `continue` leads to.
unfoldable pub attempt : Bool → List Action → Text → PortMapping → RemoteAnswers → List Action
unfolding dial_result
attempt is_first retry self_addr mapping a = elim a.holder [
  | err e ↦ record_failure locate_failed ∷ reset_public ∷ []
  | ok [] ↦ record_failure holder_unavailable ∷ reset_public ∷ []
  | ok (c ∷ addr) ↦
      if (c ∷ addr) == self_addr
      then record_failure holder_self ∷ reset_public ∷ []
      else elim a.session_id [
        | none ↦ record_failure session_id_failed ∷ reset_public ∷ []
        | some id ↦
            dial_peer (c ∷ addr) mapping.agent_id mapping.target id
            ∷ dial_result is_first retry a.dialled a.spliced
      ]
]

-- `handleRemote`: two rounds, the second one's answers after the first one's.
unfoldable pub handle_remote :
    Bool → Text → PortMapping → RemoteAnswers → RemoteAnswers → List Action
unfolding attempt
handle_remote has_peers self_addr mapping a b =
    if has_peers
    then attempt true (attempt false [] self_addr mapping b) self_addr mapping a
    else record_failure cross_pod_disabled ∷ reset_public ∷ []

-- `handleConn`: the store's answer, whether the registry has the agent here, and what the two paths
-- ask for.
unfoldable pub handle_conn :
    Bool
    → Text
    → Result PortError PortMapping
    → Bool
    → LocalAnswers
    → RemoteAnswers
    → RemoteAnswers
    → List Action
unfolding handle_local handle_remote
handle_conn has_peers self_addr (err port_not_found) here l a b =
    record_failure port_not_mapped ∷ reset_public ∷ []
handle_conn has_peers self_addr (err _) here l a b =
    record_failure lookup_failed ∷ reset_public ∷ []
handle_conn has_peers self_addr (ok mapping) here l a b =
    if mapping.suspended
    then record_failure port_suspended ∷ reset_public ∷ []
    else (if here then handle_local mapping l else handle_remote has_peers self_addr mapping a b)
