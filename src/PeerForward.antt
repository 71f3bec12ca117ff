-- ===== src/PeerForward.antt =====
-- pkg/controller/peer_forward.go: the relay of a forward to the pod that holds the agent, up to the
-- splice. What the network, the registry and the agent answer is an argument; logs have no part.
pub mod Barrier
use hostlink.Prelude.{
  Bool, true, false, ◌||◌, not, Option, none, some, List, [], ◌∷◌, ◌++◌, ◌==◌, if◌then◌else◌, Text,
  Result, ok, err, text_comparable,
}
use hostlink.Tunnel.{FrameType, opening, reset, ready}
use hostlink.ForwardHandler.{Paired, paired, timed_out, canceled}

-- The statuses that a stream between pods ends with; `other_status` is any that the code does not tell
-- apart.
pub data Status : Type 0 where
  success invalid_argument failed_precondition internal deadline_exceeded other_status : Status

-- The first frame, with `PeerForwardOpen`'s agent and target.
pub record OpenFrame : Type 0 where
  pub frame_type : FrameType
  pub session_id : Text
  pub open_for : Option (Text × Text)

-- What the `select` of `receiveAndValidateOpenFrame` sees.
pub data Arrival : Type 0 where
  receive_failed too_late context_done : Arrival
  arrived : OpenFrame → Arrival

-- The checks on the first frame: the session, the agent and the target.
check_open : OpenFrame → Result Status (Text × Text × Text)
check_open f = elim f.frame_type [
  | opening ↦ if f.session_id == [] then err invalid_argument else elim f.open_for [
    | none ↦ err invalid_argument
    | some (agent, target) ↦
        if agent == [] || target == []
        then err invalid_argument
        else ok (f.session_id, agent, target)
  ]
  | _ ↦ err invalid_argument
]

-- `receiveAndValidateOpenFrame`
unfoldable pub receive_and_validate_open_frame : Arrival → Result Status (Text × Text × Text)
unfolding check_open
receive_and_validate_open_frame receive_failed = err invalid_argument
receive_and_validate_open_frame too_late = err invalid_argument
receive_and_validate_open_frame context_done = err other_status
receive_and_validate_open_frame (arrived f) = check_open f

-- What `conn.send` returns: no error, `errAgentDisconnected`, or another error.
pub data Sent : Type 0 where
  sent disconnected send_failed : Sent

-- `agentConn.send` of pkg/controller/registry.go, by whether `stream.Send` succeeds: a failure is wrapped
-- as it is, so it is never `errAgentDisconnected`.
unfoldable pub send : Bool → Sent
send true = sent
send false = send_failed

pub data Action : Type 0 where
  expect_session cancel_session : Text → Action
  send_open_forward : Text → Text → Action
  send_frame : FrameType → Action
  splice_stream : Action
  release_session : Action

-- `Forward` from the `select` on, given how the frame to the other pod is sent.
unfoldable pub after_open : Paired → Bool → List Action × Status
after_open timed_out taken = ([], deadline_exceeded)
after_open canceled taken = ([], other_status)
after_open (paired reset) true = (send_frame reset ∷ release_session ∷ [], success)
after_open (paired reset) false = (send_frame reset ∷ release_session ∷ [], other_status)
after_open (paired _) true = (send_frame ready ∷ splice_stream ∷ release_session ∷ [], success)
after_open (paired _) false = (send_frame ready ∷ release_session ∷ [], other_status)

-- `Forward` once the agent is found; the cancel of the waiter is deferred to its end.
unfoldable pub with_agent : Text → Text → Sent → Paired → Bool → List Action × Status
unfolding after_open
with_agent session_id target disconnected pairing taken = (
  expect_session session_id ∷ send_open_forward session_id target ∷ cancel_session session_id ∷ [],
  failed_precondition,
)
with_agent session_id target send_failed pairing taken = (
  expect_session session_id ∷ send_open_forward session_id target ∷ cancel_session session_id ∷ [],
  internal,
)
with_agent session_id target sent pairing taken =
    let (done, status) = after_open pairing taken in
    (
      expect_session session_id
          ∷ send_open_forward session_id target
          ∷ (done ++ cancel_session session_id ∷ []),
      status,
    )

-- `peerServer.Forward`, given which agents this pod holds and whether the agent's stream
-- takes the command.
unfoldable pub serve_forward : (Text → Bool) → Arrival → Bool → Paired → Bool → List Action × Status
unfolding receive_and_validate_open_frame send with_agent
serve_forward holds arrival written pairing taken = elim (receive_and_validate_open_frame arrival) [
  | err status ↦ ([], status)
  | ok (session_id, agent, target) ↦
      if holds agent
      then with_agent session_id target (send written) pairing taken
      else ([], failed_precondition)
]

-- How `peerClients.forward` ends: with the stream, or with an error.
pub data Opened : Type 0 where
  relayed not_connected forward_reset failed : Opened

unfoldable pub opened_error : Status → Opened
opened_error failed_precondition = not_connected
opened_error _ = failed

unfoldable pub after_response : FrameType → Opened
after_response ready = relayed
after_response reset = forward_reset
after_response _ = failed

-- `peerClients.forward`: the connection, the stream, the send of the open frame, and the response; the
-- result, and whether the stream is closed for sending at the end.
unfoldable pub open_relay :
    Bool
    → Result Status (Unit {0})
    → Result Status (Unit {0})
    → Result Status FrameType
    → Opened × Bool
unfolding opened_error after_response
open_relay false stream open_sent response = (failed, false)
open_relay true (err e) open_sent response = (opened_error e, false)
open_relay true (ok _) (err e) response = (opened_error e, true)
open_relay true (ok _) (ok _) (err e) = (opened_error e, true)
open_relay true (ok _) (ok _) (ok ready) = (relayed, false)
open_relay true (ok _) (ok _) (ok ty) = (after_response ty, true)
