-- ===== src/PeerForward/Barrier.antt =====
-- pkg/controller/peer_forward.go, both ends: what the pod that accepted the connection learns of what
-- the pod that holds the agent does.
use hostlink.Prelude.{
  ℕ, suc, ◌≡◌, ◌≢◌, refl, Bool, true, false, some, List, [], ◌∷◌, if◌then◌else◌, Text, Result, ok,
  err, arith, text_comparable,
}
use hostlink.Tunnel.{FrameType, opening, reset, ready}
use hostlink.ForwardHandler.{Paired, paired, timed_out, canceled}
use hostlink.PeerForward.{
  Status, OpenFrame, Arrival, arrived, send, Action, send_frame, splice_stream, with_agent,
  receive_and_validate_open_frame, failed_precondition, serve_forward, Opened, relayed,
  not_connected, forward_reset, failed, open_relay,
}

-- What a faithful stream gives to the client's `Recv`: the first frame that the server sends, or else
-- the status that it ends with.
abbrev pub response_of : List Action → Status → Result Status FrameType
response_of [] status = err status
response_of (send_frame ty ∷ actions) status = ok ty
response_of (_ ∷ actions) status = response_of actions status

-- How many splices are started.
abbrev pub splices : List Action → ℕ
splices [] = 0
splices (splice_stream ∷ actions) = suc (splices actions)
splices (_ ∷ actions) = splices actions

-- What the client is to learn of a pod that holds the agent.
abbrev pub learns_paired : Paired → Opened
learns_paired (paired reset) = forward_reset
learns_paired (paired _) = relayed
learns_paired timed_out = failed
learns_paired canceled = failed

-- By whether the other pod holds the agent, and whether the agent's stream takes the command there.
abbrev pub learns : Bool → Bool → Paired → Opened
learns false written pairing = not_connected
learns true false pairing = failed
learns true true pairing = learns_paired pairing

abbrev pub is_relayed : Opened → ℕ
is_relayed relayed = 1
is_relayed _ = 0

-- The answer of the pod that was asked.
abbrev pub Served : Type 0
Served = List Action × Status

Meets : Served → Opened → Type 0
Meets served opened =
    ((open_relay true (ok tt) (ok tt) (response_of served.0 served.1)).0 ≡ opened)
    × (splices served.0 ≡ is_relayed opened)

with_agent-Meets :
    (id target : Text) (written : Bool) (pairing : Paired)
    → Meets (with_agent id target (send written) pairing true) (learns true written pairing)
unfolding Meets send with_agent open_relay
with_agent-Meets id target false pairing = ground arith
with_agent-Meets id target true timed_out = ground arith
with_agent-Meets id target true canceled = ground arith
with_agent-Meets id target true (paired opening) = ground arith
with_agent-Meets id target true (paired FrameType.bytes) = ground arith
with_agent-Meets id target true (paired FrameType.half_close) = ground arith
with_agent-Meets id target true (paired reset) = ground arith
with_agent-Meets id target true (paired ready) = ground arith
with_agent-Meets id target true (paired (FrameType.unknown n)) = ground arith

open_frame-accepted :
    (id agent target : Text)
    → id ≢ []
    → agent ≢ []
    → target ≢ []
    → receive_and_validate_open_frame (
        arrived (record { frame_type = opening; session_id = id; open_for = some (agent, target) }))
      ≡ ok (id, agent, target)
unfolding receive_and_validate_open_frame
open_frame-accepted id agent target named owned aimed = ground arith

serve_forward-accepted :
    (holds : Text → Bool) (arrival : Arrival) (id agent target : Text) (written : Bool)
    (pairing : Paired)
    → receive_and_validate_open_frame arrival ≡ ok (id, agent, target)
    → serve_forward holds arrival written pairing true ≡ (
        if holds agent
        then with_agent id target (send written) pairing true
        else ([], failed_precondition))
serve_forward-accepted holds arrival id agent target written pairing accepted =
    unfold serve_forward in rw (accepted, serve_forward) refl

Meets-if :
    (b : Bool) (id target : Text) (written : Bool) (pairing : Paired)
    → Meets
        (if b then with_agent id target (send written) pairing true else ([], failed_precondition))
        (learns b written pairing)
Meets-if true id target written pairing = with_agent-Meets id target written pairing
Meets-if false id target written pairing = unfold Meets open_relay in (refl, refl)

-- Over a faithful stream, for an open frame that names a session, an agent and a target, where the
-- frames to the other pod go through: the pod that accepted the connection learns that the relay is
-- ready exactly if the other pod holds the agent, its command was taken and the agent's stream was
-- paired and did not reset; a reset by the agent's reset; and that the agent is not connected exactly
-- if the other pod does not hold it. Any other end of the setup is an error, the agent's stream that
-- does not take the command included. The other pod starts its splice once if the relay is ready, and
-- else not at all.
pub peer_forward_lem :
    (holds : Text → Bool) (id agent target : Text) (written : Bool) (pairing : Paired)
    → id ≢ []
    → agent ≢ []
    → target ≢ []
    → let f : OpenFrame = record {
      frame_type = opening;
      session_id = id;
      open_for = some (agent, target);
    } in
      let served = serve_forward holds (arrived f) written pairing true in
      ((open_relay true (ok tt) (ok tt) (response_of served.0 served.1)).0
        ≡ learns (holds agent) written pairing)
      × (splices served.0 ≡ is_relayed (learns (holds agent) written pairing))
unfolding Meets
peer_forward_lem holds id agent target written pairing named owned aimed =
    rw
      (serve_forward-accepted holds _ id agent target written pairing
        (open_frame-accepted id agent target named owned aimed))
      (Meets-if (holds agent) id target written pairing)
