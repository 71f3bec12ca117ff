-- ===== src/AgentForward.antt =====
-- pkg/agent/forward.go: what the agent does for an OpenForward command, up to the splice, which owns
-- the target's connection from then on. What the network and the stream answer is an argument; logs
-- have no part.
pub mod HandOver
use hostlink.Prelude.{
  ℕ, zero, suc, Bool, true, false, ◌||◌, List, [], ◌∷◌, ◌==◌, if◌then◌else◌, Text, text_comparable,
}
use hostlink.Tunnel.{FrameType, opening, reset}

-- What comes of the dial: no connection, one that is not TCP, or one over TCP.
pub data Dialled : Type 0 where
  dial_failed not_tcp over_tcp : Dialled

pub data Action : Type 0 where
  dial : Text → Action
  close_target splice_target : Action
  open_stream : Action
  send_frame : FrameType → Text → Action
  close_send : Action
  receive : Action

-- Whether `Forward` opened the stream, whether its first frame and the `CloseSend` of a report went
-- out, and how many frames the report drains before `Recv` fails.
pub record Answers : Type 0 where
  pub dialled : Dialled
  pub opened : Bool
  pub sent : Bool
  pub close_sent : Bool
  pub drained : ℕ

drain : ℕ → List Action
drain zero = receive ∷ []
drain (suc n) = receive ∷ drain n

-- `reportForwardDialFailure`
unfoldable pub report_forward_dial_failure : Text → Answers → List Action
unfolding drain
report_forward_dial_failure session_id a =
    if a.opened
    then open_stream
      ∷ send_frame reset session_id
      ∷ close_send
      ∷ (if a.close_sent then drain a.drained else [])
    else open_stream ∷ []

-- The goroutine of `handleOpenForward` once the dial has returned.
unfoldable pub after_dial : Text → Answers → Dialled → List Action
unfolding report_forward_dial_failure
after_dial session_id a dial_failed = report_forward_dial_failure session_id a
after_dial session_id a not_tcp = close_target ∷ report_forward_dial_failure session_id a
after_dial session_id a over_tcp =
    if a.opened
    then open_stream
      ∷ send_frame opening session_id
      ∷ (if a.sent then splice_target ∷ close_send ∷ [] else close_target ∷ [])
    else open_stream ∷ close_target ∷ []

-- `handleOpenForward`
unfoldable pub handle_open_forward : Text → Text → Answers → List Action
unfolding after_dial
handle_open_forward session_id target a =
    if session_id == [] || target == [] then [] else dial target ∷ after_dial session_id a a.dialled
