-- ===== src/AgentForward/HandOver.antt =====
-- pkg/agent/forward.go with pkg/controller/service.go: the first frame of the agent's stream, and what
-- becomes of the target's connection.
use hostlink.Prelude.{
  ℕ, zero, suc, ◌≡◌, ◌≢◌, refl, none, true, false, List, [], ◌∷◌, ◌==◌, if◌then◌else◌, Text,
  text_comparable, arith,
}
use hostlink.Map.{get}
use hostlink.Tunnel.{FrameType, opening, reset}
use hostlink.Sessions.{ForwardSession, SessionTable, new_session_table}
use hostlink.Sessions.Pairing.{Reach}
use hostlink.Control.Forward.{arrived, forward, handed_over, may_start, forward_lem}
use hostlink.AgentForward.{
  Dialled, dial_failed, not_tcp, over_tcp, Action, close_target, splice_target, send_frame, Answers,
  drain, report_forward_dial_failure, after_dial, handle_open_forward,
}

-- How often the connection to the target is closed, or handed to the splice.
abbrev pub disposals : List Action → ℕ
disposals [] = 0
disposals (close_target ∷ actions) = suc (disposals actions)
disposals (splice_target ∷ actions) = suc (disposals actions)
disposals (_ ∷ actions) = disposals actions

-- How many connections the dial has made.
abbrev pub made : Dialled → ℕ
made dial_failed = 0
made not_tcp = 1
made over_tcp = 1

-- The frames that are sent outside the splice, with the session that they name.
abbrev pub frames : List Action → List (FrameType × Text)
frames [] = []
frames (send_frame ty id ∷ actions) = (ty, id) ∷ frames actions
frames (_ ∷ actions) = frames actions

-- The frame that starts the stream.
abbrev pub first_frame : Dialled → FrameType
first_frame over_tcp = opening
first_frame _ = reset

drain-disposals : (n : ℕ) → disposals (drain n) ≡ 0
unfolding drain
drain-disposals zero = refl
drain-disposals (suc n) = drain-disposals n

drain-frames : (n : ℕ) → frames (drain n) ≡ []
unfolding drain
drain-frames zero = refl
drain-frames (suc n) = drain-frames n

after_dial-disposals :
    (id : Text) (a : Answers) (d : Dialled) → disposals (after_dial id a d) ≡ made d
unfolding after_dial report_forward_dial_failure
after_dial-disposals id a dial_failed = ground (arith, drain-disposals a.drained)
after_dial-disposals id a not_tcp = ground (arith, drain-disposals a.drained)
after_dial-disposals id a over_tcp = ground arith

after_dial-frames :
    (id : Text) (a : Answers) (d : Dialled)
    → frames (after_dial id a d) ≡ (if a.opened then (first_frame d, id) ∷ [] else [])
unfolding after_dial report_forward_dial_failure
after_dial-frames id a dial_failed = ground (arith, drain-frames a.drained)
after_dial-frames id a not_tcp = ground (arith, drain-frames a.drained)
after_dial-frames id a over_tcp = ground arith

may_start-first_frame : (d : Dialled) → may_start (first_frame d) ≡ true
may_start-first_frame dial_failed = refl
may_start-first_frame not_tcp = refl
may_start-first_frame over_tcp = refl

-- For a command that names a session and a target: a connection that the dial makes is closed or
-- spliced exactly once; outside the splice the handler sends exactly one frame if the stream opens,
-- and else none, which names the session, and opens it if there is a TCP connection, and else resets
-- it; and if the controller, in any reachable session table, still waits for the session, it hands a
-- stream that starts with this frame over to the waiting connection.
pub open_forward_lem :
    (id target : Text) (a : Answers) (t : SessionTable) (n : ℕ)
    → id ≢ []
    → target ≢ []
    → Reach new_session_table t
    → get t.waiters id ≢ none
    → (disposals (handle_open_forward id target a) ≡ made a.dialled)
      × (frames (handle_open_forward id target a)
          ≡ (if a.opened then (first_frame a.dialled, id) ∷ [] else []))
      × ((forward (arrived (first_frame a.dialled) (record { session_id = id; stream = n })) t).1
          ≡ handed_over)
unfolding handle_open_forward
open_forward_lem id target a t n named aimed reach waits =
    let id_given : (id == []) ≡ false = ground arith in
    let target_given : (target == []) ≡ false = ground arith in
    let session : ForwardSession = record { session_id = id; stream = n } in
    let first = first_frame a.dialled in
    (
      rw (id_given, target_given) (after_dial-disposals id a a.dialled),
      rw (id_given, target_given) (after_dial-frames id a a.dialled),
      (forward_lem (arrived first session) t reach).1 first session refl id_given
          (may_start-first_frame a.dialled) waits,
    )
