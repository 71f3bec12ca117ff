-- ===== src/Control/Forward.antt =====
-- pkg/controller/service.go, `Forward`: an agent's stream is handed to the connection that waits for it.
use hostlink.Prelude.{
  ◌≡◌, ◌≢◌, refl, Bool, true, false, not, ◌||◌, none, some, [], if◌then◌else◌, ◌==◌, ==_refl,
  nat_comparable, text_comparable, arith, Option-cases, inl, inr, ◌⊎◌,
}
use hostlink.Map.{get}
use hostlink.Map.Laws.{get-put}
use hostlink.Tunnel.{FrameType, opening, reset}
use hostlink.Sessions.{ForwardSession, SessionTable, new_session_table, deliver, finish}
use hostlink.Sessions.Pairing.{Reach, later, delivers, sessions_are_paired}

-- What the first `select` sees; a frame comes with the session that it would start.
pub data FirstFrame : Type 0 where
  receive_failed timed_out context_done : FirstFrame
  arrived : FrameType → ForwardSession → FirstFrame

-- The stream ends with an error, or it is handed over and ends with its consumer or its context.
pub data ForwardEnd : Type 0 where
  invalid_argument canceled handed_over : ForwardEnd

abbrev pub may_start : FrameType → Bool
may_start opening = true
may_start reset = true
may_start _ = false

hand_over : ForwardSession → SessionTable → SessionTable × ForwardEnd
unfolding deliver finish
hand_over s t = elim (get t.waiters s.session_id) [
  | none ↦ ((deliver s t).0, invalid_argument)
  | some ch ↦
      let sent = finish ch s (deliver s t).0 in
      (sent.0, if sent.1 then handed_over else invalid_argument)
]

-- `Forward`, with both halves of `deliver`.
unfoldable pub forward : FirstFrame → SessionTable → SessionTable × ForwardEnd
unfolding hand_over
forward receive_failed t = (t, invalid_argument)
forward timed_out t = (t, invalid_argument)
forward context_done t = (t, canceled)
forward (arrived ty s) t =
    if s.session_id == [] || not (may_start ty) then (t, invalid_argument) else hand_over s t

hand_over-deliver :
    (s : ForwardSession) (t : SessionTable)
    → Reach new_session_table t
    → ((get t.waiters s.session_id ≡ none) × (hand_over s t ≡ (t, invalid_argument)))
      ⊎ ((get t.waiters s.session_id ≢ none) × ((hand_over s t).1 ≡ handed_over))
unfolding hand_over deliver
hand_over-deliver s t reach = elim (Option-cases (get t.waiters s.session_id)) [
  | inl e ↦ inl (e, ground (arith, e))
  | inr (ch, e) ↦
      let sent =
        (sessions_are_paired (later reach (delivers s))).0 ch s
          (ground (arith, e, get-put t.flying ch ch s, ==_refl ch)) in
      inr (ground (arith, e), ground (arith, e, sent))
]

-- In every reachable state of the session table: a stream whose first frame opens or resets and names
-- a session that some connection waits for is handed over; a stream that is not handed over leaves
-- the table as it was.
pub forward_lem :
    (first : FirstFrame) (t : SessionTable)
    → Reach new_session_table t
    → ((forward first t).1 ≢ handed_over → (forward first t).0 ≡ t)
      × ((ty : FrameType) (s : ForwardSession)
          → first ≡ arrived ty s
          → (s.session_id == []) ≡ false
          → may_start ty ≡ true
          → get t.waiters s.session_id ≢ none
          → (forward first t).1 ≡ handed_over)
unfolding forward
forward_lem receive_failed t reach = (λ h. refl, λ ty s e. cc)
forward_lem timed_out t reach = (λ h. refl, λ ty s e. cc)
forward_lem context_done t reach = (λ h. refl, λ ty s e. cc)
forward_lem (arrived ty s) t reach = (
  ground (arith, hand_over-deliver s t reach),
  λ ty' s' e id may waits. ground (arith, hand_over-deliver s t reach),
)
