-- ===== src/Tunnel/Relay.antt =====
-- pkg/tunnel/splice.go, `spliceStreamDirection`: what a relay hop sends on.
use mathlib.Core.List.{append-nil, append_assoc}
use hostlink.Prelude.{
  ◌≡◌, refl, sym, ap, ◌∙◌, Bool, true, false, Option, none, some, List, [], ◌∷◌, ◌++◌, arith, inl,
  inr, Bool-cases,
}
use hostlink.Tunnel.{
  Frame, msg, opening, bytes, half_close, reset, ready, unknown, control, Received, frame, eof,
  failed, SpliceError, returned, Spliced, Sender, send_reset, relay_frame, relay_reset, direction,
  receive_failed, frame_after_half_close, unknown_frame,
}

-- The frames of a well-behaved side: data, then at most one half-close, then at most one reset, and
-- nothing else.
unfoldable pub legal : Bool → List Frame → Bool
legal half_closed [] = true
legal half_closed (msg reset p ∷ []) = true
legal half_closed (msg reset p ∷ f ∷ fs) = false
legal false (msg bytes p ∷ fs) = legal false fs
legal false (msg half_close p ∷ fs) = legal true fs
legal half_closed (msg t p ∷ fs) = false

-- What a relay adds to the frames that it has sent.
abbrev Adds : Bool → List Frame → List Frame → Type 0
Adds half_closed out out' =
    (more : List Frame) × (out' ≡ out ++ more) × (legal half_closed more ≡ true)

Adds-nothing : (half_closed : Bool) (out : List Frame) → Adds half_closed out out
unfolding legal
Adds-nothing half_closed out = ([], sym (append-nil out), refl)

Adds-reset :
    (half_closed : Bool) (out : List Frame) → Adds half_closed out (out ++ control reset ∷ [])
unfolding legal
Adds-reset half_closed out = (control reset ∷ [], refl, refl)

send_reset-Adds :
    (accepts : Sender) (half_closed : Bool) (out : List Frame) (cause : SpliceError)
    → Adds half_closed out (send_reset accepts out cause).out
send_reset-Adds accepts half_closed out cause = elim (Bool-cases (accepts out (control reset))) [
  | inl sent ↦ rw (sent, send_reset) (Adds-reset half_closed out)
  | inr lost ↦ rw (lost, send_reset) (Adds-nothing half_closed out)
]

relay_reset-Adds :
    (accepts : Sender) (half_closed : Bool) (out : List Frame)
    → Adds half_closed out (relay_reset accepts out).out
relay_reset-Adds accepts half_closed out = elim (Bool-cases (accepts out (control reset))) [
  | inl sent ↦ rw (sent, relay_reset) (Adds-reset half_closed out)
  | inr lost ↦ rw (lost, relay_reset) (Adds-nothing half_closed out)
]

-- A frame that leads from one state of the side to another, and what follows it.
Adds-frame :
    (f : Frame) (half_closed next : Bool) (out out' : List Frame)
    → ((fs : List Frame) → legal next fs ≡ true → legal half_closed (f ∷ fs) ≡ true)
    → Adds next (out ++ f ∷ []) out'
    → Adds half_closed out out'
Adds-frame f half_closed next out out' leads (more, e, l) =
    (f ∷ more, e ∙ append_assoc out (f ∷ []) more, leads more l)

relay_frame-Adds :
    (accepts : Sender) (out : List Frame) (f : Frame) (half_closed : Bool) (more : Spliced)
    → Adds half_closed out more.out
    → Adds half_closed out (relay_frame accepts out f more).out
relay_frame-Adds accepts out f half_closed more a = elim (Bool-cases (accepts out f)) [
  | inl sent ↦ rw (sent, relay_frame) a
  | inr lost ↦ rw (lost, relay_frame) (Adds-nothing half_closed out)
]

direction-Adds :
    (accepts : Sender) (script : List Received) (half_closed : Bool) (out : List Frame)
    → Adds half_closed out (direction accepts script half_closed out).out
unfolding direction legal
direction-Adds accepts [] half_closed out = Adds-nothing half_closed out
direction-Adds accepts (eof ∷ rest) true out = Adds-nothing true out
direction-Adds accepts (eof ∷ rest) false out = send_reset-Adds accepts false out receive_failed
direction-Adds accepts (failed ∷ rest) half_closed out =
    send_reset-Adds accepts half_closed out receive_failed
direction-Adds accepts (frame (msg reset p) ∷ rest) half_closed out =
    relay_reset-Adds accepts half_closed out
direction-Adds accepts (frame (msg t p) ∷ rest) true out =
    send_reset-Adds accepts true out frame_after_half_close
direction-Adds accepts (frame (msg bytes p) ∷ rest) false out =
    relay_frame-Adds accepts out (msg bytes p) false _ (
      Adds-frame (msg bytes p) false false out _ (λ fs l. l)
        (direction-Adds accepts rest false (out ++ msg bytes p ∷ [])))
direction-Adds accepts (frame (msg half_close p) ∷ rest) false out =
    relay_frame-Adds accepts out (control half_close) false _ (
      Adds-frame (control half_close) false true out _ (λ fs l. l)
        (direction-Adds accepts rest true (out ++ control half_close ∷ [])))
direction-Adds accepts (frame (msg opening p) ∷ rest) false out =
    direction-Adds accepts rest false out
direction-Adds accepts (frame (msg ready p) ∷ rest) false out =
    direction-Adds accepts rest false out
direction-Adds accepts (frame (msg (unknown n) p) ∷ rest) false out =
    send_reset-Adds accepts false out unknown_frame

-- Whatever the source sends, and whichever sends fail, a relay hop sends on data frames, then at
-- most one half-close, then at most one reset, and nothing after it.
pub direction-legal :
    (accepts : Sender) (script : List Received)
    → legal false (direction accepts script false []).out ≡ true
direction-legal accepts script = let (more, e, l) = direction-Adds accepts script false [] in rw e l

-- The frames of a source up to its half-close, if it ends with that and the end of the stream.
unfoldable pub clean : Bool → List Received → Option (List Frame)
clean true (eof ∷ rest) = some []
clean false (frame (msg bytes p) ∷ rest) = elim (clean false rest) [
  | some fs ↦ some (msg bytes p ∷ fs)
  | none ↦ none
]
clean false (frame (msg half_close p) ∷ rest) = elim (clean true rest) [
  | some fs ↦ some (control half_close ∷ fs)
  | none ↦ none
]
clean false (frame (msg opening p) ∷ rest) = clean false rest
clean false (frame (msg ready p) ∷ rest) = clean false rest
clean half_closed script = none

direction_nil :
    (accepts : Sender) (script : List Received) (half_closed : Bool) (out : List Frame)
    → (direction accepts script half_closed out).outcome ≡ returned []
    → (fs : List Frame) × (clean half_closed script ≡ some fs)
      × ((direction accepts script half_closed out).out ≡ out ++ fs)
unfolding direction clean
direction_nil accepts [] half_closed out h = cc
direction_nil accepts (eof ∷ rest) true out h = ([], refl, sym (append-nil out))
direction_nil accepts (eof ∷ rest) false out h = absurd (ground arith)
direction_nil accepts (failed ∷ rest) half_closed out h = absurd (ground arith)
direction_nil accepts (frame (msg reset p) ∷ rest) half_closed out h = absurd (ground arith)
direction_nil accepts (frame (msg t p) ∷ rest) true out h = absurd (ground arith)
direction_nil accepts (frame (msg bytes p) ∷ rest) false out h =
    let (fs, c, e) = direction_nil accepts rest false (out ++ msg bytes p ∷ []) (ground arith) in
    (msg bytes p ∷ fs, rw c refl, ground (arith, append_assoc out (msg bytes p ∷ []) fs))
direction_nil accepts (frame (msg half_close p) ∷ rest) false out h =
    let (fs, c, e) =
      direction_nil accepts rest true (out ++ control half_close ∷ []) (ground arith) in
    (
      control half_close ∷ fs,
      rw c refl,
      ground (arith, append_assoc out (control half_close ∷ []) fs),
    )
direction_nil accepts (frame (msg opening p) ∷ rest) false out h =
    direction_nil accepts rest false out h
direction_nil accepts (frame (msg ready p) ∷ rest) false out h =
    direction_nil accepts rest false out h
direction_nil accepts (frame (msg (unknown n) p) ∷ rest) false out h = absurd (ground arith)

-- A relay direction returns without an error only on a source that half-closes and then ends, and
-- then it has sent on every data frame of the source and its half-close, in order.
pub direction-clean :
    (accepts : Sender) (script : List Received)
    → (direction accepts script false []).outcome ≡ returned []
    → clean false script ≡ some (direction accepts script false []).out
direction-clean accepts script h =
    let (fs, c, e) = direction_nil accepts script false [] h in c ∙ ap some (sym e)
