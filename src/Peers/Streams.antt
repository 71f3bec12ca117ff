-- ===== src/Peers/Streams.antt =====
-- pkg/controller/peer.go: a stream that is relayed by another pod is consumed as a local one.
use mathlib.Core.List.{append_assoc, append-nil}
use hostlink.Prelude.{
  ℕ, zero, suc, ◌≡◌, refl, sym, ap, ◌∙◌, Bool, true, false, List, [], ◌∷◌, ◌++◌, if◌then◌else◌,
  Bool-cases, inl, inr,
}
use hostlink.AgentConn.{StreamFrame}
use hostlink.Rest.{
  StreamEvent, context_done, frame, disconnected, StreamEnd, after_frame, drain, consume_stream,
}
use hostlink.Peers.{drain_frames, serve_stream, relay_stream}

-- A stream of gRPC between the pods that does not fail.
abbrev pub always : List StreamFrame → StreamFrame → Bool
always out f = true

-- The frames come as they were sent, and the channel takes them.
abbrev pub received : List StreamFrame → List (StreamFrame × Bool)
received [] = []
received (f ∷ fs) = (f, true) ∷ received fs

-- What the caller sees of the frames if it has read so many when the relay has ended.
abbrev pub seen : ℕ → List StreamFrame → List StreamEvent
seen zero fs = disconnected fs ∷ []
seen (suc k) [] = disconnected [] ∷ []
seen (suc k) (f ∷ fs) = frame f ∷ seen k fs

-- The frames up to the first final one.
until_final : List StreamFrame → List StreamFrame
until_final [] = []
until_final (f ∷ fs) = let rest = until_final fs in if f.final then f ∷ [] else f ∷ rest

frames_of : List StreamEvent → List StreamFrame
unfolding until_final
frames_of [] = []
frames_of (context_done ∷ events) = []
frames_of (frame f ∷ events) = let rest = frames_of events in if f.final then f ∷ [] else f ∷ rest
frames_of (disconnected fs ∷ events) = until_final fs

-- The stream comes to its end: a final frame, or the agent's disconnect.
abbrev pub IsSettled : List StreamEvent → Type 0
IsSettled [] = ⊥
IsSettled (context_done ∷ events) = ⊥
IsSettled (frame f ∷ events) = f.final ≡ false → IsSettled events
IsSettled (disconnected fs ∷ events) = Unit

drain_frames-until_final :
    (fs out : List StreamFrame) → (drain_frames always fs out).0 ≡ out ++ until_final fs
unfolding drain_frames until_final
drain_frames-until_final [] out = sym (append-nil out)
drain_frames-until_final (f ∷ fs) out = elim (Bool-cases f.final) [
  | inl last ↦ simp last refl
  | inr more ↦
      simp more
        (drain_frames-until_final fs (out ++ f ∷ []) ∙ append_assoc out (f ∷ []) (until_final fs))
]

serve_stream-frames_of :
    (events : List StreamEvent) (out : List StreamFrame)
    → (serve_stream always events out).0 ≡ out ++ frames_of events
unfolding serve_stream frames_of
serve_stream-frames_of [] out = sym (append-nil out)
serve_stream-frames_of (context_done ∷ events) out = sym (append-nil out)
serve_stream-frames_of (frame f ∷ events) out = elim (Bool-cases f.final) [
  | inl last ↦ simp last refl
  | inr more ↦
      simp more (
        serve_stream-frames_of events (out ++ f ∷ [])
        ∙ append_assoc out (f ∷ []) (frames_of events))
]
serve_stream-frames_of (disconnected fs ∷ events) out = drain_frames-until_final fs out

relay_stream-received : (fs : List StreamFrame) → relay_stream (received fs) ≡ until_final fs
unfolding relay_stream until_final
relay_stream-received [] = refl
relay_stream-received (f ∷ fs) = rw (relay_stream-received fs) refl

until_final_twice : (fs : List StreamFrame) → until_final (until_final fs) ≡ until_final fs
unfolding until_final
until_final_twice [] = refl
until_final_twice (f ∷ fs) = elim (Bool-cases f.final) [
  | inl last ↦ simp last refl
  | inr more ↦ simp more (ap (◌∷◌ f) (until_final_twice fs))
]

until_final-frames_of :
    (events : List StreamEvent) → until_final (frames_of events) ≡ frames_of events
unfolding until_final frames_of
until_final-frames_of [] = refl
until_final-frames_of (context_done ∷ events) = refl
until_final-frames_of (frame f ∷ events) = elim (Bool-cases f.final) [
  | inl last ↦ simp last refl
  | inr more ↦ simp more (ap (◌∷◌ f) (until_final-frames_of events))
]
until_final-frames_of (disconnected fs ∷ events) = until_final_twice fs

module _ {S : Type 0} (on_frame : StreamFrame → S → S × Bool) (on_abort : S → S) where
  after_frame_ap :
      (r : S × Bool) (more more' : S → S × StreamEnd)
      → ((s : S) → more s ≡ more' s)
      → after_frame on_frame on_abort r more ≡ after_frame on_frame on_abort r more'
  after_frame_ap (s, true) more more' h = refl
  after_frame_ap (s, false) more more' h = h s

  after_frame_final :
      (r : S × Bool) (more more' : S → S × StreamEnd)
      → r.1 ≡ true
      → after_frame on_frame on_abort r more ≡ after_frame on_frame on_abort r more'
  after_frame_final (s, true) more more' h = refl
  after_frame_final (s, false) more more' h = cc

  -- However many frames the caller has read when the relay ends, it consumes them all.
  consume_stream-seen :
      (k : ℕ) (fs : List StreamFrame) (s : S)
      → consume_stream on_frame on_abort (seen k fs) s ≡ drain on_frame on_abort fs s
  unfolding consume_stream drain
  consume_stream-seen zero fs s = refl
  consume_stream-seen (suc k) [] s = refl
  consume_stream-seen (suc k) (f ∷ fs) s =
      after_frame_ap (on_frame f s) _ _ (λ s'. consume_stream-seen k fs s')

  abbrev pub EndsOnFinal : Type 0
  EndsOnFinal = (f : StreamFrame) (s : S) → f.final ≡ true → (on_frame f s).1 ≡ true

  drain-until_final :
      (fs : List StreamFrame) (s : S)
      → EndsOnFinal
      → drain on_frame on_abort (until_final fs) s ≡ drain on_frame on_abort fs s
  unfolding drain until_final
  drain-until_final [] s e = refl
  drain-until_final (f ∷ fs) s e = elim (Bool-cases f.final) [
    | inl last ↦ simp last (after_frame_final (on_frame f s) _ _ (e f s last))
    | inr more ↦ simp more (after_frame_ap (on_frame f s) _ _ (λ s'. drain-until_final fs s' e))
  ]

  drain-frames_of :
      (events : List StreamEvent) (s : S)
      → EndsOnFinal
      → IsSettled events
      → drain on_frame on_abort (frames_of events) s ≡ consume_stream on_frame on_abort events s
  unfolding drain frames_of consume_stream
  drain-frames_of [] s e settled = absurd settled
  drain-frames_of (context_done ∷ events) s e settled = absurd settled
  drain-frames_of (frame f ∷ events) s e settled = elim (Bool-cases f.final) [
    | inl last ↦ simp last (after_frame_final (on_frame f s) _ _ (e f s last))
    | inr more ↦
        simp more
          (after_frame_ap (on_frame f s) _ _ (λ s'. drain-frames_of events s' e (settled more)))
  ]
  drain-frames_of (disconnected fs ∷ events) s e settled = drain-until_final fs s e

  -- A relay is transparent: where the stream between the pods does not fail and the dispatch at the
  -- pod that holds the agent comes to its end, by a final frame or by the agent's disconnect, a consumer
  -- that ends on a final frame does at the other pod, however far it has read when the relay ends,
  -- what it would do at that pod itself, and ends in the same way.
  pub relay_stream_lem :
      (k : ℕ) (events : List StreamEvent) (s : S)
      → EndsOnFinal
      → IsSettled events
      → let sent = (serve_stream always events []).0 in
        consume_stream on_frame on_abort (seen k (relay_stream (received sent))) s
        ≡ consume_stream on_frame on_abort events s
  relay_stream_lem k events s e settled = rw (serve_stream-frames_of events []) (
      consume_stream-seen k (relay_stream (received (frames_of events))) s
      ∙ ap (λ fs. drain on_frame on_abort fs s)
          (relay_stream-received (frames_of events) ∙ until_final-frames_of events)
      ∙ drain-frames_of events s e settled)
