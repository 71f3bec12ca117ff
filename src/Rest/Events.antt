-- ===== src/Rest/Events.antt =====
-- pkg/controller/api.go, `serveSSEStream`: the closing event.
use hostlink.Prelude.{◌≡◌, Bool, false, List, [], ◌∷◌, codes, All, Bool-cases, inl, inr, ◌⊎◌}
use hostlink.AgentConn.{StreamFrame}
use hostlink.Rest.{
  StreamEvent, context_done, frame, disconnected, StreamEnd, waiting, cancelled, finished, aborted,
  drain, consume_stream, after_frame, ServerEvent, progress, done_frame, sse_frame,
  serve_sse_stream,
}

abbrev pub IsProgress : ServerEvent → Type 0
IsProgress (progress payload) = Unit
IsProgress (done_frame code e) = ⊥

-- A closing event, with progress events before it.
abbrev pub IsClosed : List ServerEvent → Type 0
IsClosed [] = ⊥
IsClosed (progress payload ∷ sent) = ⊥
IsClosed (done_frame code e ∷ sent) = All IsProgress sent

-- What was sent, the last event first, by how the stream ended.
unfoldable pub Served : (List ServerEvent → Bool) → List ServerEvent × StreamEnd → Type 0
Served takes (sent, waiting) = All IsProgress sent
Served takes (sent, cancelled) = All IsProgress sent
Served takes (sent, aborted) = IsClosed sent
Served takes (sent, finished) = (IsClosed sent) ⊎ (All IsProgress sent × (takes sent ≡ false))

after_frame-Served :
    (takes : List ServerEvent → Bool) (f : StreamFrame) (sent : List ServerEvent)
    (more : List ServerEvent → List ServerEvent × StreamEnd)
    → All IsProgress sent
    → ((sent' : List ServerEvent) → All IsProgress sent' → Served takes (more sent'))
    → Served takes (after_frame (λ f s. sse_frame takes f s) (λ s. s) (sse_frame takes f sent) more)
unfolding Served sse_frame
after_frame-Served takes f sent more a h = elim (Bool-cases f.final) [
  | inl last ↦ rw (last, sse_frame) (inl a)
  | inr going ↦ elim (Bool-cases (takes sent)) [
    | inl taken ↦ rw (going, taken, sse_frame) (h (progress f.payload ∷ sent) (tt, a))
    | inr gone ↦ rw (going, gone, sse_frame) (inr (a, gone))
  ]
]

abbrev on_abort : List ServerEvent → List ServerEvent
on_abort sent = done_frame 0 (codes "agent disconnected") ∷ sent

drain-Served :
    (takes : List ServerEvent → Bool) (frames : List StreamFrame) (sent : List ServerEvent)
    → All IsProgress sent
    → Served takes (drain (sse_frame takes) on_abort frames sent)
unfolding drain Served
drain-Served takes [] sent a = a
drain-Served takes (f ∷ fs) sent a =
    after_frame-Served takes f sent (λ s. drain (sse_frame takes) on_abort fs s) a
      (λ s b. drain-Served takes fs s b)

consume_stream-Served :
    (takes : List ServerEvent → Bool) (events : List StreamEvent) (sent : List ServerEvent)
    → All IsProgress sent
    → Served takes (consume_stream (sse_frame takes) on_abort events sent)
unfolding consume_stream Served
consume_stream-Served takes [] sent a = a
consume_stream-Served takes (context_done ∷ events) sent a = a
consume_stream-Served takes (frame f ∷ events) sent a =
    after_frame-Served takes f sent (λ s. consume_stream (sse_frame takes) on_abort events s) a
      (λ s b. consume_stream-Served takes events s b)
consume_stream-Served takes (disconnected frames ∷ events) sent a = drain-Served takes frames sent a

-- Whatever frames, disconnects and ends of the context `serveSSEStream` sees, and whatever the client
-- takes: an agent that disconnects without a final frame gives progress events and one closing event
-- after them; a stream that finishes does so too, or its client is gone and has only progress events;
-- before an end, and when the context ends, only progress events are sent.
pub serve_sse_stream_lem :
    (takes : List ServerEvent → Bool) (events : List StreamEvent)
    → Served takes (serve_sse_stream takes events)
unfolding serve_sse_stream
serve_sse_stream_lem takes events = consume_stream-Served takes events [] tt
