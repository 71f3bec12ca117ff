-- ===== src/Peers/Uploads.antt =====
-- pkg/controller/peer.go: an upload that is relayed by another pod reaches the agent as a local one.
use mathlib.Core.List.{append_assoc}
use hostlink.Prelude.{◌≡◌, refl, Bool, true, false, Option, none, some, List, [], ◌∷◌, ◌++◌, Text}
use hostlink.AgentFs.{UploadEvent, chunk}
use hostlink.Tunnel.{ReadError, no_error, at_eof, broken}
use hostlink.Tunnel.Bytes.{Ends}
use hostlink.Rest.{DispatchError, stream_upload_body}
use hostlink.Rest.Uploads.{to_agent}
use hostlink.Peers.{
  UploadReceived, upload_frame, upload_eof, upload_failed, forwarded, fails_with, aborted,
  serve_upload,
}

-- `stream.Send` of `peerClients.upload` on a stream that does not fail.
abbrev pub to_peer : Text → Bool → List UploadReceived → List UploadReceived × Option DispatchError
to_peer piece last frames = (frames ++ upload_frame piece last ∷ [], none)

frame_of : Text → List UploadReceived → List UploadReceived
frame_of [] frames = frames
frame_of (b ∷ bs) frames = upload_frame (b ∷ bs) false ∷ frames

frames_of : List (Text × ReadError) → List UploadReceived
unfolding frame_of
frames_of [] = []
frames_of ((bs, no_error) ∷ reads) = frame_of bs (frames_of reads)
frames_of ((bs, at_eof) ∷ reads) = frame_of bs (upload_frame [] true ∷ [])
frames_of ((bs, broken) ∷ reads) = frame_of bs []

stream_upload_body-frames_of :
    (reads : List (Text × ReadError)) (frames : List UploadReceived)
    → Ends reads
    → stream_upload_body to_peer reads frames ≡ (frames ++ frames_of reads, some none)
unfolding stream_upload_body frames_of
stream_upload_body-frames_of (([], no_error) ∷ reads) frames e =
    stream_upload_body-frames_of reads frames e
stream_upload_body-frames_of ((b ∷ bs, no_error) ∷ reads) frames e =
    rw (stream_upload_body-frames_of reads (frames ++ upload_frame (b ∷ bs) false ∷ []) e)
      (rw (append_assoc frames (upload_frame (b ∷ bs) false ∷ [])) refl)
stream_upload_body-frames_of (([], at_eof) ∷ reads) frames e = refl
stream_upload_body-frames_of ((b ∷ bs, at_eof) ∷ reads) frames e =
    rw (append_assoc frames (upload_frame (b ∷ bs) false ∷ [])) refl
stream_upload_body-frames_of ((bs, broken) ∷ reads) frames e = elim e [ ]
stream_upload_body-frames_of [] frames e = elim e [ ]

serve_upload-frames_of :
    (reads : List (Text × ReadError)) (events : List UploadEvent)
    → Ends reads
    → serve_upload to_agent (frames_of reads) events
      ≡ ((stream_upload_body to_agent reads events).0, forwarded)
unfolding stream_upload_body frames_of serve_upload
serve_upload-frames_of (([], no_error) ∷ reads) events e = serve_upload-frames_of reads events e
serve_upload-frames_of ((b ∷ bs, no_error) ∷ reads) events e =
    serve_upload-frames_of reads (events ++ chunk (b ∷ bs) false ∷ []) e
serve_upload-frames_of (([], at_eof) ∷ reads) events e = refl
serve_upload-frames_of ((b ∷ bs, at_eof) ∷ reads) events e = refl
serve_upload-frames_of ((bs, broken) ∷ reads) events e = elim e [ ]
serve_upload-frames_of [] events e = elim e [ ]

-- A body that ends without a failure is relayed whole, where no send fails: the pod that holds the agent
-- sends it the same chunks as `streamUploadBody` would there, and goes on to await the result.
pub relay_upload_lem :
    (reads : List (Text × ReadError))
    → Ends reads
    → let (frames, result) = stream_upload_body to_peer reads [] in
      (result ≡ some none)
      × (serve_upload to_agent frames [] ≡ ((stream_upload_body to_agent reads []).0, forwarded))
relay_upload_lem reads e =
    rw (stream_upload_body-frames_of reads [] e) (refl, serve_upload-frames_of reads [] e)

-- A body that fails is not taken for a whole one: the frames that were sent have no last chunk among
-- them, so when the caller closes its side the relay ends as aborted.
IsPartial : List UploadReceived → Type 0
IsPartial [] = Unit
IsPartial (upload_frame piece true ∷ rest) = ⊥
IsPartial (upload_frame piece false ∷ rest) = IsPartial rest
IsPartial (upload_eof ∷ rest) = ⊥
IsPartial (upload_failed ∷ rest) = ⊥

serve_upload-IsPartial :
    (frames : List UploadReceived) (events : List UploadEvent)
    → IsPartial frames
    → (serve_upload to_agent (frames ++ upload_eof ∷ []) events).1 ≡ fails_with aborted
unfolding serve_upload IsPartial
serve_upload-IsPartial [] events p = refl
serve_upload-IsPartial (upload_frame piece true ∷ rest) events p = absurd p
serve_upload-IsPartial (upload_frame piece false ∷ rest) events p =
    serve_upload-IsPartial rest (events ++ chunk piece false ∷ []) p
serve_upload-IsPartial (upload_eof ∷ rest) events p = absurd p
serve_upload-IsPartial (upload_failed ∷ rest) events p = absurd p
