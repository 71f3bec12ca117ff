-- ===== src/Rest/Uploads.antt =====
-- pkg/controller/api.go, `streamUploadBody`, with pkg/agent/fs.go, `writeFile`: the body of an upload
-- becomes the file.
use mathlib.Core.List.{append_assoc, append-nil}
use hostlink.Prelude.{
  ℕ, ◌≡◌, ◌≢◌, refl, ap, ◌∙◌, Bool, true, false, Option, none, some, List, [], ◌∷◌, ◌++◌, Text, ok,
  ◌⊎◌,
}
use hostlink.AgentFs.{Os, resolve, UploadEvent, chunk, write_file}
use hostlink.AgentFs.Answers.{IsConcluded, IsAnswered, write_file-IsAnswered}
use hostlink.AgentFs.Upload.{FileLaws, RemoveFailed, uploaded, Finished, write_file_lem}
use hostlink.Tunnel.{ReadError, no_error, at_eof, broken}
use hostlink.Tunnel.Bytes.{Ends, content}
use hostlink.Rest.{DispatchError, stream_upload_body}

-- `sendChunk` on a Control stream that does not fail: the agent's handler sees the chunk next.
abbrev pub to_agent : Text → Bool → List UploadEvent → List UploadEvent × Option DispatchError
to_agent piece last events = (events ++ chunk piece last ∷ [], none)

-- The chunks of a body.
data_chunk : Text → List UploadEvent → List UploadEvent
data_chunk [] events = events
data_chunk (b ∷ bs) events = chunk (b ∷ bs) false ∷ events

chunks_of : List (Text × ReadError) → List UploadEvent
unfolding data_chunk
chunks_of [] = []
chunks_of ((bs, no_error) ∷ reads) = data_chunk bs (chunks_of reads)
chunks_of ((bs, at_eof) ∷ reads) = data_chunk bs (chunk [] true ∷ [])
chunks_of ((bs, broken) ∷ reads) = data_chunk bs []

stream_upload_body-chunks_of :
    (reads : List (Text × ReadError)) (events : List UploadEvent)
    → Ends reads
    → stream_upload_body to_agent reads events ≡ (events ++ chunks_of reads, some none)
unfolding stream_upload_body chunks_of
stream_upload_body-chunks_of (([], no_error) ∷ reads) events e =
    stream_upload_body-chunks_of reads events e
stream_upload_body-chunks_of ((b ∷ bs, no_error) ∷ reads) events e =
    rw (stream_upload_body-chunks_of reads (events ++ chunk (b ∷ bs) false ∷ []) e)
      (rw (append_assoc events (chunk (b ∷ bs) false ∷ [])) refl)
stream_upload_body-chunks_of (([], at_eof) ∷ reads) events e = refl
stream_upload_body-chunks_of ((b ∷ bs, at_eof) ∷ reads) events e =
    rw (append_assoc events (chunk (b ∷ bs) false ∷ [])) refl
stream_upload_body-chunks_of ((bs, broken) ∷ reads) events e = elim e [ ]
stream_upload_body-chunks_of [] events e = elim e [ ]

uploaded-chunks_of :
    (reads : List (Text × ReadError)) → Ends reads → uploaded (chunks_of reads) ≡ content reads
unfolding uploaded chunks_of content
uploaded-chunks_of (([], no_error) ∷ reads) e = uploaded-chunks_of reads e
uploaded-chunks_of ((b ∷ bs, no_error) ∷ reads) e =
    ap (λ t. b ∷ (bs ++ t)) (uploaded-chunks_of reads e)
uploaded-chunks_of (([], at_eof) ∷ reads) e = refl
uploaded-chunks_of ((b ∷ bs, at_eof) ∷ reads) e = append-nil (b ∷ bs)
uploaded-chunks_of ((bs, broken) ∷ reads) e = elim e [ ]
uploaded-chunks_of [] e = elim e [ ]

chunks_of-IsConcluded :
    (reads : List (Text × ReadError)) → Ends reads → IsConcluded (chunks_of reads)
unfolding chunks_of
chunks_of-IsConcluded (([], no_error) ∷ reads) e = chunks_of-IsConcluded reads e
chunks_of-IsConcluded ((b ∷ bs, no_error) ∷ reads) e = chunks_of-IsConcluded reads e
chunks_of-IsConcluded (([], at_eof) ∷ reads) e = tt
chunks_of-IsConcluded ((b ∷ bs, at_eof) ∷ reads) e = tt
chunks_of-IsConcluded ((bs, broken) ∷ reads) e = elim e [ ]
chunks_of-IsConcluded [] e = elim e [ ]

module _ {S : Type 0} (os : Os S) (files : S → Text → Option Text) (laws : FileLaws os files) where
  -- How an upload of these bytes ends, for a file that held `before`.
  unfoldable pub Uploaded : Text → Option Text → Bool → Text → S × Option ℕ → Type 0
  Uploaded full before exclusive bytes (s, none) = ⊥
  Uploaded full before exclusive bytes (s, some code) =
      (code ≡ 201 → (files s full ≡ some bytes) × (exclusive ≡ true → before ≡ none))
      × (code ≢ 201
          → (files s full ≡ none) ⊎ (files s full ≡ before) ⊎ RemoveFailed os files laws full s)

  Finished-Uploaded :
      (full : Text) (before : Option Text) (exclusive : Bool) (events : List UploadEvent)
      (bytes : Text) (r : S × Option ℕ)
      → uploaded events ≡ bytes
      → IsAnswered r
      → Finished os files laws full before exclusive events r
      → Uploaded full before exclusive bytes r
  unfolding Finished Uploaded
  Finished-Uploaded full before exclusive events bytes (s, none) e answered f = answered
  Finished-Uploaded full before exclusive events bytes (s, some code) e answered f =
      (λ h. ((f.0 h).0 ∙ ap some e, (f.0 h).1), f.1)

  -- End to end, for a body that ends without a failure, however its reads cut it: `streamUploadBody`
  -- sends all of it, `writeFile` answers, and if the answer is 201 the file holds exactly the bytes of
  -- the body, and an exclusive upload has made a new file; with any other answer the file is gone, or
  -- as it was, or the removal of the unfinished file has failed.
  pub upload_roundtrip :
      (data_dir path full : Text) (exclusive : Bool) (reads : List (Text × ReadError)) (s : S)
      → resolve data_dir path ≡ ok full
      → Ends reads
      → let (events, result) = stream_upload_body to_agent reads [] in
        (result ≡ some none)
        × Uploaded full
            (files s full)
            exclusive
            (content reads)
            (write_file os data_dir (some (path, exclusive)) events s)
  upload_roundtrip data_dir path full exclusive reads s h e =
      rw (stream_upload_body-chunks_of reads [] e) (
        refl,
        Finished-Uploaded full (files s full) exclusive (chunks_of reads) (content reads) _
            (uploaded-chunks_of reads e)
            (write_file-IsAnswered os data_dir path full exclusive (chunks_of reads) s h
              (chunks_of-IsConcluded reads e))
            (write_file_lem os files laws data_dir path full exclusive (chunks_of reads) s h),
      )
