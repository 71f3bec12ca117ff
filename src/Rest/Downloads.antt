-- ===== src/Rest/Downloads.antt =====
-- pkg/agent/fs.go, `readFile`, with pkg/controller/fs.go, `streamDownload`: the file becomes the body
-- of the response.
use mathlib.Core.List.{append_assoc, append-nil}
use hostlink.Prelude.{
  ℕ, ◌≡◌, ◌≢◌, refl, sym, ap, ◌∙◌, subst, true, false, none, some, List, [], ◌∷◌, ◌++◌, Text, arith,
  ◌==◌, nat_comparable, text_comparable, length, ℕ_discrete, take-length, if◌then◌else◌,
}
use hostlink.AgentFs.{ReadRound, ReadOut, cons_chunk, end_read, read_loop}
use hostlink.Tunnel.{ReadError, no_error, at_eof, broken}
use hostlink.Tunnel.Bytes.{Ends, content, concat}
use hostlink.Rest.{
  StreamEvent, frame, StreamEnd, finished, consume_stream, Client, Download, download_frame,
  download_abort, stream_download,
}

-- The rounds of `readFile` for these reads, in a context that does not end and on a Control stream
-- that does not fail.
abbrev pub rounds_of : List (Text × ReadError) → List ReadRound
rounds_of [] = []
rounds_of ((bs, e) ∷ reads) =
    record { cancelled = false; piece = bs; error = e; sent = true } ∷ rounds_of reads

-- The frames that `handleRead` sends, as `streamDownload` sees them.
abbrev pub delivered : List Text → ℕ → Text → List StreamEvent
delivered [] code message =
    frame (record { payload = []; code = code; error = message; final = true }) ∷ []
delivered (p ∷ ps) code message =
    frame (record { payload = p; code = 0; error = []; final = false }) ∷ delivered ps code message

-- A client that takes every write whole.
abbrev pub patient : Client
patient written piece = (length piece, true)

-- The reads end with a failure.
abbrev pub Breaks : List (Text × ReadError) → Type 0
Breaks [] = ⊥
Breaks ((bs, no_error) ∷ reads) = Breaks reads
Breaks ((bs, at_eof) ∷ reads) = ⊥
Breaks ((bs, broken) ∷ reads) = Unit

abbrev pub begun : Text → Download
begun written = record { header_written = true; status = some 200; written = written; error = none }

stream_begun :
    (ps : List Text) (code : ℕ) (message written : Text)
    → consume_stream
        (download_frame patient)
        download_abort
        (delivered ps code message)
        (begun written)
      ≡ (begun (written ++ concat ps), finished)
unfolding consume_stream download_frame concat
stream_begun [] code message written = rw (append-nil written) refl
stream_begun (p ∷ ps) code message written =
    rw
      (
        take-length p,
        stream_begun ps code message (written ++ p),
        append_assoc written p (concat ps),
      )
      refl

-- The first frame decides on the status.
stream_chunks :
    (p : Text) (ps : List Text) (code : ℕ) (message : Text)
    → stream_download patient (delivered (p ∷ ps) code message)
      ≡ (begun (concat (p ∷ ps)), finished)
unfolding stream_download concat
stream_chunks p ps code message = rw (take-length p, stream_begun ps code message p) refl

abbrev pub no_body : ℕ → Text → Download
no_body code message = record {
  header_written = false;
  status = some code;
  written = [];
  error = some message;
}

abbrev chunks_of : List (Text × ReadError) → List Text
chunks_of reads = (read_loop (rounds_of reads)).chunks

concat-cons_chunk :
    (bs : Text) (r : ReadOut) → concat (cons_chunk bs r).chunks ≡ bs ++ concat r.chunks
unfolding concat
concat-cons_chunk [] r = refl
concat-cons_chunk (b ∷ bs) r = refl

code-cons_chunk : (bs : Text) (r : ReadOut) → (cons_chunk bs r).code ≡ r.code
code-cons_chunk [] r = refl
code-cons_chunk (b ∷ bs) r = refl

round :
    (bs : Text) (e : ReadError) (reads : List (Text × ReadError))
    → read_loop (rounds_of ((bs, e) ∷ reads))
      ≡ cons_chunk bs (elim e [
        | no_error ↦ read_loop (rounds_of reads)
        | at_eof ↦ end_read 200
        | broken ↦ end_read 500
      ])
unfolding read_loop
round [] e reads = ground arith
round (b ∷ bs) e reads = ground arith

concat_nothing : concat (chunks_of []) ≡ []
unfolding concat read_loop
concat_nothing = refl

nothing_more : (bs : Text) → bs ++ concat [] ≡ bs
unfolding concat
nothing_more bs = append-nil bs

-- The chunks of one more read.
concat-round :
    (bs : Text) (e : ReadError) (reads : List (Text × ReadError)) (more : ReadOut)
    → read_loop (rounds_of ((bs, e) ∷ reads)) ≡ cons_chunk bs more
    → concat (chunks_of ((bs, e) ∷ reads)) ≡ bs ++ concat more.chunks
concat-round bs e reads more h = ap (λ r. concat (ReadOut.chunks r)) h ∙ concat-cons_chunk bs more

concat-chunks_of : (reads : List (Text × ReadError)) → concat (chunks_of reads) ≡ content reads
unfolding content
concat-chunks_of [] = concat_nothing
concat-chunks_of ((bs, no_error) ∷ reads) =
    concat-round bs no_error reads (read_loop (rounds_of reads)) (round bs no_error reads)
    ∙ ap (λ t. bs ++ t) (concat-chunks_of reads)
concat-chunks_of ((bs, at_eof) ∷ reads) =
    concat-round bs at_eof reads (end_read 200) (round bs at_eof reads) ∙ nothing_more bs
concat-chunks_of ((bs, broken) ∷ reads) =
    concat-round bs broken reads (end_read 500) (round bs broken reads) ∙ nothing_more bs

code-Ends :
    (reads : List (Text × ReadError)) → Ends reads → (read_loop (rounds_of reads)).code ≡ some 200
code-Ends [] e = elim e [ ]
code-Ends ((bs, no_error) ∷ reads) e =
    rw (round bs no_error reads, code-cons_chunk bs (read_loop (rounds_of reads)))
      (code-Ends reads e)
code-Ends ((bs, at_eof) ∷ reads) e =
    rw (round bs at_eof reads, code-cons_chunk bs (end_read 200)) refl
code-Ends ((bs, broken) ∷ reads) e = elim e [ ]

code-Breaks :
    (reads : List (Text × ReadError)) → Breaks reads → (read_loop (rounds_of reads)).code ≡ some 500
code-Breaks [] e = elim e [ ]
code-Breaks ((bs, no_error) ∷ reads) e =
    rw (round bs no_error reads, code-cons_chunk bs (read_loop (rounds_of reads)))
      (code-Breaks reads e)
code-Breaks ((bs, at_eof) ∷ reads) e = elim e [ ]
code-Breaks ((bs, broken) ∷ reads) e =
    rw (round bs broken reads, code-cons_chunk bs (end_read 500)) refl

-- What the client gets for a list of chunks and a code other than 0.
abbrev Answer : List Text → ℕ → Text → Download × StreamEnd → Type 0
Answer [] code message r = r ≡ (if code == 200 then begun [] else no_body code message, finished)
Answer (p ∷ ps) code message r = r ≡ (begun (concat (p ∷ ps)), finished)

stream_download-Answer :
    (ps : List Text) (code : ℕ) (message : Text)
    → code ≢ 0
    → Answer ps code message (stream_download patient (delivered ps code message))
unfolding stream_download consume_stream download_frame
stream_download-Answer [] code message n = ground (arith, n)
stream_download-Answer (p ∷ ps) code message n = stream_chunks p ps code message

chunks_of-full :
    (reads : List (Text × ReadError)) → (ps : List Text) → chunks_of reads ≡ [] ∷ ps → ⊥
unfolding read_loop
chunks_of-full [] ps h = absurd cc
chunks_of-full (([], no_error) ∷ reads) ps h =
    chunks_of-full reads ps (sym (ap (λ r. ReadOut.chunks r) (round [] no_error reads)) ∙ h)
chunks_of-full ((b ∷ bs, no_error) ∷ reads) ps h =
    let e = sym (ap (λ r. ReadOut.chunks r) (round (b ∷ bs) no_error reads)) ∙ h in absurd cc
chunks_of-full (([], at_eof) ∷ reads) ps h =
    let e = sym (ap (λ r. ReadOut.chunks r) (round [] at_eof reads)) ∙ h in absurd cc
chunks_of-full ((b ∷ bs, at_eof) ∷ reads) ps h =
    let e = sym (ap (λ r. ReadOut.chunks r) (round (b ∷ bs) at_eof reads)) ∙ h in absurd cc
chunks_of-full (([], broken) ∷ reads) ps h =
    let e = sym (ap (λ r. ReadOut.chunks r) (round [] broken reads)) ∙ h in absurd cc
chunks_of-full ((b ∷ bs, broken) ∷ reads) ps h =
    let e = sym (ap (λ r. ReadOut.chunks r) (round (b ∷ bs) broken reads)) ∙ h in absurd cc

-- The response, by the bytes that were read before the end.
abbrev Seen : Text → ℕ → Text → Download × StreamEnd → Type 0
Seen [] code message r = r ≡ (if code == 200 then begun [] else no_body code message, finished)
Seen (b ∷ bs) code message r = r ≡ (begun (b ∷ bs), finished)

Answer-Seen :
    (reads : List (Text × ReadError)) (ps : List Text) (code : ℕ) (message : Text)
    (r : Download × StreamEnd)
    → chunks_of reads ≡ ps
    → Answer ps code message r
    → Seen (concat ps) code message r
unfolding concat
Answer-Seen reads [] code message r h a = a
Answer-Seen reads ([] ∷ ps) code message r h a = absurd (chunks_of-full reads ps h)
Answer-Seen reads ((b ∷ bs) ∷ ps) code message r h a = a

stream_download-Seen :
    (reads : List (Text × ReadError)) (code : ℕ) (message : Text)
    → code ≢ 0
    → Seen
        (content reads)
        code
        message
        (stream_download patient (delivered (chunks_of reads) code message))
stream_download-Seen reads code message n =
    subst
      (λ t.
        Seen t code message (stream_download patient (delivered (chunks_of reads) code message)))
      (concat-chunks_of reads)
      (Answer-Seen reads (chunks_of reads) code message _ refl
        (stream_download-Answer (chunks_of reads) code message n))

Seen-begun :
    (bytes : Text) (message : Text) (r : Download × StreamEnd)
    → Seen bytes 200 message r
    → r ≡ (begun bytes, finished)
unfolding ℕ_discrete
Seen-begun [] message r s = s
Seen-begun (b ∷ bs) message r s = s

Seen-broken :
    (bytes : Text) (message : Text) (r : Download × StreamEnd)
    → Seen bytes 500 message r
    → (r.1 ≡ finished) × (bytes ≡ [] → r.0 ≡ no_body 500 message) × (bytes ≢ [] → r.0 ≡ begun bytes)
unfolding ℕ_discrete
Seen-broken [] message r s = (ap (λ x. x.1) s, λ e. ap (λ x. x.0) s, λ n. absurd (n refl))
Seen-broken (b ∷ bs) message r s = (ap (λ x. x.1) s, λ e. absurd cc, λ n. ap (λ x. x.0) s)

-- End to end, for a client that takes every write, however the reads cut the file: a file that is read
-- to its end becomes a response with the status 200 and exactly its bytes, and the stream finishes.
pub download_roundtrip :
    (reads : List (Text × ReadError)) (message : Text)
    → Ends reads
    → let out = read_loop (rounds_of reads) in
      (out.code ≡ some 200)
      × (stream_download patient (delivered out.chunks 200 message)
          ≡ (begun (content reads), finished))
download_roundtrip reads message e = (
  code-Ends reads e,
  Seen-begun (content reads) message _ (stream_download-Seen reads 200 message (ground arith)),
)

-- A read that fails ends the download, for a client that takes every write: where no byte was read the
-- response has the status 500 and the error; where one was, it has the status 200 and the bytes that
-- were read, and finishes like that of a whole file.
pub broken_download_lem :
    (reads : List (Text × ReadError)) (message : Text)
    → Breaks reads
    → let out = read_loop (rounds_of reads) in
      let r = stream_download patient (delivered out.chunks 500 message) in
      (out.code ≡ some 500)
      × (r.1 ≡ finished)
      × (content reads ≡ [] → r.0 ≡ no_body 500 message)
      × (content reads ≢ [] → r.0 ≡ begun (content reads))
broken_download_lem reads message b =
    let (f, none_read, some_read) =
      Seen-broken (content reads) message _
        (stream_download-Seen reads 500 message (ground arith)) in
    (code-Breaks reads b, f, none_read, some_read)
