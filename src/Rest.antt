-- ===== src/Rest.antt =====
-- pkg/controller/api.go and fs.go: how the REST handlers reach an agent and how they put what it
-- answers into a response. A dispatch on a local connection and the relay to another pod are
-- parameters; so are the decoder of JSON and what a client's connection takes. A response is its
-- status and its body; the fixed texts of errors have no part.
pub mod Routing
pub mod Uploads
pub mod Downloads
pub mod Events
use hostlink.Prelude.{
  ℕ, Bool, true, false, not, ◌&&◌, ◌||◌, Option, none, some, List, [], ◌∷◌, ◌++◌, ◌==◌,
  if◌then◌else◌, Text, codes, take, nat_comparable, text_comparable, Result, ok, err,
}
use hostlink.Map.{get}
use hostlink.Registry.{Registry}
use hostlink.AgentConn.{AgentResult, StreamFrame}
use hostlink.Tunnel.{ReadError, no_error, at_eof, broken}

-- The errors of a dispatch that `mapDispatchError` tells apart.
pub data DispatchError : Type 0 where
  not_connected deadline_exceeded other_error : DispatchError

pub data Body : Type 0 where
  empty : Body
  payload error : Text → Body

pub record Response : Type 0 where
  pub status : ℕ
  pub body : Body

-- Where `dispatch`, `dispatchStream` and `dispatchUpload` send a request. The relay is none without a
-- peer plane; `located` is what `registry.locate` returns.
unfoldable pub dispatch :
    {A : Type 0}
    → (ℕ → Result DispatchError A)
    → Option (Text → Result DispatchError A)
    → Result DispatchError Text
    → Text
    → Registry
    → Result DispatchError A
dispatch local relay located agent r = elim (get r.agents agent) [
  | some conn ↦ local conn
  | none ↦ elim relay [
    | none ↦ err not_connected
    | some ask ↦ elim located [
      | err e ↦ err e
      | ok addr ↦ if addr == [] || addr == r.self_addr then err not_connected else ask addr
    ]
  ]
]

-- `mapDispatchError`
unfoldable pub map_dispatch_error : DispatchError → ℕ
map_dispatch_error not_connected = 404
map_dispatch_error deadline_exceeded = 504
map_dispatch_error other_error = 502

body_of : Text → Text → Body
body_of (b ∷ bs) msg = payload (b ∷ bs)
body_of [] (b ∷ bs) = error (b ∷ bs)
body_of [] [] = empty

-- `respondAgentResult`
unfoldable pub respond_agent_result : AgentResult → Response
unfolding body_of
respond_agent_result r = record {
  status = if r.code == 0 then 502 else r.code;
  body = body_of r.payload r.error;
}

unfoldable pub respond : Result DispatchError AgentResult → Response
unfolding map_dispatch_error respond_agent_result
respond (ok r) = respond_agent_result r
respond (err e) = record { status = map_dispatch_error e; body = error [] }

-- What `fsGet` does: it responds, or it goes on to stream the file.
pub data FsGet : Type 0 where
  responds : Response → FsGet
  downloads : FsGet

-- `fsGet`: the answers to `fs.stat` and `fs.list`, whether the decoded entry is a directory, none
-- where it cannot be decoded, and whether the client accepts JSON.
unfoldable pub fs_get :
    (Text → Option Bool)
    → Result DispatchError AgentResult
    → Result DispatchError AgentResult
    → Bool
    → FsGet
unfolding respond
fs_get decode (err e) list accepts_json = responds (respond (err e))
fs_get decode (ok stat) list accepts_json =
    if not (stat.code == 200)
    then responds (respond_agent_result stat)
    else elim (decode stat.payload) [
      | none ↦ responds (record { status = 502; body = error [] })
      | some true ↦ responds (respond list)
      | some false ↦ if accepts_json then responds (respond_agent_result stat) else downloads
    ]

-- What the `select` of `consumeStream` sees: the context's end, a frame, or the agent's disconnect
-- with the frames that were delivered before it and are not read yet.
pub data StreamEvent : Type 0 where
  context_done : StreamEvent
  frame : StreamFrame → StreamEvent
  disconnected : List StreamFrame → StreamEvent

-- How `consumeStream` ends, or that it waits for the next event.
pub data StreamEnd : Type 0 where
  waiting cancelled finished aborted : StreamEnd

module _ {S : Type 0} (on_frame : StreamFrame → S → S × Bool) (on_abort : S → S) where
  abbrev pub after_frame : S × Bool → (S → S × StreamEnd) → S × StreamEnd
  after_frame (s, true) more = (s, finished)
  after_frame (s, false) more = more s

  -- The inner loop of `consumeStream`, on the frames that are already delivered.
  unfoldable pub drain : List StreamFrame → S → S × StreamEnd
  drain [] s = (on_abort s, aborted)
  drain (f ∷ fs) s = after_frame (on_frame f s) (λ s'. drain fs s')

  -- `consumeStream`
  unfoldable pub consume_stream : List StreamEvent → S → S × StreamEnd
  unfolding drain
  consume_stream [] s = (s, waiting)
  consume_stream (context_done ∷ events) s = (s, cancelled)
  consume_stream (frame f ∷ events) s = after_frame (on_frame f s) (λ s'. consume_stream events s')
  consume_stream (disconnected frames ∷ events) s = drain frames s

module _ {S : Type 0} (send : Text → Bool → S → S × Option DispatchError) where
  send_data : Text → S → S × Option DispatchError
  send_data [] s = (s, none)
  send_data (b ∷ bs) s = send (b ∷ bs) false s

  -- One round of `streamUploadBody` once the bytes that were read are sent. The result is none while
  -- it reads, else the error, if any.
  after_read :
      ReadError
      → S × Option DispatchError
      → (S → S × Option (Option DispatchError))
      → S × Option (Option DispatchError)
  after_read e (s, some failure) more = (s, some (some failure))
  after_read no_error (s, none) more = more s
  after_read broken (s, none) more = (s, some (some other_error))
  after_read at_eof (s, none) more = let sent = send [] true s in (sent.0, some sent.1)

  -- `streamUploadBody`, on what each `Read` of the body returns.
  unfoldable pub stream_upload_body :
      List (Text × ReadError) → S → S × Option (Option DispatchError)
  unfolding send_data after_read
  stream_upload_body [] s = (s, none)
  stream_upload_body ((bs, e) ∷ reads) s =
      after_read e (send_data bs s) (λ s'. stream_upload_body reads s')

-- A client's connection: how many bytes of a write it takes after those that it has, and whether the
-- write succeeds.
abbrev pub Client : Type 0
Client = Text → Text → ℕ × Bool

-- The response of `streamDownload`: its status, none before it is set, the bytes that were written,
-- and the text of the error where the body is one.
pub record Download : Type 0 where
  pub header_written : Bool
  pub status : Option ℕ
  pub written : Text
  pub error : Option Text

abbrev pub no_download : Download
no_download = record { header_written = false; status = none; written = []; error = none }

-- `writeHeader`, unless it is written.
abbrev pub write_header : Download → Download
write_header d =
    if d.header_written then d else record d { header_written = true; status = some 200 }

-- `emit` of `streamDownload`
unfoldable pub download_frame : Client → StreamFrame → Download → Download × Bool
download_frame client f d =
    if f.final
    then (
      (if not d.header_written && not (f.code == 0) && not (f.code == 200)
          then record d { status = some f.code; error = some f.error }
          else write_header d),
      true,
    )
    else (let (n, success) = client d.written f.payload in
        (record (write_header d) { written = d.written ++ take n f.payload }, not success))

-- What `streamDownload` does when the agent disconnects.
unfoldable pub download_abort : Download → Download
download_abort d = if d.header_written then d else record d { status = some 502; error = some [] }

-- `streamDownload` once the stream is open.
unfoldable pub stream_download : Client → List StreamEvent → Download × StreamEnd
unfolding consume_stream download_frame download_abort
stream_download client events =
    consume_stream (download_frame client) download_abort events no_download

-- The events that `serveSSEStream` writes.
pub data ServerEvent : Type 0 where
  progress : Text → ServerEvent
  done_frame : ℕ → Text → ServerEvent

-- `emit` of `serveSSEStream`, for a client that takes each event or is gone; the events are listed
-- with the last one first.
unfoldable pub sse_frame :
    (List ServerEvent → Bool) → StreamFrame → List ServerEvent → List ServerEvent × Bool
sse_frame takes f events =
    if f.final
    then (done_frame f.code f.error ∷ events, true)
    else if takes events
    then (progress f.payload ∷ events, false)
    else (events, true)

-- `serveSSEStream` once the header is written.
unfoldable pub serve_sse_stream :
    (List ServerEvent → Bool) → List StreamEvent → List ServerEvent × StreamEnd
unfolding consume_stream sse_frame
serve_sse_stream takes events =
    consume_stream (sse_frame takes) (λ sent. done_frame 0 (codes "agent disconnected") ∷ sent)
      events []
