-- ===== src/Peers.antt =====
-- pkg/controller/peer.go: the relay of requests between the replicas, `peerServer` at the pod that
-- holds an agent and `peerClients` at the one that asks. What gRPC answers is a parameter or a script.
pub mod Streams
pub mod Uploads
pub mod Connections
use hostlink.Prelude.{
  ℕ, suc, Bool, true, false, not, ◌&&◌, Option, none, some, List, [], ◌∷◌, ◌++◌, ◌==◌,
  if◌then◌else◌, Text, Result, ok, err, nat_comparable, text_comparable,
}
use hostlink.Map.{Map, get, put}
use hostlink.AgentConn.{AgentResult, StreamFrame}
use hostlink.Rest.{
  DispatchError, not_connected, other_error, StreamEvent, context_done, frame, disconnected,
}

-- The gRPC codes that the relay tells apart.
pub data Code : Type 0 where
  failed_precondition invalid_argument aborted internal : Code

-- The errors of a dispatch on the connection of an agent.
pub data ConnError : Type 0 where
  agent_disconnected conn_failed : ConnError

-- The code that a failed dispatch is reported with.
unfoldable pub code_of : ConnError → Code
code_of agent_disconnected = failed_precondition
code_of conn_failed = internal

-- `peerServer.Dispatch`
unfoldable pub serve_dispatch : {A : Type 0} → Option ℕ → (ℕ → Result ConnError A) → Result Code A
unfolding code_of
serve_dispatch none run = err failed_precondition
serve_dispatch (some conn) run = elim (run conn) [ ok a ↦ ok a | err e ↦ err (code_of e) ]

-- A code of a sibling, as the caller sees it.
unfoldable pub normalized : Code → DispatchError
normalized failed_precondition = not_connected
normalized _ = other_error

-- `peerClients.dispatch`, once it has a connection.
unfoldable pub relay_dispatch : {A : Type 0} → Result Code A → Result DispatchError A
unfolding normalized
relay_dispatch (ok a) = ok a
relay_dispatch (err code) = err (normalized code)

-- How `peerServer.DispatchStream` ends, or that it waits for the next event.
pub data RelayEnd : Type 0 where
  relaying context_ended send_failed final_sent agent_lost : RelayEnd

module _ (sends : List StreamFrame → StreamFrame → Bool) where
  abbrev pub forward_frame :
      StreamFrame
      → List StreamFrame
      → (List StreamFrame → List StreamFrame × RelayEnd)
      → List StreamFrame × RelayEnd
  forward_frame f out more =
      let out' = out ++ f ∷ [] in
      let rest = more out' in
      if not (sends out f) then (out, send_failed) else if f.final then (out', final_sent) else rest

  -- The inner loop of `peerServer.DispatchStream`, on the frames that are already delivered.
  unfoldable pub drain_frames : List StreamFrame → List StreamFrame → List StreamFrame × RelayEnd
  drain_frames [] out = (out, agent_lost)
  drain_frames (f ∷ fs) out = forward_frame f out (λ out'. drain_frames fs out')

  -- The loop of `peerServer.DispatchStream`: the frames that were sent, and how it ended.
  unfoldable pub serve_stream : List StreamEvent → List StreamFrame → List StreamFrame × RelayEnd
  unfolding drain_frames
  serve_stream [] out = (out, relaying)
  serve_stream (context_done ∷ events) out = (out, context_ended)
  serve_stream (frame f ∷ events) out = forward_frame f out (λ out'. serve_stream events out')
  serve_stream (disconnected frames ∷ events) out = drain_frames frames out

-- The goroutine of `peerClients.dispatchStream`, on the frames that it receives before the stream
-- ends, each with whether the channel takes it before the caller's context ends: what it puts on the
-- channel.
unfoldable pub relay_stream : List (StreamFrame × Bool) → List StreamFrame
relay_stream [] = []
relay_stream ((f, taken) ∷ rest) =
    let more = relay_stream rest in if not taken then [] else if f.final then f ∷ [] else f ∷ more

-- What `peerServer.Upload` receives: a frame, the end of the caller's side, or a failure.
pub data UploadReceived : Type 0 where
  upload_frame : Text → Bool → UploadReceived
  upload_eof upload_failed : UploadReceived

-- How the loop of `peerServer.Upload` ends: it waits, it goes on to await the result, or it fails.
pub data UploadEnd : Type 0 where
  receiving forwarded : UploadEnd
  fails_with : Code → UploadEnd

module _ {S : Type 0} (send_chunk : Text → Bool → S → S × Option DispatchError) where
  after_chunk : Bool → S × Option DispatchError → (S → S × UploadEnd) → S × UploadEnd
  after_chunk last (s, some e) more = (s, fails_with internal)
  after_chunk true (s, none) more = (s, forwarded)
  after_chunk false (s, none) more = more s

  -- The loop of `peerServer.Upload`, after the opening frame.
  unfoldable pub serve_upload : List UploadReceived → S → S × UploadEnd
  unfolding after_chunk
  serve_upload [] s = (s, receiving)
  serve_upload (upload_eof ∷ rest) s = (s, fails_with aborted)
  serve_upload (upload_failed ∷ rest) s = (s, fails_with internal)
  serve_upload (upload_frame piece last ∷ rest) s =
      after_chunk last (send_chunk piece last s) (λ s'. serve_upload rest s')

-- `peerClients`: the connections by address; a connection is named by a number.
pub record PeerClients : Type 0 where
  pub conns : Map Text ℕ
  pub dialled : ℕ

abbrev pub new_peer_clients : PeerClients
new_peer_clients = record { conns = []; dialled = 0 }

-- `conn`; whether `grpc.NewClient` accepts the address is the first argument.
unfoldable pub conn : (Text → Bool) → Text → PeerClients → PeerClients × Option ℕ
conn dials addr p = elim (get p.conns addr) [
  | some c ↦ (p, some c)
  | none ↦
      if dials addr
      then (record { conns = put p.conns addr p.dialled; dialled = suc p.dialled }, some p.dialled)
      else (p, none)
]

-- `close`: the connections that it closes.
unfoldable pub close : PeerClients → PeerClients × Map Text ℕ
close p = (record p { conns = [] }, p.conns)
