-- ===== src/Tunnel.antt =====
-- pkg/tunnel/splice.go: the byte pipe between a TCP connection and a stream of frames, and the relay
-- between two streams. What a peer sends, and how the operating system answers, comes as a script.
pub mod Relay
pub mod Bytes
use hostlink.Prelude.{
  ℕ, Bool, true, false, not, ◌&&◌, Option, none, some, List, [], ◌∷◌, ◌++◌, if◌then◌else◌, Text,
  take, drop, ◌==◌, nat_comparable,
}

-- `Frame_Type`; `unknown` is any number that the enum does not have.
pub data FrameType : Type 0 where
  opening bytes half_close reset ready : FrameType
  unknown : ℕ → FrameType

-- `Frame`: its type and its data.
pub data Frame : Type 0 where
  msg : FrameType → Text → Frame

abbrev pub control : FrameType → Frame
control t = msg t []

-- What one `Recv` returns.
pub data Received : Type 0 where
  frame : Frame → Received
  eof failed : Received

pub data SpliceError : Type 0 where
  tunnel_reset receive_failed unknown_frame frame_after_half_close : SpliceError
  send_failed send_reset_failed read_failed write_failed short_write close_write_failed :
      SpliceError

-- Where a direction stands when its script is used up: it waits in `Recv`, or it has returned its
-- joined errors (none of them is Go's nil).
pub data Outcome : Type 0 where
  waiting : Outcome
  returned : List SpliceError → Outcome

-- The frames that were sent, oldest first, and the outcome.
pub record Spliced : Type 0 where
  pub out : List Frame
  pub outcome : Outcome

-- Whether `Send` takes a frame after those that it has taken.
abbrev pub Sender : Type 0
Sender = List Frame → Frame → Bool

-- `sendReset`
abbrev pub send_reset : Sender → List Frame → SpliceError → Spliced
send_reset accepts out cause =
    if accepts out (control reset)
    then record { out = out ++ control reset ∷ []; outcome = returned (cause ∷ []) }
    else record { out = out; outcome = returned (cause ∷ send_reset_failed ∷ []) }

-- Sends the frame and goes on, or gives up if the send fails.
abbrev pub relay_frame : Sender → List Frame → Frame → Spliced → Spliced
relay_frame accepts out f more =
    if accepts out f then more else record { out = out; outcome = returned (send_failed ∷ []) }

abbrev pub relay_reset : Sender → List Frame → Spliced
relay_reset accepts out =
    if accepts out (control reset)
    then record { out = out ++ control reset ∷ []; outcome = returned (tunnel_reset ∷ []) }
    else record { out = out; outcome = returned (tunnel_reset ∷ send_failed ∷ []) }

-- The loop of `spliceStreamDirection` on what `source.Recv` returns; the Boolean is `halfClosed`.
unfoldable pub direction : Sender → List Received → Bool → List Frame → Spliced
direction accepts [] half_closed out = record { out = out; outcome = waiting }
direction accepts (eof ∷ rest) true out = record { out = out; outcome = returned [] }
direction accepts (eof ∷ rest) false out = send_reset accepts out receive_failed
direction accepts (failed ∷ rest) half_closed out = send_reset accepts out receive_failed
direction accepts (frame (msg reset p) ∷ rest) half_closed out = relay_reset accepts out
direction accepts (frame (msg t p) ∷ rest) true out = send_reset accepts out frame_after_half_close
direction accepts (frame (msg bytes p) ∷ rest) false out =
    let more = direction accepts rest false (out ++ msg bytes p ∷ []) in
    relay_frame accepts out (msg bytes p) more
direction accepts (frame (msg half_close p) ∷ rest) false out =
    let more = direction accepts rest true (out ++ control half_close ∷ []) in
    relay_frame accepts out (control half_close) more
direction accepts (frame (msg opening p) ∷ rest) false out = direction accepts rest false out
direction accepts (frame (msg ready p) ∷ rest) false out = direction accepts rest false out
direction accepts (frame (msg (unknown n) p) ∷ rest) false out =
    send_reset accepts out unknown_frame

-- What one `conn.Read` returns: the bytes, and the error if any.
pub data ReadError : Type 0 where
  no_error at_eof broken : ReadError

-- How a worker of `SpliceConn` ends: by itself, or by `fail` or `reset`, which close the connection.
pub data Verdict : Type 0 where
  running finished : Verdict
  fails resets : SpliceError → Verdict

pub record Pumped : Type 0 where
  pub out : List Frame
  pub verdict : Verdict

-- `spliceConnToStream` on what `conn.Read` returns. The reset frame of `resets` is sent by `reset`.
unfoldable pub conn_to_stream : Sender → List (Text × ReadError) → List Frame → Pumped
conn_to_stream accepts [] out = record { out = out; verdict = running }
conn_to_stream accepts (([], no_error) ∷ rest) out = conn_to_stream accepts rest out
conn_to_stream accepts (([], at_eof) ∷ rest) out =
    if accepts out (control half_close)
    then record { out = out ++ control half_close ∷ []; verdict = finished }
    else record { out = out; verdict = fails send_failed }
conn_to_stream accepts (([], broken) ∷ rest) out = record {
  out = out;
  verdict = resets read_failed;
}
conn_to_stream accepts ((b ∷ bs, e) ∷ rest) out =
    let f = msg bytes (b ∷ bs) in
    let out' = out ++ f ∷ [] in
    let more = conn_to_stream accepts rest out' in
    if accepts out f
    then elim e [
      | no_error ↦ more
      | at_eof ↦
          if accepts out' (control half_close)
          then record { out = out' ++ control half_close ∷ []; verdict = finished }
          else record { out = out'; verdict = fails send_failed }
      | broken ↦ record { out = out'; verdict = resets read_failed }
    ]
    else record { out = out; verdict = fails send_failed }

-- How `writeFrameData` ends.
pub data Written : Type 0 where
  all_written blocked : Written
  write_error : SpliceError → Written

-- The loop of `writeFrameData` on what `conn.Write` returns, a count and whether it succeeded: the
-- bytes that were written, and how the loop ended.
unfoldable pub write_frame_data : List (ℕ × Bool) → Text → Text × Written
write_frame_data script [] = ([], all_written)
write_frame_data [] (b ∷ data_left) = ([], blocked)
write_frame_data ((n, success) ∷ script) (b ∷ data_left) =
    let written = take n (b ∷ data_left) in
    let rest = write_frame_data script (drop n (b ∷ data_left)) in
    if success
    then (if n == 0 then (written, write_error short_write) else (written ++ rest.0, rest.1))
    else (written, write_error write_failed)

-- The local connection as `spliceStreamToConn` uses it: the results of the `Write` calls for one
-- frame's bytes, after the bytes written before, and whether `CloseWrite` succeeds.
pub record Local : Type 0 where
  pub writes : Text → Text → List (ℕ × Bool)
  pub close_write : Bool

pub record Drained : Type 0 where
  pub written : Text
  pub write_closed : Bool
  pub verdict : Verdict

abbrev pub after_write : Text → Written → Drained → Drained
after_write done all_written more = more
after_write done blocked more = record { written = done; write_closed = false; verdict = running }
after_write done (write_error e) more = record {
  written = done;
  write_closed = false;
  verdict = resets e;
}

-- `spliceStreamToConn` on what `stream.Recv` returns.
unfoldable pub stream_to_conn : Local → List Received → Text → Drained
unfolding write_frame_data
stream_to_conn conn [] done = record { written = done; write_closed = false; verdict = running }
stream_to_conn conn (eof ∷ rest) done = record {
  written = done;
  write_closed = false;
  verdict = resets receive_failed;
}
stream_to_conn conn (failed ∷ rest) done = record {
  written = done;
  write_closed = false;
  verdict = resets receive_failed;
}
stream_to_conn conn (frame (msg bytes p) ∷ rest) done =
    let w = write_frame_data (conn.writes done p) p in
    let more = stream_to_conn conn rest (done ++ w.0) in after_write (done ++ w.0) w.1 more
stream_to_conn conn (frame (msg half_close p) ∷ rest) done =
    if conn.close_write
    then record { written = done; write_closed = true; verdict = finished }
    else record { written = done; write_closed = false; verdict = resets close_write_failed }
stream_to_conn conn (frame (msg reset p) ∷ rest) done = record {
  written = done;
  write_closed = false;
  verdict = fails tunnel_reset;
}
stream_to_conn conn (frame (msg opening p) ∷ rest) done = stream_to_conn conn rest done
stream_to_conn conn (frame (msg ready p) ∷ rest) done = stream_to_conn conn rest done
stream_to_conn conn (frame (msg (unknown n) p) ∷ rest) done = record {
  written = done;
  write_closed = false;
  verdict = resets unknown_frame;
}
