-- ===== src/Tunnel/Bytes.antt =====
-- pkg/tunnel/splice.go: the bytes that go in at one end of a forward come out at the other.
use mathlib.Core.List.{append-nil, append_assoc}
use hostlink.Prelude.{
  ℕ, zero, suc, ◌≤◌, ◌<◌, ◌≡◌, refl, ap, Bool, true, false, List, [], ◌∷◌, ◌++◌, nat_comparable,
  Text, arith, All, length, drop, take-append-drop, length-drop,
}
use hostlink.Tunnel.{
  Frame, msg, bytes, half_close, control, Received, frame, eof, returned, Sender, direction,
  ReadError, no_error, at_eof, broken, finished, conn_to_stream, all_written, write_frame_data,
  Local, stream_to_conn,
}

-- `io.Writer` on a connection that does not fail: each call takes one byte at least, and calls are
-- answered as long as bytes are left.
abbrev pub IsProgress : ℕ × Bool → Type 0
IsProgress (n, success) = (success ≡ true) × (0 < n)

-- `writeFrameData` puts every byte on a connection that does not fail, however short its writes are.
pub write_frame_data_complete :
    (script : List (ℕ × Bool)) (payload : Text)
    → All IsProgress script
    → length payload ≤ length script
    → write_frame_data script payload ≡ (payload, all_written)
unfolding write_frame_data
write_frame_data_complete script [] ok enough = refl
write_frame_data_complete [] (b ∷ bs) ok enough = absurd (omega arith)
write_frame_data_complete ((zero, s) ∷ script) (b ∷ bs) ok enough = absurd (omega arith)
write_frame_data_complete ((suc n, s) ∷ script) (b ∷ bs) ok enough =
    rw (ok.0.0, write_frame_data_complete script (drop n bs) ok.1 (omega (arith, length-drop n bs)))
      (ground (arith, take-append-drop n bs))

unfoldable pub concat : List Text → Text
concat [] = []
concat (p ∷ ps) = p ++ concat ps

-- The frames of a side that sends these payloads and half-closes.
frames_of : List Text → List Frame
frames_of [] = control half_close ∷ []
frames_of (p ∷ ps) = msg bytes p ∷ frames_of ps

abbrev pub working : Sender
working out f = true

-- The reads of a connection that ends without a failure.
abbrev pub Ends : List (Text × ReadError) → Type 0
Ends [] = ⊥
Ends ((bs, no_error) ∷ rest) = Ends rest
Ends ((bs, at_eof) ∷ rest) = Unit
Ends ((bs, broken) ∷ rest) = ⊥

-- All bytes that are read up to the end.
unfoldable pub content : List (Text × ReadError) → Text
content [] = []
content ((bs, no_error) ∷ rest) = bs ++ content rest
content ((bs, at_eof) ∷ rest) = bs
content ((bs, broken) ∷ rest) = bs

cons_part : Text → List Text → List Text
cons_part [] ps = ps
cons_part (b ∷ bs) ps = (b ∷ bs) ∷ ps

parts : List (Text × ReadError) → List Text
unfolding cons_part
parts [] = []
parts ((bs, no_error) ∷ rest) = cons_part bs (parts rest)
parts ((bs, at_eof) ∷ rest) = cons_part bs []
parts ((bs, broken) ∷ rest) = cons_part bs []

concat-parts : (reads : List (Text × ReadError)) → concat (parts reads) ≡ content reads
unfolding concat parts content
concat-parts [] = refl
concat-parts (([], no_error) ∷ rest) = concat-parts rest
concat-parts ((b ∷ bs, no_error) ∷ rest) = ap (λ s. b ∷ (bs ++ s)) (concat-parts rest)
concat-parts (([], at_eof) ∷ rest) = refl
concat-parts ((b ∷ bs, at_eof) ∷ rest) = append-nil (b ∷ bs)
concat-parts (([], broken) ∷ rest) = refl
concat-parts ((b ∷ bs, broken) ∷ rest) = append-nil (b ∷ bs)

conn_to_stream-frames_of :
    (reads : List (Text × ReadError)) (out : List Frame)
    → Ends reads
    → conn_to_stream working reads out
      ≡ record { out = out ++ frames_of (parts reads); verdict = finished }
unfolding conn_to_stream frames_of parts
conn_to_stream-frames_of (([], no_error) ∷ rest) out e = conn_to_stream-frames_of rest out e
conn_to_stream-frames_of ((b ∷ bs, no_error) ∷ rest) out e =
    rw (conn_to_stream-frames_of rest (out ++ msg bytes (b ∷ bs) ∷ []) e)
      (rw (append_assoc out (msg bytes (b ∷ bs) ∷ [])) refl)
conn_to_stream-frames_of (([], at_eof) ∷ rest) out e = refl
conn_to_stream-frames_of ((b ∷ bs, at_eof) ∷ rest) out e =
    rw (append_assoc out (msg bytes (b ∷ bs) ∷ [])) refl
conn_to_stream-frames_of ((bs, broken) ∷ rest) out e = elim e [ ]
conn_to_stream-frames_of [] out e = elim e [ ]

-- What the other end of a stream receives: the frames, and then the end of the stream.
abbrev pub received : List Frame → List Received
received [] = eof ∷ []
received (f ∷ fs) = frame f ∷ received fs

direction-frames_of :
    (ps : List Text) (out : List Frame)
    → direction working (received (frames_of ps)) false out
      ≡ record { out = out ++ frames_of ps; outcome = returned [] }
unfolding direction frames_of
direction-frames_of [] out = refl
direction-frames_of (p ∷ ps) out =
    rw (direction-frames_of ps (out ++ msg bytes p ∷ []))
      (rw (append_assoc out (msg bytes p ∷ [])) refl)

-- A local connection that does not fail.
pub record Works (conn : Local) : Type 0 where
  pub progress : (done payload : Text) → All IsProgress (conn.writes done payload)
  pub enough : (done payload : Text) → length payload ≤ length (conn.writes done payload)
  pub closes : conn.close_write ≡ true

stream_to_conn-frames_of :
    (conn : Local) (ps : List Text) (done : Text)
    → Works conn
    → stream_to_conn conn (received (frames_of ps)) done
      ≡ record { written = done ++ concat ps; write_closed = true; verdict = finished }
unfolding stream_to_conn frames_of concat
stream_to_conn-frames_of conn [] done w = rw (w.closes, append-nil done)
stream_to_conn-frames_of conn (p ∷ ps) done w = rw (
  write_frame_data_complete (conn.writes done p) p (w.progress done p) (w.enough done p),
  stream_to_conn-frames_of conn ps (done ++ p) w,
  append_assoc done p (concat ps),
)

-- End to end over a relay hop: where no call fails, the bytes that one side reads before its end are
-- written at the other side in order and nothing else is, then that side's writing end is closed,
-- and both workers and the relay finish without an error.
pub forward_bytes :
    (reads : List (Text × ReadError)) (conn : Local)
    → Ends reads
    → Works conn
    → let near = conn_to_stream working reads [] in
      let hop = direction working (received near.out) false [] in
      let far = stream_to_conn conn (received hop.out) [] in
      (near.verdict ≡ finished)
      × (hop.outcome ≡ returned [])
      × (far.verdict ≡ finished)
      × (far.write_closed ≡ true)
      × (far.written ≡ content reads)
forward_bytes reads conn e w =
    rw
      (
        conn_to_stream-frames_of reads [] e,
        direction-frames_of (parts reads) [],
        stream_to_conn-frames_of conn (parts reads) [] w,
      )
      (refl, refl, refl, refl, concat-parts reads)
