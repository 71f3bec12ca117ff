-- ===== src/Tests/Tunnels.antt =====
-- The byte pipe and the session table at concrete inputs.
use hostlink.Prelude.{
  ℕ, ◌≤◌, ◌≡◌, refl, Bool, true, false, some, List, [], ◌∷◌, Text, codes, arith, All, length,
  nat_comparable, text_comparable,
}
use hostlink.Map.{get}
use hostlink.Tunnel.{
  bytes, half_close, msg, control, Received, frame, eof, Sender, direction, returned, ReadError,
  no_error, at_eof, Local, conn_to_stream, stream_to_conn, finished,
}
use hostlink.Tunnel.Relay.{legal, direction-legal}
use hostlink.Tunnel.Bytes.{IsProgress, working, received, content, Works, forward_bytes}
use hostlink.Sessions.{
  ForwardSession, WaiterChan, SessionTable, new_session_table, expect, deliver, finish,
}
use hostlink.Sessions.Pairing.{Reach, start, later, expects, delivers, sessions_are_paired}

abbrev relayed : List Received
relayed = frame (msg bytes (codes "hi")) ∷ frame (control half_close) ∷ eof ∷ []

-- The second frame is refused.
abbrev takes_one : Sender
takes_one [] f = true
takes_one (g ∷ out) f = false

direction-legal_example : legal false (direction takes_one relayed false []).out ≡ true
direction-legal_example = direction-legal takes_one relayed

-- A connection that takes the bytes of a frame one by one.
abbrev one_by_one : Text → List (ℕ × Bool)
one_by_one [] = []
one_by_one (b ∷ bs) = (1, true) ∷ one_by_one bs

abbrev slow_conn : Local
slow_conn = record { writes = λ done payload. one_by_one payload; close_write = true }

one_by_one-IsProgress : (payload : Text) → All IsProgress (one_by_one payload)
one_by_one-IsProgress [] = tt
one_by_one-IsProgress (b ∷ bs) = ((refl, omega arith), one_by_one-IsProgress bs)

length-one_by_one : (payload : Text) → length payload ≤ length (one_by_one payload)
length-one_by_one [] = omega arith
length-one_by_one (b ∷ bs) = omega (arith, length-one_by_one bs)

slow_conn-Works : Works slow_conn
slow_conn-Works = record {
  progress = λ done payload. one_by_one-IsProgress payload;
  enough = λ done payload. length-one_by_one payload;
  closes = refl;
}

abbrev reads : List (Text × ReadError)
reads = (codes "GET", no_error) ∷ ([], no_error) ∷ (codes " /", at_eof) ∷ []

forward_bytes_example :
    let near = conn_to_stream working reads [] in
    let hop = direction working (received near.out) false [] in
    let far = stream_to_conn slow_conn (received hop.out) [] in
    (near.verdict ≡ finished)
    × (hop.outcome ≡ returned [])
    × (far.verdict ≡ finished)
    × (far.write_closed ≡ true)
    × (far.written ≡ content reads)
forward_bytes_example = forward_bytes reads slow_conn tt slow_conn-Works

abbrev session : ForwardSession
session = record { session_id = codes "s"; stream = 4 }

waiting_table : SessionTable
unfolding expect
waiting_table = (expect (codes "s") new_session_table).0

delivered_table : SessionTable
unfolding deliver
delivered_table = (deliver session waiting_table).0

abbrev delivery : Reach new_session_table delivered_table
unfolding waiting_table delivered_table
delivery = later (later start (expects (codes "s"))) (delivers session)

sessions_are_paired_example :
    ((ch : ℕ) (s : ForwardSession)
      → get delivered_table.flying ch ≡ some s
      → (finish ch s delivered_table).1 ≡ true)
    × ((ch : ℕ) (c : WaiterChan) (s : ForwardSession)
        → get delivered_table.chans ch ≡ some c
        → c.sent ≡ some s
        → s.session_id ≡ c.session_id)
    × ((s r : ForwardSession)
        → r.session_id ≡ s.session_id
        → deliver r (deliver s delivered_table).0 ≡ ((deliver s delivered_table).0, false))
sessions_are_paired_example = sessions_are_paired delivery
