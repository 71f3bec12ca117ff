-- ===== src/Tests/Agents.antt =====
-- The requests on one agent's connection at concrete inputs.
use hostlink.Prelude.{
  ℕ, ◌≤◌, ◌+◌, ◌≡◌, ◌≢◌, refl, true, false, some, [], Text, codes, length, nat_comparable,
  text_comparable, Text-discrete, ℕ_discrete,
}
use hostlink.Map.{get, put, delete}
use hostlink.Decimal.{format_uint, format_digits}
use hostlink.AgentConn.{
  AgentResult, AgentConn, Waiter, StreamReg, new_agent_conn, open_unary, open_stream, deliver,
  finish, close_all, panics, does, blocks, to_waiter, Effect,
}
use hostlink.AgentConn.Invariant.{
  Reach, start, later, opens, opens_stream, receives, finishes, IsEnded,
}
use hostlink.AgentConn.Closing.{IsShut, IsDone}
use hostlink.AgentConn.Safety.{
  agent_conn_never_panics, waiter_gets_its_result, stream_ends_once, close_all_wakes,
}

-- The result of the first request.
abbrev result : AgentResult
result = record { request_id = codes "1"; payload = codes "{}"; code = 200; error = [] }

requested : AgentConn
unfolding new_agent_conn open_unary
requested = (open_unary (new_agent_conn (codes "edge"))).0

received : AgentConn
unfolding requested deliver
received = deliver result requested

after : Effect → AgentConn → AgentConn
after (does c) d = c
after panics d = d
after blocks d = d

answered : AgentConn
unfolding received after finish
answered = after (finish true received) received

to_requested : Reach (new_agent_conn (codes "edge")) requested
unfolding requested
to_requested = later start opens

to_received : Reach (new_agent_conn (codes "edge")) received
unfolding received requested
to_received = later to_requested (receives result refl)

to_answered : Reach (new_agent_conn (codes "edge")) answered
unfolding answered after finish received requested deliver open_unary new_agent_conn get put delete
    format_uint format_digits Text-discrete ℕ_discrete
to_answered = later to_received (finishes true refl)

agent_conn_never_panics_example :
    (finish true received ≢ panics)
    × (close_all received ≢ panics)
    × ((ch : ℕ) (r : AgentResult)
        → received.delivering ≡ some (to_waiter ch r)
        → (c' : AgentConn) × (finish true received ≡ does c'))
agent_conn_never_panics_example = agent_conn_never_panics (codes "edge") true to_received

abbrev first_waiter : Waiter
first_waiter = record { request_id = codes "1"; buffer = some result; closed = false }

waiter_gets_its_result_example : result.request_id ≡ first_waiter.request_id
unfolding answered after finish received requested deliver open_unary new_agent_conn get put delete
    format_uint format_digits Text-discrete ℕ_discrete
waiter_gets_its_result_example =
    waiter_gets_its_result (codes "edge") 0 first_waiter result to_answered refl refl

streaming : AgentConn
unfolding new_agent_conn open_stream
streaming = (open_stream true (new_agent_conn (codes "edge"))).0

to_streaming : Reach (new_agent_conn (codes "edge")) streaming
unfolding streaming
to_streaming = later start (opens_stream true)

abbrev first_stream : StreamReg
first_stream = record {
  request_id = codes "1";
  sent = [];
  taken = 0;
  done = false;
  reliable = true;
}

stream_ends_once_example :
    IsEnded first_stream.sent × (length first_stream.sent ≤ first_stream.taken + 64)
unfolding streaming open_stream new_agent_conn get put format_uint format_digits Text-discrete
    ℕ_discrete
stream_ends_once_example = stream_ends_once (codes "edge") 0 first_stream to_streaming refl

close_all_wakes_example :
    (c' : AgentConn) × (close_all requested ≡ does c')
    × (c'.closed ≡ true)
    × (c'.pending ≡ [])
    × (c'.pending_stream ≡ [])
    × ((id : Text) (ch : ℕ) → get requested.pending id ≡ some ch → IsShut (get c'.waiters ch))
    × ((id : Text) (g : ℕ) → get requested.pending_stream id ≡ some g → IsDone (get c'.regs g))
close_all_wakes_example = close_all_wakes (codes "edge") to_requested
