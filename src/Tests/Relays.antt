-- ===== src/Tests/Relays.antt =====
-- The relay between pods and the log of a container at concrete inputs.
use hostlink.Prelude.{
  ℕ, suc, ◌≡◌, Bool, false, List, [], ◌∷◌, Text, codes, All, arith, ℕ_discrete, text_comparable,
}
use hostlink.AgentConn.{StreamFrame}
use hostlink.Rest.{StreamEvent, frame, disconnected, consume_stream}
use hostlink.Peers.{serve_stream, relay_stream}
use hostlink.Peers.Streams.{always, received, seen, relay_stream_lem}
use hostlink.Strings.{split}
use hostlink.AgentLogs.{new_writer, flush}
use hostlink.AgentLogs.Lines.{log_lines, all_of, write_all, IsShort, log_lines_lem}

-- A consumer that counts the frames.
abbrev count : StreamFrame → ℕ → ℕ × Bool
count f n = (suc n, f.final)

abbrev progress : StreamFrame
progress = record { payload = codes "a"; code = 0; error = []; final = false }

abbrev agent_gone : List StreamEvent
agent_gone = frame progress ∷ disconnected (progress ∷ []) ∷ []

relay_stream_lem_example :
    let sent = (serve_stream always agent_gone []).0 in
    consume_stream count (λ n. n) (seen 1 (relay_stream (received sent))) 0
    ≡ consume_stream count (λ n. n) agent_gone 0
relay_stream_lem_example = relay_stream_lem count (λ n. n) 1 agent_gone 0 (λ f n h. h) (λ h. tt)

abbrev writes : List Text
writes = codes "on" ∷ (b'e' ∷ 13 ∷ []) ∷ (10 ∷ b't' ∷ []) ∷ codes "wo" ∷ []

writes-IsShort : All IsShort (split 10 (all_of writes))
unfolding split all_of ℕ_discrete
writes-IsShort = (omega arith, (omega arith, tt))

log_lines_lem_example :
    flush (write_all writes new_writer) ≡ record { buf = []; emitted = log_lines (all_of writes) }
log_lines_lem_example = log_lines_lem writes writes-IsShort
