-- ===== src/Tests/Controls.antt =====
-- The events of agent streams at concrete inputs.
use hostlink.Prelude.{
  ℕ, ◌≡◌, ◌≢◌, refl, true, false, none, some, [], ◌∷◌, Text, codes, ◌==◌, nat_comparable,
  text_comparable, Text-discrete, ℕ_discrete,
}
use hostlink.Map.{Map, get, put, delete}
use hostlink.Map.Laws.{get-put, get-delete}
use hostlink.AgentConn.{AgentResult, new_agent_conn}
use hostlink.AgentConn.Invariant.{new_agent_conn-IsValid}
use hostlink.Registry.{Directory, DirectoryLaws, find, locate}
use hostlink.Control.{hello, result, Controller, handled, handle_agent_event}
use hostlink.Control.Events.{IsClosed, hello_lem, events_are_local}
use hostlink.Control.Forward.{arrived, handed_over, may_start, forward, forward_lem}
use hostlink.Tunnel.{FrameType, opening}
use hostlink.Sessions.{ForwardSession, SessionTable, new_session_table, expect}
use hostlink.Sessions.Pairing.{Reach, start, later, expects}

abbrev one_map : Directory (Map Text Text)
one_map = record { set = λ k v s. put s k v; look = λ s k. get s k; del = λ k s. delete s k }

one_map-DirectoryLaws : DirectoryLaws one_map
one_map-DirectoryLaws = record {
  look_set = λ k j v s. get-put s k j v;
  look_del = λ k j s. get-delete s k j;
}

-- The agent is connected, by the connection 0.
abbrev controller : Controller (Map Text Text)
unfolding new_agent_conn
controller = record {
  registry = record { redis = true; self_addr = codes "pod-0:9"; agents = (codes "edge", 0) ∷ [] };
  directory = [];
  conns = (0, new_agent_conn (codes "edge")) ∷ [];
  made = 1;
  started = [];
  has_store = true;
}

hello_lem_example :
    (c' : Controller (Map Text Text)) × (handle_agent_event one_map none
        (codes "edge")
        hello
        controller
      ≡ handled c' (some 1))
    × (find one_map (codes "edge") c'.registry ≡ some 1)
    × (locate one_map (codes "edge") c'.registry c'.directory ≡ codes "pod-0:9")
    × (get c'.conns 1 ≡ some (new_agent_conn (codes "edge")))
    × IsClosed one_map (get c'.conns 0)
    × ((k : ℕ)
        → ◌==◌ {A = ℕ} 1 k ≡ false
        → ◌==◌ {A = ℕ} 0 k ≡ false
        → get c'.conns k ≡ get controller.conns k)
unfolding controller get ℕ_discrete Text-discrete
hello_lem_example =
    hello_lem one_map one_map-DirectoryLaws (codes "edge") controller 0
      (new_agent_conn (codes "edge")) refl refl refl (new_agent_conn-IsValid (codes "edge")) refl

abbrev late : AgentResult
late = record { request_id = codes "7"; payload = []; code = 200; error = [] }

events_are_local_example :
    ((c' : Controller (Map Text Text)) × (handle_agent_event one_map
          (some 0)
          (codes "edge")
          (result late)
          controller
        ≡ handled c' (some 0))
      × (get c'.conns 1 ≡ get controller.conns 1)
      × (c'.registry ≡ controller.registry))
    × (result late ≢ hello
        → handle_agent_event one_map none (codes "edge") (result late) controller
          ≡ handled controller none)
unfolding ℕ_discrete
events_are_local_example = events_are_local one_map (codes "edge") (result late) 0 1 controller refl

abbrev awaited : ForwardSession
awaited = record { session_id = codes "s"; stream = 4 }

one_waits : SessionTable
unfolding expect
one_waits = (expect (codes "s") new_session_table).0

to_one_waits : Reach new_session_table one_waits
unfolding one_waits
to_one_waits = later start (expects (codes "s"))

forward_lem_example :
    ((forward (arrived opening awaited) one_waits).1 ≢ handed_over
      → (forward (arrived opening awaited) one_waits).0 ≡ one_waits)
    × ((ty : FrameType) (s : ForwardSession)
        → arrived opening awaited ≡ arrived ty s
        → (s.session_id == []) ≡ false
        → may_start ty ≡ true
        → get one_waits.waiters s.session_id ≢ none
        → (forward (arrived opening awaited) one_waits).1 ≡ handed_over)
forward_lem_example = forward_lem (arrived opening awaited) one_waits to_one_waits
