-- ===== src/Control.antt =====
-- pkg/controller/service.go, `Control` and `handleAgentEvent`: what the events of one agent stream do to
-- the registry and to the connections. Connections are a heap, named by numbers. The work that
-- `handleContainerEvent` starts in the background is listed, oldest first; `has_store` tells whether
-- forwarding is configured.
pub mod Events
pub mod Forward
use hostlink.Prelude.{
  ℕ, suc, ◌≡◌, ◌≢◌, refl, sym, ap, ◌∙◌, Bool, true, false, not, ◌&&◌, ◌||◌, Option, none, some,
  List, [], ◌∷◌, ◌++◌, if◌then◌else◌, ◌==◌, ==_refl, Text, codes, nat_comparable, text_comparable,
  arith,
}
use hostlink.Map.{Map, get, put}
use hostlink.Map.Laws.{get-put}
use hostlink.AgentConn.{
  AgentConn, AgentResult, AgentProgress, Effect, panics, blocks, does, new_agent_conn, deliver,
  deliver_progress, close_all,
}
use hostlink.Registry.{Directory, Registry, add, remove, refresh}
use hostlink.ContainerEvents.{DockerEvent}

-- The kinds of `AgentEvent`.
pub data AgentEvent : Type 0 where
  hello heartbeat unknown_kind : AgentEvent
  docker : DockerEvent → AgentEvent
  result : AgentResult → AgentEvent
  progress : AgentProgress → AgentEvent

pub record Controller (S : Type 0) : Type 0 where
  pub registry : Registry
  pub directory : S
  pub conns : Map ℕ AgentConn
  pub made : ℕ
  pub started : List (ℕ × DockerEvent)
  pub has_store : Bool

-- What handling comes to: a panic, or the controller and the stream's connection.
pub data Handled (S : Type 0) : Type 0 where
  crashed : Handled S
  handled : Controller S → Option ℕ → Handled S

-- Whether `handleContainerEvent` starts work for the event, with a store or without.
abbrev pub starts_work : Bool → DockerEvent → Bool
starts_work has_store e =
    has_store
    && not (e.container == [])
    && (e.event_type == codes "die"
        || (e.event_type == codes "stop" || e.event_type == codes "start"))

module _ {S : Type 0} (d : Directory S) where
  -- `conn.closeAll()` on the heap; its channel operations do not wait.
  unfoldable pub close_conn : ℕ → Controller S → Option (Controller S)
  unfolding close_all
  close_conn conn c = elim (get c.conns conn) [
    | none ↦ some c
    | some a ↦ elim (close_all a) [
      | panics ↦ none
      | blocks ↦ none
      | does a' ↦ some (record c { conns = put c.conns conn a' })
    ]
  ]

  -- A change of one connection.
  abbrev pub on_conn : ℕ → (AgentConn → AgentConn) → Controller S → Controller S
  on_conn conn f c = elim (get c.conns conn) [
    | none ↦ c
    | some a ↦ record c { conns = put c.conns conn (f a) }
  ]

  after_close : ℕ → Option (Controller S) → Handled S
  after_close conn none = crashed
  after_close conn (some c) = handled c (some conn)

  after_add : ℕ → Option ℕ → Controller S → Handled S
  unfolding close_conn after_close
  after_add conn none c = handled c (some conn)
  after_add conn (some old) c = after_close conn (close_conn old c)

  -- The `Hello` of a stream that has no connection yet.
  unfoldable pub register : Text → Controller S → Handled S
  unfolding new_agent_conn add after_add
  register agent c =
      let ((r, s), replaced) = add d agent c.made c.registry c.directory in
      after_add c.made replaced (record c {
        registry = r;
        directory = s;
        conns = put c.conns c.made (new_agent_conn agent);
        made = suc c.made;
      })

  -- `handleAgentEvent`; the event carries the agent's id. The send that a delivery has to make after
  -- its unlock is a step of the connection.
  unfoldable pub handle_agent_event : Option ℕ → Text → AgentEvent → Controller S → Handled S
  unfolding register deliver deliver_progress
  handle_agent_event none agent hello c = register agent c
  handle_agent_event none agent event c = handled c none
  handle_agent_event (some conn) agent hello c = handled c (some conn)
  handle_agent_event (some conn) agent heartbeat c = elim (get c.conns conn) [
    | none ↦ handled c (some conn)
    | some a ↦
        handled (record c { directory = refresh d a.agent_id c.registry c.directory }) (some conn)
  ]
  handle_agent_event (some conn) agent (docker e) c =
      handled
        (if starts_work c.has_store e
          then record c { started = c.started ++ (conn, e) ∷ [] }
          else c)
        (some conn)
  handle_agent_event (some conn) agent (result r) c =
      handled (on_conn conn (deliver r) c) (some conn)
  handle_agent_event (some conn) agent (progress p) c =
      handled (on_conn conn (deliver_progress p) c) (some conn)
  handle_agent_event (some conn) agent unknown_kind c = handled c (some conn)

  -- The deferred end of `Control`; `none` is a panic.
  unfoldable pub end_control : Option ℕ → Controller S → Option (Controller S)
  unfolding remove close_conn
  end_control none c = some c
  end_control (some conn) c = elim (get c.conns conn) [
    | none ↦ some c
    | some a ↦
        let (r, s) = remove d a.agent_id conn c.registry c.directory in
        close_conn conn (record c { registry = r; directory = s })
  ]
