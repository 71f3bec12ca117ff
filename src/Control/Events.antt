-- ===== src/Control/Events.antt =====
-- pkg/controller/service.go: a registration takes the agent over, and events stay on their connection.
use hostlink.Prelude.{
  ℕ, suc, ◌≡◌, ◌≢◌, refl, true, false, Option, none, some, [], if◌then◌else◌, ◌==◌, ==_refl, Text,
  nat_comparable, text_comparable, arith, Option-cases, inl, inr, Bool-cases,
}
use hostlink.Map.{get, put}
use hostlink.Map.Laws.{get-put}
use hostlink.AgentConn.{AgentConn, does, new_agent_conn, deliver, deliver_progress, close_all}
use hostlink.AgentConn.Invariant.{IsValid}
use hostlink.AgentConn.Closing.{close_all-IsValid}
use hostlink.Registry.{
  Directory, DirectoryLaws, add, find, locate, write_mapping, mapping_key, refresh,
}
use hostlink.Control.{
  AgentEvent, hello, heartbeat, unknown_kind, docker, result, progress, Controller, handled,
  close_conn, after_close, after_add, register, handle_agent_event, on_conn, starts_work,
}

module _ {S : Type 0} (d : Directory S) where
  -- The connection that `closeAll` leaves, a closed one without registrations.
  abbrev pub IsClosed : Option AgentConn → Type 0
  IsClosed none = ⊥
  IsClosed (some a) = (a.closed ≡ true) × (a.pending ≡ []) × (a.pending_stream ≡ [])

  close_conn-does :
      (k : ℕ) (a a' : AgentConn) (c : Controller S)
      → get c.conns k ≡ some a
      → close_all a ≡ does a'
      → close_conn d k c ≡ some (record c { conns = put c.conns k a' })
  unfolding close_conn
  close_conn-does k a a' c found e = ground arith

  close_conn-IsClosed :
      (k : ℕ) (a : AgentConn) (c : Controller S)
      → get c.conns k ≡ some a
      → IsValid a
      → (a' : AgentConn) × (close_conn d k c ≡ some (record c { conns = put c.conns k a' }))
        × (a'.closed ≡ true)
        × (a'.pending ≡ [])
        × (a'.pending_stream ≡ [])
        × (a'.agent_id ≡ a.agent_id)
        × IsValid a'
  close_conn-IsClosed k a c found v =
      let (w, done, e, v') = close_all-IsValid a v in
      (_, close_conn-does k a _ c found e, refl, refl, refl, refl, v')

  -- The controller after the registration of a new connection, before the old one is closed.
  registered : Text → Controller S → Controller S
  unfolding add
  registered agent c =
      let ((r, s), replaced) = add d agent c.made c.registry c.directory in
      record c {
        registry = r;
        directory = s;
        conns = put c.conns c.made (new_agent_conn agent);
        made = suc c.made;
      }

  register_hello :
      (agent : Text) (c : Controller S) (old : ℕ) (o : Option (Controller S))
      → get c.registry.agents agent ≡ some old
      → close_conn d old (registered agent c) ≡ o
      → handle_agent_event d none agent hello c ≡ after_close d c.made o
  unfolding handle_agent_event register after_add registered add
  register_hello agent c old o there e = ground arith

  registered_conns :
      (agent : Text) (c : Controller S) (k : ℕ)
      → get (registered agent c).conns k
        ≡ (if c.made == k then some (new_agent_conn agent) else get c.conns k)
  unfolding registered
  registered_conns agent c k = get-put c.conns c.made k (new_agent_conn agent)

  registered_registry :
      (laws : DirectoryLaws d) (agent : Text) (c : Controller S)
      → c.registry.redis ≡ true
      → (find d agent (registered agent c).registry ≡ some c.made)
        × (locate d agent (registered agent c).registry (registered agent c).directory
            ≡ c.registry.self_addr)
  unfolding registered add locate write_mapping
  registered_registry laws agent c redis = ground (
    arith,
    get-put c.registry.agents agent agent c.made,
    ==_refl agent,
    ==_refl (mapping_key agent),
    laws.look_set (mapping_key agent) (mapping_key agent) c.registry.self_addr c.directory,
  )

  -- The first `Hello` of an agent's new stream while an older connection of that agent stands: the
  -- handler does not panic, the agent is found at the new connection, which starts empty, the
  -- directory names this pod, the old connection is closed with no registration left, and every
  -- other connection is as it was.
  pub hello_lem :
      (laws : DirectoryLaws d) (agent : Text) (c : Controller S) (old : ℕ) (a : AgentConn)
      → c.registry.redis ≡ true
      → get c.registry.agents agent ≡ some old
      → get c.conns old ≡ some a
      → IsValid a
      → (c.made == old) ≡ false
      → (c' : Controller S) × (handle_agent_event d none agent hello c ≡ handled c' (some c.made))
        × (find d agent c'.registry ≡ some c.made)
        × (locate d agent c'.registry c'.directory ≡ c.registry.self_addr)
        × (get c'.conns c.made ≡ some (new_agent_conn agent))
        × IsClosed (get c'.conns old)
        × ((k : ℕ) → (c.made == k) ≡ false → (old == k) ≡ false → get c'.conns k ≡ get c.conns k)
  unfolding after_close
  hello_lem laws agent c old a redis there found v fresh =
      let c1 = registered agent c in
      let (a', e, closed, empty, none_left, id, v') =
        close_conn-IsClosed old a c1 (ground (arith, registered_conns agent c old)) v in
      (
        record c1 { conns = put c1.conns old a' },
        register_hello agent c old _ there e,
        (registered_registry laws agent c redis).0,
        (registered_registry laws agent c redis).1,
        ground (
          arith,
          get-put c1.conns old c.made a',
          registered_conns agent c c.made,
          ==_refl c.made,
        ),
        ground (arith, get-put c1.conns old old a', ==_refl old),
        λ k m o. ground (arith, get-put c1.conns old k a', registered_conns agent c k),
      )

  on_conn_local :
      (conn k : ℕ) (f : AgentConn → AgentConn) (c : Controller S)
      → (conn == k) ≡ false
      → (get (on_conn d conn f c).conns k ≡ get c.conns k)
        × ((on_conn d conn f c).registry ≡ c.registry)
  on_conn_local conn k f c other = elim (Option-cases (get c.conns conn)) [
    | inl e ↦ ground (arith, e)
    | inr (a, e) ↦ ground (arith, e, get-put c.conns conn k (f a))
  ]

  -- Every event of a registered stream is handled without a panic, up to the send that a delivery has
  -- to make, and touches its own connection only: no other connection and no entry of the local
  -- registry changes. Before the registration every event but a `Hello` is dropped.
  pub events_are_local :
      (agent : Text) (event : AgentEvent) (conn k : ℕ) (c : Controller S)
      → (conn == k) ≡ false
      → ((c' : Controller S) × (handle_agent_event d (some conn) agent event c
            ≡ handled c' (some conn))
          × (get c'.conns k ≡ get c.conns k)
          × (c'.registry ≡ c.registry))
        × (event ≢ hello → handle_agent_event d none agent event c ≡ handled c none)
  unfolding handle_agent_event
  events_are_local agent hello conn k c other = ((c, refl, refl, refl), λ h. absurd (h refl))
  events_are_local agent heartbeat conn k c other = elim (Option-cases (get c.conns conn)) [
    | inl e ↦ ((c, ground (arith, e), refl, refl), λ h. refl)
    | inr (a, e) ↦ (
      (
        record c { directory = refresh d a.agent_id c.registry c.directory },
        ground (arith, e),
        refl,
        refl,
      ),
      λ h. refl,
    )
  ]
  events_are_local agent unknown_kind conn k c other = ((c, refl, refl, refl), λ h. refl)
  events_are_local agent (docker e) conn k c other = elim (Bool-cases (starts_work c.has_store e)) [
    | inl w ↦ rw w ((_, refl, refl, refl), λ h. refl)
    | inr w ↦ rw w ((_, refl, refl, refl), λ h. refl)
  ]
  events_are_local agent (result r) conn k c other = (
    (
      _,
      refl,
      (on_conn_local conn k (deliver r) c other).0,
      (on_conn_local conn k (deliver r) c other).1,
    ),
    λ h. refl,
  )
  events_are_local agent (progress p) conn k c other = (
    (
      _,
      refl,
      (on_conn_local conn k (deliver_progress p) c other).0,
      (on_conn_local conn k (deliver_progress p) c other).1,
    ),
    λ h. refl,
  )
