-- ===== src/Tests/Handlers.antt =====
-- The HTTP handlers, the container events, the registry and the connection handler at concrete inputs.
use hostlink.Prelude.{
  ◌<◌, ◌≤◌, ◌≡◌, refl, true, false, none, some, [], ◌∷◌, Text, codes, ok, arith, if◌then◌else◌,
  nat_comparable, text_comparable, Text-discrete, ℕ_discrete,
}
use hostlink.Map.{Map, get, put, delete}
use hostlink.Map.Laws.{Distinct, get-put, get-delete}
use hostlink.Decimal.{format_uint}
use hostlink.Ports.{PortMapping}
use hostlink.Ports.Watchers.{new_watchers}
use hostlink.Ports.Memory.{MemPortStore}
use hostlink.Bindings.{local_only}
use hostlink.Forwards.{CreateForwardRequest, Response, Service, create_forward, delete_forward}
use hostlink.Forwards.Create.{CreateOutcome, DeleteOutcome, create_forward_lem, delete_forward_lem}
use hostlink.ContainerEvents.{DockerEvent, Inspection, answered, process_container_event}
use hostlink.ContainerEvents.Events.{EventOutcome, process_container_event_lem}
use hostlink.Registry.{Directory, DirectoryLaws, Registry, add, remove, find, locate, reconnect_lem}
use hostlink.ForwardHandler.{
  LocalAnswers, RemoteAnswers, timed_out, agent_not_connected, opened, handle_conn,
}
use hostlink.ForwardHandler.Phases.{ends_connection, splices, count}
use hostlink.ForwardHandler.SessionIds.{sessions_in, made_sessions}
use hostlink.ForwardHandler.Disposal.{dials, is_served, keeps_order, handle_conn_lem}

abbrev api : PortMapping
api = record {
  agent_id = codes "edge";
  target = codes "10.0.0.7:80";
  container_id = codes "c1";
  suspended = false;
}

abbrev store : MemPortStore
store = record { mappings = (8000, api) ∷ []; watchers = new_watchers }

store-Distinct : Distinct store.mappings
unfolding get
store-Distinct = (refl, tt)

abbrev service : Service
service = record {
  store = some store;
  bindings = local_only (8000 ∷ []);
  range_from = 8000;
  range_to = 8002;
}

abbrev request : CreateForwardRequest
request = record { target = codes "10.0.0.8:81"; container_id = codes "c2"; port = 0 }

create_forward_lem_example :
    (out : Service × Response) × (create_forward service (codes "edge") (some request) ≡ some out)
    × CreateOutcome service (codes "edge") request store out
create_forward_lem_example =
    create_forward_lem service (codes "edge") request store refl (omega arith)

delete_forward_lem_example :
    DeleteOutcome service 8001 (some store) (delete_forward service (format_uint 8001))
delete_forward_lem_example = delete_forward_lem service 8001 (omega arith)

abbrev start_event : DockerEvent
start_event = record { event_type = codes "start"; container = codes "c1" }

-- The port is released and given to another agent while the container is inspected.
abbrev reassigned : MemPortStore
reassigned = record {
  mappings = (8000, record api { agent_id = codes "lab" }) ∷ [];
  watchers = new_watchers;
}

abbrev inspected : Inspection
inspected = answered 200 (some ((codes "bridge", codes "10.0.0.9") ∷ []))

process_container_event_lem_example :
    EventOutcome (codes "edge") start_event inspected (some api) (get reassigned.mappings 8000) (
      get
        (process_container_event (codes "edge") start_event inspected store reassigned).mappings
        8000)
unfolding get ℕ_discrete
process_container_event_lem_example =
    process_container_event_lem (codes "edge") start_event inspected store reassigned 8000
      store-Distinct

-- Redis as one map.
abbrev directory : Directory (Map Text Text)
directory = record { set = λ k v s. put s k v; look = λ s k. get s k; del = λ k s. delete s k }

directory-DirectoryLaws : DirectoryLaws directory
directory-DirectoryLaws = record {
  look_set = λ k j v s. get-put s k j v;
  look_del = λ k j s. get-delete s k j;
}

abbrev registry : Registry
registry = record { redis = true; self_addr = codes "pod-0:9"; agents = (codes "edge", 1) ∷ [] }

reconnect_lem_example :
    let ((r1, s1), replaced) = add directory (codes "edge") 2 registry [] in
    (replaced ≡ some 1)
    × (find directory (codes "edge") r1 ≡ some 2)
    × (locate directory (codes "edge") r1 s1 ≡ codes "pod-0:9")
    × (remove directory (codes "edge") 1 r1 s1 ≡ (r1, s1))
    × (let (r2, s2) = remove directory (codes "edge") 2 r1 s1 in
        (find directory (codes "edge") r2 ≡ none) × (locate directory (codes "edge") r2 s2 ≡ []))
unfolding get ℕ_discrete Text-discrete
reconnect_lem_example =
    reconnect_lem directory directory-DirectoryLaws (codes "edge") 1 2 registry [] refl refl refl

abbrev unpaired : LocalAnswers
unpaired = record {
  session_id = some (codes "s");
  sent = true;
  pairing = timed_out;
  spliced = false;
}

abbrev stale : RemoteAnswers
stale = record {
  holder = ok (codes "pod-1:9");
  session_id = some (codes "s");
  dialled = agent_not_connected;
  spliced = false;
}

abbrev found : RemoteAnswers
found = record {
  holder = ok (codes "pod-2:9");
  session_id = some (codes "t");
  dialled = opened;
  spliced = true;
}

handle_conn_lem_example :
    let actions = handle_conn true (codes "pod-0:9") (ok api) false unpaired stale found in
    (count ends_connection actions ≡ 1)
    × (count splices actions
        ≡ (if is_served true (codes "pod-0:9") (ok api) false unpaired stale found then 1 else 0))
    × (keeps_order (ok api) (codes "pod-0:9") actions ≡ true)
    × (sessions_in actions
        ≡ made_sessions true (codes "pod-0:9") (ok api) false unpaired stale found)
    × (count dials actions ≤ 2)
    × (1 < count dials actions → stale.dialled ≡ agent_not_connected)
handle_conn_lem_example = handle_conn_lem true (codes "pod-0:9") (ok api) false unpaired stale found
