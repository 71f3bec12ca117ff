-- ===== src/Forwards.antt =====
-- pkg/controller/forwards.go: the HTTP handlers of the public ports, over the memory store and the
-- activation barrier. A request is what gin hands over: the decoded body, or none, and the path's
-- parameters. `redisOpTimeout` and the logs have no part.
pub mod Create
pub mod Listing
use hostlink.Prelude.{
  ℕ, suc, ◌-◌, ◌==◌, Bool, true, false, not, ◌&&◌, ◌||◌, Option, none, some, List, [], ◌∷◌,
  if◌then◌else◌, Text, nat_comparable, text_comparable, ltb, Result, ok, err,
}
use hostlink.Map.{Map, get}
use hostlink.Decimal.{parse_uint}
use hostlink.Order.{sort_by}
use hostlink.HostPort.{split_host_port}
use hostlink.Ports.{PortMapping, PortError, port_range_exhausted, port_not_found}
use hostlink.Ports.Memory.{MemPortStore, allocate, release, desired}
use hostlink.Bindings.{PortState, pending, Tracker, states}

pub record CreateForwardRequest : Type 0 where
  pub target : Text
  pub container_id : Text
  pub port : ℕ

pub record ForwardResponse : Type 0 where
  pub port : ℕ
  pub state : Option PortState
  pub mapping : PortMapping

-- The response of a handler: a status with an error text, one forward, a list, or no body.
pub data Response : Type 0 where
  failure : ℕ → Response
  created : ForwardResponse → Response
  listing : List ForwardResponse → Response
  no_content : Response

-- The part of `service` that the handlers read; the store is nil where forwarding is disabled.
pub record Service : Type 0 where
  pub store : Option MemPortStore
  pub bindings : Tracker
  pub range_from : ℕ
  pub range_to : ℕ

-- `validForwardTarget`
unfoldable pub valid_forward_target : Text → Bool
unfolding split_host_port parse_uint
valid_forward_target target = elim (split_host_port target) [
  | none ↦ false
  | some (host, port_text) ↦
      not (host == [])
      && (not (port_text == [])
          && (elim (parse_uint 16 port_text) [ none ↦ false | some port ↦ not (port == 0) ]))
]

-- `bindCreateForwardRequest`: the request, or the status it answers with.
unfoldable pub bind_create_forward_request :
    Service → Option CreateForwardRequest → Result ℕ CreateForwardRequest
unfolding valid_forward_target
bind_create_forward_request svc none = err 400
bind_create_forward_request svc (some r) =
    if not (valid_forward_target r.target)
    then err 400
    else if not (r.port == 0) && (ltb r.port svc.range_from || ltb svc.range_to r.port)
    then err 400
    else ok r

-- `allocationRange`
abbrev pub allocation_range : Service → ℕ → ℕ × ℕ
allocation_range svc requested =
    if requested == 0 then (svc.range_from, svc.range_to) else (requested, requested)

-- `writeAllocateForwardError`: the status; a requested port only changes the text.
abbrev pub allocate_forward_status : PortError → ℕ
allocate_forward_status port_range_exhausted = 409
allocate_forward_status _ = 502

abbrev pub new_mapping : Text → CreateForwardRequest → PortMapping
new_mapping agent r = record {
  agent_id = agent;
  target = r.target;
  container_id = r.container_id;
  suspended = false;
}

-- The end of `createForward`, from the store's answer on.
unfoldable pub answer_create :
    Service → PortMapping → Option (MemPortStore × Result PortError ℕ) → Option (Service × Response)
answer_create svc mapping none = none
answer_create svc mapping (some (s, err e)) =
    some (record svc { store = some s }, failure (allocate_forward_status e))
answer_create svc mapping (some (s, ok port)) = some (
  record svc { store = some s },
  created (record { port = port; state = some pending; mapping = mapping }),
)

-- `createForward`; `none` is the store's out of fuel, which does not happen.
unfoldable pub create_forward :
    Service → Text → Option CreateForwardRequest → Option (Service × Response)
unfolding bind_create_forward_request allocate answer_create
create_forward svc agent body = elim svc.store [
  | none ↦ some (svc, failure 503)
  | some s ↦ elim (bind_create_forward_request svc body) [
    | err status ↦ some (svc, failure status)
    | ok r ↦ answer_create svc (new_mapping agent r) (
        allocate (allocation_range svc r.port).0 (allocation_range svc r.port).1
          (new_mapping agent r) s)
  ]
]

-- The loop of `forwardResponses`, the empty agent for every agent.
unfoldable pub responses_of : Map ℕ PortMapping → Map ℕ PortState → Text → List ForwardResponse
responses_of [] states agent = []
responses_of ((port, mapping) ∷ rest) states agent =
    let later = responses_of rest states agent in
    if not (agent == []) && not (mapping.agent_id == agent)
    then later
    else record { port = port; state = get states port; mapping = mapping } ∷ later

-- `forwardResponses`
unfoldable pub forward_responses : Map ℕ PortMapping → Map ℕ PortState → Text → List ForwardResponse
unfolding responses_of sort_by
forward_responses mappings states agent =
    sort_by (λ (r : ForwardResponse). r.port) (responses_of mappings states agent)

-- `fetchForwards`: the mappings and their states, or the status it answers with.
unfoldable pub fetch_forwards : Service → Result ℕ (Map ℕ PortMapping × Map ℕ PortState)
unfolding desired states
fetch_forwards svc = elim svc.store [
  | none ↦ err 503
  | some s ↦ elim (states svc.bindings (desired s)) [
    | err e ↦ err 502
    | ok states ↦ ok (desired s, states)
  ]
]

-- `listAgentForwards`, and `listAllForwards` for the empty agent.
unfoldable pub list_forwards : Service → Text → Response
unfolding fetch_forwards forward_responses
list_forwards svc agent = elim (fetch_forwards svc) [
  | err status ↦ failure status
  | ok (mappings, states) ↦ listing (forward_responses mappings states agent)
]

answer_delete : Result PortError (Unit {0}) → Response
answer_delete (ok _) = no_content
answer_delete (err port_not_found) = failure 404
answer_delete (err _) = failure 502

-- `deleteForward` over any store, by its `release`; there is no store where forwarding is disabled.
unfoldable pub delete_on {ℓ} :
    {S : Type ℓ} → (ℕ → S → S × Result PortError (Unit {0})) → Option S → Text → Option S × Response
unfolding parse_uint answer_delete
delete_on release none port_text = (none, failure 503)
delete_on release (some s) port_text = elim (parse_uint 32 port_text) [
  | none ↦ (some s, failure 400)
  | some port ↦
      let deleted = release port s in
      if port == 0 || ltb 65535 port
      then (some s, failure 400)
      else (some deleted.0, answer_delete deleted.1)
]

-- `deleteForward` of a service with the memory store.
unfoldable pub delete_forward : Service → Text → Service × Response
unfolding delete_on release
delete_forward svc port_text =
    let (store, response) = delete_on release svc.store port_text in
    (record svc { store = store }, response)
