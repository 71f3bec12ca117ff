-- ===== src/Forwards/Create.antt =====
-- pkg/controller/forwards.go: which port a create request is given, and what a delete request frees.
use hostlink.Prelude.{
  ℕ, suc, ◌^◌, ◌≤◌, ◌<◌, ◌≡◌, ◌⊎◌, inl, inr, refl, ap, ◌∙◌, true, false, not, ◌||◌, none, some,
  if◌then◌else◌, ◌==◌, Text, nat_comparable, text_comparable, ltb, Result, ok, err, arith,
  Bool-cases, Option,
}
use hostlink.Map.{get, has}
use hostlink.Map.Laws.{get-delete}
use hostlink.Decimal.{format_uint, parse_uint, parse_uint-format_uint}
use hostlink.Ports.{PortError}
use hostlink.Ports.Memory.{MemPortStore, allocate, release}
use hostlink.Ports.Memory.Allocate.{Taken, Allocated, allocate_lem}
use hostlink.Forwards.{
  CreateForwardRequest, Response, failure, created, no_content, Service, valid_forward_target,
  bind_create_forward_request, allocation_range, create_forward, delete_forward, listing,
  new_mapping, answer_create,
}

bind_create_forward_request_cases :
    (svc : Service) (r : CreateForwardRequest)
    → (bind_create_forward_request svc (some r) ≡ err 400)
      ⊎ ((bind_create_forward_request svc (some r) ≡ ok r)
          × (valid_forward_target r.target ≡ true)
          × (svc.range_from ≤ svc.range_to
              → (svc.range_from ≤ (allocation_range svc r.port).0)
                × ((allocation_range svc r.port).1 ≤ svc.range_to)))
unfolding bind_create_forward_request
bind_create_forward_request_cases svc r = ground arith

-- What a create request leaves behind, by its response. A refusal changes nothing; a conflict means
-- that every port of the range is taken; else the lowest free port of the range, or the requested
-- port, is the request's, and no other port has changed.
abbrev pub CreateOutcome :
    Service → Text → CreateForwardRequest → MemPortStore → Service × Response → Type 0
CreateOutcome svc agent r s (svc', failure code) =
    (svc'.store ≡ some s)
    × (code ≡ 409
        → Taken (allocation_range svc r.port).0 (suc (allocation_range svc r.port).1) s.mappings)
CreateOutcome svc agent r s (svc', created f) =
    (svc.range_from ≤ f.port)
    × (f.port ≤ svc.range_to)
    × (not (r.port == 0) ≡ true → f.port ≡ r.port)
    × (f.mapping ≡ new_mapping agent r)
    × (has s.mappings f.port ≡ false)
    × Taken (allocation_range svc r.port).0 f.port s.mappings
    × ((s' : MemPortStore) × (svc'.store ≡ some s')
        × ((q : ℕ)
            → get s'.mappings q
              ≡ (if f.port == q then some (new_mapping agent r) else get s.mappings q)))
CreateOutcome svc agent r s (svc', listing _) = ⊥
CreateOutcome svc agent r s (svc', no_content) = ⊥

answer_create_lem :
    (svc : Service) (agent : Text) (r : CreateForwardRequest) (s : MemPortStore)
    (a : MemPortStore × Result PortError ℕ)
    → svc.range_from ≤ (allocation_range svc r.port).0
    → (allocation_range svc r.port).1 ≤ svc.range_to
    → Allocated
        (allocation_range svc r.port).0
        (allocation_range svc r.port).1
        (new_mapping agent r)
        s
        a
    → (out : Service × Response) × (answer_create svc (new_mapping agent r) (some a) ≡ some out)
      × CreateOutcome svc agent r s out
unfolding answer_create
answer_create_lem svc agent r s (s', ok port) low high (inl (_, bad)) = absurd (cc)
answer_create_lem svc agent r s (s', err e) low high (inl (_, bad)) =
    (_, refl, (ap (λ x. some x.0) bad, λ code. ground arith))
answer_create_lem svc agent r s (s', ok port) low high (inr (_, c)) = (
  _,
  refl,
  (
    omega (arith, c.0),
    omega (arith, c.1),
    λ n. ground (arith, c.0, c.1),
    refl,
    c.2,
    c.3,
    (s', refl, c.4),
  ),
)
answer_create_lem svc agent r s (s', err e) low high (inr (_, c)) =
    (_, refl, (ap some c.0, λ code. c.2))

create_forward_refused :
    (svc : Service) (agent : Text) (r : CreateForwardRequest) (s : MemPortStore) (code : ℕ)
    → svc.store ≡ some s
    → bind_create_forward_request svc (some r) ≡ err code
    → create_forward svc agent (some r) ≡ some (svc, failure code)
unfolding create_forward
create_forward_refused svc agent r s code st bad = ground arith

create_forward_accepted :
    (svc : Service) (agent : Text) (r : CreateForwardRequest) (s : MemPortStore)
    → svc.store ≡ some s
    → bind_create_forward_request svc (some r) ≡ ok r
    → create_forward svc agent (some r)
      ≡ answer_create svc (new_mapping agent r) (
          allocate
            (allocation_range svc r.port).0
            (allocation_range svc r.port).1
            (new_mapping agent r)
            s)
unfolding create_forward
create_forward_accepted svc agent r s st good = ground arith

-- A create request on a service with a store and a proper range is always answered. Unless it is
-- refused, which leaves the store alone and with status 409 means that no port is free, it gets a
-- free port of the range, its own port if it named one, and the lowest free one if not; the store
-- then maps that port to the request's target and has no other change.
pub create_forward_lem :
    (svc : Service) (agent : Text) (r : CreateForwardRequest) (s : MemPortStore)
    → svc.store ≡ some s
    → svc.range_from ≤ svc.range_to
    → (out : Service × Response) × (create_forward svc agent (some r) ≡ some out)
      × CreateOutcome svc agent r s out
create_forward_lem svc agent r s st le = elim (bind_create_forward_request_cases svc r) [
  | inl bad ↦ (_, create_forward_refused svc agent r s 400 st bad, (st, λ code. ground arith))
  | inr (good, valid, range) ↦
      let (low, high) = range le in
      let (a, e, c) =
        allocate_lem (allocation_range svc r.port).0 (allocation_range svc r.port).1
          (new_mapping agent r) s in
      let (out, f, o) = answer_create_lem svc agent r s a low high c in
      (
        out,
        create_forward_accepted svc agent r s st good
            ∙ ap (answer_create svc (new_mapping agent r)) e
            ∙ f,
        o,
      )
]

delete_forward-some :
    (svc : Service) (text : Text) (port : ℕ) (s : MemPortStore)
    → svc.store ≡ some s
    → parse_uint 32 text ≡ some port
    → delete_forward svc text ≡ (
        if port == 0 || ltb 65535 port
        then (svc, failure 400)
        else (record svc { store = some (release port s).0 }, no_content))
unfolding delete_forward
delete_forward-some svc text port s st e = ground arith

delete_forward-none :
    (svc : Service) (text : Text) → svc.store ≡ none → delete_forward svc text ≡ (svc, failure 503)
unfolding delete_forward
delete_forward-none svc text st = ground arith

-- What a delete request for a port leaves behind, by the store before it.
abbrev pub DeleteOutcome : Service → ℕ → Option MemPortStore → Service × Response → Type 0
DeleteOutcome svc port none (svc', response) = (svc' ≡ svc) × (response ≡ failure 503)
DeleteOutcome svc port (some s) (svc', response) =
    if port == 0 || ltb 65535 port
    then (svc' ≡ svc) × (response ≡ failure 400)
    else (response ≡ no_content)
      × ((s' : MemPortStore) × (svc'.store ≡ some s')
          × ((q : ℕ) → get s'.mappings q ≡ (if port == q then none else get s.mappings q)))

delete_outcome :
    (svc : Service) (port : ℕ)
    → port < 2 ^ 32
    → (store : Option MemPortStore) → svc.store ≡ store
    → DeleteOutcome svc port store (delete_forward svc (format_uint port))
unfolding release
delete_outcome svc port small none st =
    rw (delete_forward-none svc (format_uint port) st) (refl, refl)
delete_outcome svc port small (some s) st =
    let e =
      delete_forward-some svc (format_uint port) port s st
        (parse_uint-format_uint 32 port (omega arith)) in
    elim (Bool-cases (port == 0 || ltb 65535 port)) [
      | inl bad ↦ rw (e, bad) (refl, refl)
      | inr good ↦ rw (e, good) (refl, (_, refl, λ q. get-delete s.mappings port q))
    ]

-- A delete request with the decimal text of a number below 2 ^ 32, on a service with the memory store
-- or without a store. Without one it is answered with status 503, and the port 0 and those above
-- 65535 with 400, with nothing changed; for every other port, mapped or not, the answer is no content, the
-- port is then not mapped and no other port has changed.
pub delete_forward_lem :
    (svc : Service) (port : ℕ)
    → port < 2 ^ 32
    → DeleteOutcome svc port svc.store (delete_forward svc (format_uint port))
delete_forward_lem svc port small = delete_outcome svc port small svc.store refl
