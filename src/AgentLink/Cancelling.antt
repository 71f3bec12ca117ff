-- ===== src/AgentLink/Cancelling.antt =====
-- pkg/agent/agent.go, `startCancellable` and `cancelInflight`: a cancel reaches the handler of its
-- request.
use hostlink.Prelude.{
  ℕ, ◌<◌, ◌≡◌, refl, sym, ap, ◌∙◌, subst, true, false, Option, none, some, ◌==◌, Text, arith,
  nat_comparable, text_comparable, Bool-cases, Option-cases, inl, inr, ◌⊎◌, ==_refl,
}
use hostlink.Map.{Map, get, put, delete}
use hostlink.Map.Laws.{get-put, get-delete}
use hostlink.AgentLink.{
  Handler, Handlers, no_handlers, start_cancellable, cancel, finish_handler, cancel_inflight,
}

-- The handler that a number names, if it runs.
abbrev pub Runs : Handlers → ℕ → Handler → Type 0
Runs a h x = (get a.handlers h ≡ some x) × (x.running ≡ true)

-- One step of the receive loop or of a handler's goroutine. The controller gives a request an id that
-- no running handler has.
pub data Step : Handlers → Handlers → Type 0 where
  starts :
      {a : Handlers} (request_id : Text)
      → ((h : ℕ) (x : Handler) → Runs a h x → (request_id == x.request_id) ≡ false)
      → Step a (start_cancellable request_id a)
  finishes : {a : Handlers} (h : ℕ) (x : Handler) → Runs a h x → Step a (finish_handler h a)
  cancels : {a : Handlers} (payload : Option Text) → Step a (cancel_inflight payload a)

pub data Reachable : Handlers → Type 0 where
  none_yet : Reachable no_handlers
  later : {a b : Handlers} → Reachable a → Step a b → Reachable b

-- Every running handler is registered under its request id, and each handler was made.
pub record IsRegistered (a : Handlers) : Type 0 where
  pub registered : (h : ℕ) (x : Handler) → Runs a h x → get a.cancels x.request_id ≡ some h
  pub numbered : (h : ℕ) (x : Handler) → get a.handlers h ≡ some x → h < a.made

no_handlers-IsRegistered : IsRegistered no_handlers
unfolding get
no_handlers-IsRegistered = record {
  registered = λ h x r. let e = r.0 in absurd cc;
  numbered = λ h x e. absurd cc;
}

-- What a lookup after `m[k] = v` has found.
get-put_cases :
    (m : Map ℕ Handler) (k j : ℕ) (v x : Handler)
    → get (put m k v) j ≡ some x
    → (((k == j) ≡ true) × (v ≡ x)) ⊎ (((k == j) ≡ false) × (get m j ≡ some x))
get-put_cases m k j v x h =
    let e = sym (get-put m k j v) ∙ h in
    elim (Bool-cases (k == j)) [
      | inl same ↦ inl (same, ground arith)
      | inr differ ↦ inr (differ, ground arith)
    ]

start_cancellable-IsRegistered :
    (a : Handlers) (request_id : Text)
    → ((h : ℕ) (x : Handler) → Runs a h x → (request_id == x.request_id) ≡ false)
    → IsRegistered a
    → IsRegistered (start_cancellable request_id a)
unfolding start_cancellable
start_cancellable-IsRegistered a request_id fresh i = record {
  registered = λ h x r. elim (get-put_cases a.handlers a.made h _ x r.0) [
    | inl (new, e) ↦
        subst (λ y. get (put a.cancels request_id a.made) (Handler.request_id y) ≡ some h) e
          (ground (arith, get-put a.cancels request_id request_id a.made, ==_refl request_id))
    | inr (old, was) ↦ ground (
      arith,
      get-put a.cancels request_id x.request_id a.made,
      fresh h x (was, r.1),
      i.registered h x (was, r.1),
    )
  ];
  numbered = λ h x e. elim (get-put_cases a.handlers a.made h _ x e) [
    | inl (new, _) ↦ ground arith
    | inr (old, was) ↦ let lt = i.numbered h x was in omega arith
  ];
}

-- Two running handlers have different requests.
other_request :
    (a : Handlers) (h g : ℕ) (x y : Handler)
    → Runs a h x
    → Runs a g y
    → IsRegistered a
    → (h == g) ≡ false
    → (x.request_id == y.request_id) ≡ false
other_request a h g x y r q i differ = elim (Bool-cases (x.request_id == y.request_id)) [
  | inl same ↦
      let e : x.request_id ≡ y.request_id = ground arith in
      let k = sym (i.registered h x r) ∙ ap (λ z. get a.cancels z) e ∙ i.registered g y q in
      ground arith
  | inr n ↦ n
]

finish_handler-IsRegistered :
    (a : Handlers) (h : ℕ) (x : Handler)
    → Runs a h x
    → IsRegistered a
    → IsRegistered (finish_handler h a)
unfolding finish_handler
finish_handler-IsRegistered a h x r i =
    rw (r.0, finish_handler)
      (record {
        registered = λ g y q. elim (get-put_cases a.handlers h g _ y q.0) [
          | inl (same, e) ↦ let stopped = ap (λ z. Handler.running z) e ∙ q.1 in absurd cc
          | inr (other, was) ↦ ground (
            arith,
            get-delete a.cancels x.request_id y.request_id,
            other_request a h g x y r (was, q.1) i other,
            i.registered g y (was, q.1),
          )
        ];
        numbered = λ g y e. elim (get-put_cases a.handlers h g _ y e) [
          | inl (same, _) ↦ let lt = i.numbered h x r.0 in ground arith
          | inr (other, was) ↦ i.numbered g y was
        ];
      })

-- Flipping a handler's context changes no registration.
cancel-IsRegistered :
    (a : Handlers) (h : ℕ)
    → IsRegistered a
    → IsRegistered (record a { handlers = cancel h a.handlers })
cancel-IsRegistered a h i = elim (Option-cases (get a.handlers h)) [
  | inl none_there ↦ rw (none_there, cancel) i
  | inr (x, there) ↦
      rw (there, cancel)
        (record {
          registered = λ g y q. elim (get-put_cases a.handlers h g _ y q.0) [
            | inl (same, e) ↦
                let k : h ≡ g = ground arith in
                subst (λ z. get a.cancels (Handler.request_id z) ≡ some g) e
                  (subst (λ n. get a.cancels x.request_id ≡ some n) k
                    (i.registered h x (there, ap (λ z. Handler.running z) e ∙ q.1)))
            | inr (other, was) ↦ i.registered g y (was, q.1)
          ];
          numbered = λ g y e. elim (get-put_cases a.handlers h g _ y e) [
            | inl (same, _) ↦ let lt = i.numbered h x there in ground arith
            | inr (other, was) ↦ i.numbered g y was
          ];
        })
]

cancel_inflight-IsRegistered :
    (a : Handlers) (payload : Option Text)
    → IsRegistered a
    → IsRegistered (cancel_inflight payload a)
unfolding cancel_inflight
cancel_inflight-IsRegistered a none i = i
cancel_inflight-IsRegistered a (some request_id) i =
    elim (Option-cases (get a.cancels request_id)) [
      | inl unknown ↦ rw (unknown, cancel_inflight) i
      | inr (h, known) ↦ rw (known, cancel_inflight) (cancel-IsRegistered a h i)
    ]

Step-IsRegistered : {a b : Handlers} → Step a b → IsRegistered a → IsRegistered b
Step-IsRegistered {a = a} (Step.starts request_id fresh) i =
    start_cancellable-IsRegistered a request_id fresh i
Step-IsRegistered {a = a} (Step.finishes h x r) i = finish_handler-IsRegistered a h x r i
Step-IsRegistered {a = a} (Step.cancels payload) i = cancel_inflight-IsRegistered a payload i

Reachable-IsRegistered : {a : Handlers} → Reachable a → IsRegistered a
Reachable-IsRegistered none_yet = no_handlers-IsRegistered
Reachable-IsRegistered (later before step) = Step-IsRegistered step (Reachable-IsRegistered before)

-- However handlers start, end and are cancelled, if no request has the id of one that runs: a cancel
-- for the request of a running handler ends that handler's context, and leaves every other handler
-- and every registration alone.
pub cancel_inflight_lem :
    {a : Handlers} (h : ℕ) (x : Handler)
    → Reachable a
    → Runs a h x
    → let b = cancel_inflight (some x.request_id) a in
      (get b.handlers h ≡ some (record x { cancelled = true }))
      × ((g : ℕ) → (h == g) ≡ false → get b.handlers g ≡ get a.handlers g)
      × (b.cancels ≡ a.cancels)
unfolding cancel_inflight
cancel_inflight_lem {a = a} h x reached r =
    let i = Reachable-IsRegistered reached in
    rw (i.registered h x r, r.0, cancel_inflight, cancel)
      (
        ground (arith, get-put a.handlers h h (record x { cancelled = true }), ==_refl h),
        λ g other. ground (arith, get-put a.handlers h g (record x { cancelled = true })),
        refl,
      )

finish_handler_eq :
    (a : Handlers) (h : ℕ) (x : Handler)
    → get a.handlers h ≡ some x
    → finish_handler h a ≡ record a {
      cancels = delete a.cancels x.request_id;
      handlers = put a.handlers h (record x { running = false; cancelled = true });
    }
unfolding finish_handler
finish_handler_eq a h x e = rw (e, finish_handler) refl

unknown_request :
    (a : Handlers) (request_id : Text)
    → get a.cancels request_id ≡ none
    → cancel_inflight (some request_id) a ≡ a
unfolding cancel_inflight
unknown_request a request_id e = rw (e, cancel_inflight) refl

-- The end of a handler removes its request's registration, whoever holds it: if a later request takes
-- the same id while the first handler still runs, then after the first one's end a cancel for that id
-- changes nothing, and the second handler runs on.
pub late_finish_lem :
    {a : Handlers} (h : ℕ) (x : Handler)
    → Reachable a
    → Runs a h x
    → let b = finish_handler h (start_cancellable x.request_id a) in
      (Runs b a.made (record { request_id = x.request_id; running = true; cancelled = false }))
      × (cancel_inflight (some x.request_id) b ≡ b)
unfolding start_cancellable
late_finish_lem {a = a} h x reached r =
    let lt = IsRegistered.numbered (Reachable-IsRegistered reached) h x r.0 in
    let other : (a.made == h) ≡ false = ground arith in
    let other' : (h == a.made) ≡ false = ground arith in
    let second : Handler = record {
      request_id = x.request_id;
      running = true;
      cancelled = false;
    } in
    let there : get (put a.handlers a.made second) h ≡ some x =
      ground (arith, get-put a.handlers a.made h second) in
    let e = finish_handler_eq (start_cancellable x.request_id a) h x there in
    rw e (
      (
        get-put (put a.handlers a.made second) h a.made
              (record x { running = false; cancelled = true })
            ∙ ground (arith, get-put a.handlers a.made a.made second, ==_refl a.made),
        refl,
      ),
      unknown_request _ x.request_id (
          ground (
            arith,
            get-delete (put a.cancels x.request_id a.made) x.request_id x.request_id,
            ==_refl x.request_id,
          )),
    )
