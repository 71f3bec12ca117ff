-- ===== src/ForwardHandler/SessionIds.antt =====
-- pkg/controller/forward_handler.go: the session ids that a connection uses.
use hostlink.Prelude.{
  ◌≡◌, ◌==◌, ◌&&◌, ◌||◌, if◌then◌else◌, Option, none, some, inl, inr, Bool, true, false, List, [],
  ◌∷◌, ◌++◌, ◌∙◌, refl, ap, Text, text_comparable, Result, ok, err, arith, Option-cases, Bool-cases,
  subst,
}
use hostlink.Ports.{PortMapping, PortError}
use hostlink.ForwardHandler.{
  Action, expect_session, cancel_session, dial_peer, Paired, LocalAnswers, after_pairing,
  handle_local, Dialled, RemoteAnswers, dial_result, attempt, handle_remote,
}
use hostlink.ForwardHandler.Phases.{is_stale, comes_to_dial}

-- The sessions that are expected or sent to a peer, in order.
unfoldable pub sessions_in : List Action → List Text
sessions_in [] = []
sessions_in (expect_session id ∷ actions) = id ∷ sessions_in actions
sessions_in (dial_peer addr agent target id ∷ actions) = id ∷ sessions_in actions
sessions_in (_ ∷ actions) = sessions_in actions

abbrev pub made : Option Text → List Text
made none = []
made (some id) = id ∷ []

abbrev pub made_for_dial : Text → RemoteAnswers → List Text
made_for_dial self_addr a = elim a.holder [
  | err e ↦ []
  | ok addr ↦ if addr == [] || addr == self_addr then [] else made a.session_id
]

-- The ids that are made for a connection: one on the local path, one for each dial on the remote one.
abbrev pub made_sessions :
    Bool
    → Text
    → Result PortError PortMapping
    → Bool
    → LocalAnswers
    → RemoteAnswers
    → RemoteAnswers
    → List Text
made_sessions has_peers self_addr (err e) here l a b = []
made_sessions has_peers self_addr (ok m) here l a b =
    if m.suspended
    then []
    else if here
    then made l.session_id
    else if has_peers
    then made_for_dial self_addr a
      ++ (if comes_to_dial self_addr a && is_stale a.dialled then made_for_dial self_addr b else [])
    else []

sessions_in-after_pairing :
    (p : Paired) (spliced : Bool) (id : Text)
    → sessions_in (after_pairing p spliced ++ cancel_session id ∷ []) ≡ []
unfolding after_pairing sessions_in
sessions_in-after_pairing p spliced id = ground arith

pub sessions_in-handle_local :
    (m : PortMapping) (l : LocalAnswers) → sessions_in (handle_local m l) ≡ made l.session_id
unfolding handle_local sessions_in
sessions_in-handle_local m l = elim (Option-cases l.session_id) [
  | inl e ↦ ground (arith, e)
  | inr (id, e) ↦ ground (arith, e, sessions_in-after_pairing l.pairing l.spliced id)
]

sessions_in-dial_result :
    (is_first : Bool) (retry : List Action) (dialled : Dialled) (spliced : Bool)
    → sessions_in (dial_result is_first retry dialled spliced)
      ≡ (if is_first && is_stale dialled then sessions_in retry else [])
unfolding dial_result sessions_in
sessions_in-dial_result is_first retry dialled spliced = ground arith

sessions_in-round :
    (is_first : Bool) (retry : List Action) (self_addr : Text) (m : PortMapping)
    (holder : Result PortError Text) (session_id : Option Text) (dialled : Dialled) (spliced : Bool)
    → let a : RemoteAnswers = record {
      holder = holder;
      session_id = session_id;
      dialled = dialled;
      spliced = spliced;
    } in
      sessions_in (attempt is_first retry self_addr m a)
      ≡ made_for_dial self_addr a
        ++ (if comes_to_dial self_addr a && (is_first && is_stale dialled)
            then sessions_in retry
            else [])
unfolding attempt sessions_in
sessions_in-round is_first retry self_addr m (err e) session_id dialled spliced = ground arith
sessions_in-round is_first retry self_addr m (ok []) session_id dialled spliced = ground arith
sessions_in-round is_first retry self_addr m (ok (c ∷ addr)) none dialled spliced =
    elim (Bool-cases ((c ∷ addr) == self_addr)) [
      | inl e ↦ rw e (ground arith)
      | inr e ↦ rw e (ground arith)
    ]
sessions_in-round is_first retry self_addr m (ok (c ∷ addr)) (some id) dialled spliced =
    elim (Bool-cases ((c ∷ addr) == self_addr)) [
      | inl e ↦ rw e (ground arith)
      | inr e ↦ rw e (ground (arith, sessions_in-dial_result is_first retry dialled spliced))
    ]

sessions_in-attempt :
    (is_first : Bool) (retry : List Action) (self_addr : Text) (m : PortMapping) (a : RemoteAnswers)
    → sessions_in (attempt is_first retry self_addr m a)
      ≡ made_for_dial self_addr a
        ++ (if comes_to_dial self_addr a && (is_first && is_stale a.dialled)
            then sessions_in retry
            else [])
sessions_in-attempt is_first retry self_addr m a =
    sessions_in-round is_first retry self_addr m a.holder a.session_id a.dialled a.spliced

append_nil : (ids : List Text) → ids ++ [] ≡ ids
append_nil [] = refl
append_nil (id ∷ ids) = ap (◌∷◌ id) (append_nil ids)

only_once :
    (dials : Bool) (ids more : List Text) → ids ++ (if dials && false then more else []) ≡ ids
only_once dials ids more = ground (arith, append_nil ids)

pub sessions_in-handle_remote :
    (self_addr : Text) (m : PortMapping) (a b : RemoteAnswers)
    → sessions_in (handle_remote true self_addr m a b)
      ≡ made_for_dial self_addr a
        ++ (if comes_to_dial self_addr a && is_stale a.dialled
            then made_for_dial self_addr b
            else [])
unfolding handle_remote
sessions_in-handle_remote self_addr m a b =
    let last : sessions_in (attempt false [] self_addr m b) ≡ made_for_dial self_addr b =
      sessions_in-attempt false [] self_addr m b
      ∙ only_once (comes_to_dial self_addr b) (made_for_dial self_addr b) (sessions_in []) in
    subst
      (λ ids.
        sessions_in (attempt true (attempt false [] self_addr m b) self_addr m a)
        ≡ made_for_dial self_addr a
          ++ (if comes_to_dial self_addr a && is_stale a.dialled then ids else []))
      last (sessions_in-attempt true (attempt false [] self_addr m b) self_addr m a)

pub no_peers-sessions_in :
    (self_addr : Text) (m : PortMapping) (a b : RemoteAnswers)
    → sessions_in (handle_remote false self_addr m a b) ≡ []
unfolding handle_remote sessions_in
no_peers-sessions_in self_addr m a b = refl
