-- ===== src/Tests/Ports.antt =====
-- The port registry, the listeners and the activation barrier at concrete inputs.
use hostlink.Prelude.{
  ℕ, ◌≡◌, refl, true, false, not, ◌&&◌, Option, none, some, List, [], ◌∷◌, map, Text, codes, Result,
  ok, arith, if◌then◌else◌, ◌==◌, nat_comparable, text_comparable, All,
}
use hostlink.Map.{Map, get, has}
use hostlink.Map.Laws.{Distinct}
use hostlink.Order.{member, IsSorted}
use hostlink.Ports.{PortMapping, PortError}
use hostlink.Ports.Watchers.{new_watchers, notify}
use hostlink.Ports.Memory.{MemPortStore, allocate, release_by_agent}
use hostlink.Ports.Memory.Allocate.{Allocated, allocate_lem}
use hostlink.Ports.Memory.Release as Release
use hostlink.Listeners.{ListenerManager, Net, reconcile, Accepted, tcp, failed, accept}
use hostlink.Listeners.Reconcile.{converged, reconcile_lem}
use hostlink.Listeners.Accept.{IsBackoff, tcp_conns, accept_lem}
use hostlink.Bindings.{PortState, shared, MGet, bound_key, states}
use hostlink.Bindings.States.{is_ready, verdict, states_lem}

abbrev web : PortMapping
web = record {
  agent_id = codes "edge";
  target = codes "10.0.0.7:80";
  container_id = codes "c1";
  suspended = false;
}

-- Port 8000 is taken.
abbrev one_taken : MemPortStore
one_taken = record { mappings = (8000, web) ∷ []; watchers = new_watchers }

abbrev one_taken-Distinct : Distinct one_taken.mappings
unfolding get
one_taken-Distinct = (refl, tt)

allocate_lem_example :
    (r : MemPortStore × Result PortError ℕ) × (allocate 8000 8002 web one_taken ≡ some r)
    × Allocated 8000 8002 web one_taken r
allocate_lem_example = allocate_lem 8000 8002 web one_taken

release_by_agent_lem_example :
    let (s', ports) = release_by_agent (codes "edge") one_taken in
    (get s'.mappings 8000 ≡ (
      if Release.owned_by (codes "edge") (get one_taken.mappings 8000)
      then none
      else get one_taken.mappings 8000))
    × (Release.member 8000 ports ≡ Release.owned_by (codes "edge") (get one_taken.mappings 8000))
    × (ports ≡ [] → s' ≡ one_taken)
    × (Release.member 8000 ports ≡ true → s'.watchers ≡ notify one_taken.watchers)
release_by_agent_lem_example =
    Release.release_by_agent_lem (codes "edge") one_taken 8000 one_taken-Distinct

abbrev net : Net
net = record { close_fails = λ l. false; listen = λ p. if p == 81 then none else some p }

abbrev manager : ListenerManager
manager = record { active = (80, 1) ∷ []; cancelled = false }

reconcile_lem_example :
    let (m', bound, unbound) = reconcile net (81 ∷ 90 ∷ []) manager in
    (get m'.active 90 ≡ converged net (81 ∷ 90 ∷ []) 90 (get manager.active 90))
    × (member 90 bound ≡ has m'.active 90)
    × (member 90 unbound ≡ (member 90 (81 ∷ 90 ∷ []) && not (has m'.active 90)))
    × IsSorted (λ (q : ℕ). q) bound
    × IsSorted (λ (q : ℕ). q) unbound
unfolding get
reconcile_lem_example = reconcile_lem net (81 ∷ 90 ∷ []) manager 90 refl (refl, tt)

abbrev accepts : List Accepted
accepts = tcp 7 ∷ failed true ∷ failed true ∷ tcp 9 ∷ failed false ∷ []

accept_lem_example :
    All IsBackoff (accept accepts 100).waits × ((accept accepts 100).handed ≡ tcp_conns accepts)
accept_lem_example = accept_lem accepts 100 (omega arith, omega arith)

-- Redis with one pod's key for the port.
abbrev bound_here : Text → Option Text
bound_here key = if key == bound_key 8000 (codes "pod-0") then some (codes "1") else none

abbrev mget : MGet
mget ks = ok (map bound_here ks)

states_lem_example :
    (r : Map ℕ PortState) × (states (shared (ok (codes "pod-0" ∷ [])) mget) one_taken.mappings
      ≡ ok r)
    × ((p : ℕ)
        → get r p ≡ verdict (is_ready bound_here (codes "pod-0" ∷ []) p) (get one_taken.mappings p))
states_lem_example =
    states_lem mget bound_here (codes "pod-0" ∷ []) one_taken.mappings (λ ks. refl)
      one_taken-Distinct
