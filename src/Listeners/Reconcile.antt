-- ===== src/Listeners/Reconcile.antt =====
-- pkg/controller/listeners.go, `reconcile`: which ports are bound afterwards.
use hostlink.Prelude.{
  ℕ, ◌≡◌, refl, true, false, not, ◌&&◌, ◌||◌, Option, none, some, List, [], ◌∷◌, if◌then◌else◌,
  ◌==◌, nat_comparable, arith, inl, inr, Option-cases, ◌∙◌,
}
use hostlink.Map.{Map, get, put, delete, has, keys}
use hostlink.Map.Laws.{get-put, get-delete, Distinct}
use hostlink.Order.{member, member-sorted_ports, IsSorted, sorted_ports-IsSorted}
use hostlink.Listeners.{ListenerManager, Net, close_unwanted, bind_wanted, bound_ports, reconcile}

-- The listener of an unwanted port after the first loop.
abbrev pub left_open : Net → Option ℕ → Option ℕ
left_open net none = none
left_open net (some l) = if net.close_fails l then some l else none

get-close_unwanted :
    (net : Net) (wanted : List ℕ) (rest active : Map ℕ ℕ) (p : ℕ)
    → Distinct rest
    → get (close_unwanted net wanted rest active) p ≡ (
        if has rest p && not (member p wanted)
        then (elim (left_open net (get rest p)) [ some _ ↦ get active p | none ↦ none ])
        else get active p)
unfolding close_unwanted get has
get-close_unwanted net wanted [] active p d = refl
get-close_unwanted net wanted ((k, l) ∷ rest) active p d = ground (
  arith,
  get-close_unwanted net wanted rest active p d.1,
  get-close_unwanted net wanted rest (delete active k) p d.1,
  get-delete active k p,
)

-- The listener of a wanted port after the second loop.
abbrev pub opened : Net → ℕ → Option ℕ → Option ℕ
opened net p (some l) = some l
opened net p none = if p == 0 then none else net.listen p

get-bind_wanted :
    (net : Net) (wanted : List ℕ) (active : Map ℕ ℕ) (bad : List ℕ) (p : ℕ)
    → get (bind_wanted net wanted active bad).0 p
      ≡ (if member p wanted then opened net p (get active p) else get active p)
unfolding bind_wanted
get-bind_wanted net [] active bad p = refl
get-bind_wanted net (q ∷ wanted) active bad p = elim (Option-cases (net.listen q)) [
  | inl refused ↦ ground (
    arith,
    get-bind_wanted net wanted active bad p,
    get-bind_wanted net wanted active (q ∷ bad) p,
  )
  | inr (l, e) ↦ ground (
    arith,
    get-bind_wanted net wanted active bad p,
    get-bind_wanted net wanted active (q ∷ bad) p,
    get-bind_wanted net wanted (put active q l) bad p,
    get-put active q p l,
  )
]

member-bind_wanted :
    (net : Net) (wanted : List ℕ) (active : Map ℕ ℕ) (bad : List ℕ) (p : ℕ)
    → member p (bind_wanted net wanted active bad).1
      ≡ (member p bad || (member p wanted && not (has (bind_wanted net wanted active bad).0 p)))
unfolding bind_wanted has
member-bind_wanted net [] active bad p = ground arith
member-bind_wanted net (q ∷ wanted) active bad p = elim (Option-cases (net.listen q)) [
  | inl refused ↦ ground (
    arith,
    member-bind_wanted net wanted active bad p,
    member-bind_wanted net wanted active (q ∷ bad) p,
    get-bind_wanted net wanted active bad p,
    get-bind_wanted net wanted active (q ∷ bad) p,
  )
  | inr (l, e) ↦ ground (
    arith,
    member-bind_wanted net wanted active bad p,
    member-bind_wanted net wanted active (q ∷ bad) p,
    member-bind_wanted net wanted (put active q l) bad p,
    get-bind_wanted net wanted active bad p,
    get-bind_wanted net wanted active (q ∷ bad) p,
    get-bind_wanted net wanted (put active q l) bad p,
    get-put active q p l,
  )
]

has-get : (m : Map ℕ ℕ) (p : ℕ) → has m p ≡ (elim (get m p) [ some _ ↦ true | none ↦ false ])
unfolding has
has-get m p = refl

member-keys : (m : Map ℕ ℕ) (p : ℕ) → member p (keys m) ≡ has m p
unfolding has get
member-keys [] p = refl
member-keys ((k, l) ∷ m) p = ground (arith, member-keys m p)

-- The listener of each port after a round of a manager that is not shut down: a wanted port keeps
-- its listener or gets one if it can be bound, an unwanted one loses its listener unless closing it
-- fails. What happens to one port does not depend on any other.
abbrev pub converged : Net → List ℕ → ℕ → Option ℕ → Option ℕ
converged net wanted p before =
    if member p wanted then opened net p before else left_open net before

-- While the manager is not cancelled, `reconcile` brings every port to its converged state; it reports as bound exactly the ports that
-- have a listener and as failed exactly the wanted ports that have none, both in ascending order.
pub reconcile_lem :
    (net : Net) (wanted : List ℕ) (m : ListenerManager) (p : ℕ)
    → m.cancelled ≡ false
    → Distinct m.active
    → let (m', bound, failed) = reconcile net wanted m in
      (get m'.active p ≡ converged net wanted p (get m.active p))
      × (member p bound ≡ has m'.active p)
      × (member p failed ≡ (member p wanted && not (has m'.active p)))
      × IsSorted (λ q. q) bound
      × IsSorted (λ q. q) failed
unfolding reconcile bound_ports
reconcile_lem net wanted m p live d =
    let closed = close_unwanted net wanted m.active m.active in
    let r = bind_wanted net wanted closed [] in
    rw (live, reconcile)
      (
        ground (
          arith,
          get-close_unwanted net wanted m.active m.active p d,
          get-bind_wanted net wanted closed [] p,
          has-get m.active p,
        ),
        member-sorted_ports p (keys r.0) ∙ member-keys r.0 p,
        member-sorted_ports p r.1 ∙ member-bind_wanted net wanted closed [] p,
        sorted_ports-IsSorted (keys r.0),
        sorted_ports-IsSorted r.1,
      )
