-- ===== src/Listeners.antt =====
-- pkg/controller/listeners.go: the listeners of the public ports, and the accept loop of one. What
-- the operating system answers to a `Listen`, a `Close` or an `Accept` is an argument.
pub mod Reconcile
pub mod Accept
use hostlink.Prelude.{
  ℕ, ◌*◌, ◌/◌, Bool, true, false, Option, none, some, List, [], ◌∷◌, ◌++◌, if◌then◌else◌, leb, ◌==◌,
  nat_comparable,
}
use hostlink.Map.{Map, get, put, delete, keys}
use hostlink.Order.{member, sorted_ports}

-- `active` holds the listener of each bound port; `cancelled` is `m.ctx.Err() != nil`.
pub record ListenerManager : Type 0 where
  pub active : Map ℕ ℕ
  pub cancelled : Bool

-- `close_fails` is a `Close` that fails with something else than `net.ErrClosed`.
pub record Net : Type 0 where
  pub close_fails : ℕ → Bool
  pub listen : ℕ → Option ℕ

-- The first loop of `reconcile`: the entries still to visit.
unfoldable pub close_unwanted : Net → List ℕ → Map ℕ ℕ → Map ℕ ℕ → Map ℕ ℕ
close_unwanted net wanted [] active = active
close_unwanted net wanted ((port, l) ∷ rest) active = close_unwanted net wanted rest (
    if member port wanted
    then active
    else (if net.close_fails l then active else delete active port))

-- The second loop of `reconcile`: the ports still to visit, the active map, the failed ports.
unfoldable pub bind_wanted : Net → List ℕ → Map ℕ ℕ → List ℕ → Map ℕ ℕ × List ℕ
bind_wanted net [] active failed = (active, failed)
bind_wanted net (port ∷ rest) active failed =
    let skip = bind_wanted net rest active failed in
    let fail = bind_wanted net rest active (port ∷ failed) in
    elim (get active port) [
      | some l ↦ skip
      | none ↦ if port == 0 then fail else elim (net.listen port) [
        | none ↦ fail
        | some l ↦ bind_wanted net rest (put active port l) failed
      ]
    ]

-- `boundPortsLocked`
unfoldable pub bound_ports : ListenerManager → List ℕ
bound_ports m = sorted_ports (keys m.active)

-- `reconcile`: the manager, and the bound and the failed ports.
unfoldable pub reconcile : Net → List ℕ → ListenerManager → ListenerManager × List ℕ × List ℕ
unfolding close_unwanted bind_wanted bound_ports
reconcile net wanted m =
    let r = bind_wanted net wanted (close_unwanted net wanted m.active m.active) [] in
    let m' = record m { active = r.0 } in
    if m.cancelled then (m, [], []) else (m', bound_ports m', sorted_ports r.1)

-- `close`: the context is cancelled and no listener is left; the ports whose `Close` failed.
unfoldable pub close_loop : Net → Map ℕ ℕ → List ℕ
close_loop net [] = []
close_loop net ((port, l) ∷ rest) =
    let errs = close_loop net rest in if net.close_fails l then port ∷ errs else errs

unfoldable pub close : Net → ListenerManager → ListenerManager × List ℕ
unfolding close_loop
close net m = (record { active = []; cancelled = true }, close_loop net m.active)

-- Durations are in milliseconds.
abbrev pub initial_accept_backoff : ℕ
initial_accept_backoff = 100

abbrev pub maximum_accept_backoff : ℕ
maximum_accept_backoff = 1000

unfoldable pub next_accept_backoff : ℕ → ℕ
next_accept_backoff backoff =
    if leb (maximum_accept_backoff / 2) backoff then maximum_accept_backoff else backoff * 2

-- What one `Accept` returns; `failed` carries whether the wait that follows ends by the timer.
pub data Accepted : Type 0 where
  tcp other : ℕ → Accepted
  closed : Accepted
  failed : Bool → Accepted

-- What the accept loop did: the connections handed to the handler, those closed at once, the waits,
-- and whether it returned.
pub record Served : Type 0 where
  pub handed : List ℕ
  pub rejected : List ℕ
  pub waits : List ℕ
  pub stopped : Bool

-- The loop of `accept`, on what `Accept` returns.
unfoldable pub accept : List Accepted → ℕ → Served
unfolding next_accept_backoff
accept [] backoff = record { handed = []; rejected = []; waits = []; stopped = false }
accept (closed ∷ rest) backoff = record { handed = []; rejected = []; waits = []; stopped = true }
accept (failed waited ∷ rest) backoff =
    let more = accept rest (next_accept_backoff backoff) in
    if waited
    then record more { waits = backoff ∷ more.waits }
    else record { handed = []; rejected = []; waits = backoff ∷ []; stopped = true }
accept (tcp conn ∷ rest) backoff =
    let more = accept rest initial_accept_backoff in record more { handed = conn ∷ more.handed }
accept (other conn ∷ rest) backoff =
    let more = accept rest initial_accept_backoff in record more { rejected = conn ∷ more.rejected }
