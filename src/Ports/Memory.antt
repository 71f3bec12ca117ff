-- ===== src/Ports/Memory.antt =====
-- pkg/controller/ports.go, `memPortStore`: the port registry of a single replica. Each method runs
-- under the store's mutex and notifies after it, so a call is one step on the state.
pub mod Allocate
pub mod Release
use hostlink.Prelude.{
  ℕ, zero, suc, ◌+◌, ◌-◌, ◌%◌, ◌^◌, Bool, true, false, Option, none, some, List, [], ◌∷◌, ◌==◌,
  if◌then◌else◌, Result, ok, err, Text, or_fail, nat_comparable, text_comparable,
}
use hostlink.Map.{Map, get, put, delete, has}
use hostlink.Ports.{
  PortMapping, PortError, port_range_exhausted, port_not_found, validate_port_range,
}
use hostlink.Ports.Watchers.{PortWatchers, new_watchers, notify, close as close_watchers}

pub record MemPortStore : Type 0 where
  pub mappings : Map ℕ PortMapping
  pub watchers : PortWatchers

abbrev pub new_mem_port_store : MemPortStore
new_mem_port_store = record { mappings = []; watchers = new_watchers }

-- The loop of `allocate` from `port` on; `none` means that the fuel ran out. `port` is a uint32.
unfoldable pub claim :
    ℕ → ℕ → ℕ → PortMapping → MemPortStore → Option (MemPortStore × Result PortError ℕ)
claim zero port to mapping s = none
claim (suc f) port to mapping s =
    let rest = claim f ((port + 1) % 2 ^ 32) to mapping s in
    if has s.mappings port
    then (if port == to then some (s, err port_range_exhausted) else rest)
    else some
        (record { mappings = put s.mappings port mapping; watchers = notify s.watchers }, ok port)

unfoldable pub allocate :
    ℕ → ℕ → PortMapping → MemPortStore → Option (MemPortStore × Result PortError ℕ)
unfolding claim
allocate from to mapping s = elim (validate_port_range from to) [
  | err e ↦ some (s, err e)
  | ok _ ↦ claim (suc (to - from)) from to mapping s
]

unfoldable pub release : ℕ → MemPortStore → MemPortStore × Result PortError (Unit {0})
release port s = (
  record {
    mappings = delete s.mappings port;
    watchers = if has s.mappings port then notify s.watchers else s.watchers;
  },
  ok tt,
)

unfoldable pub lookup : ℕ → MemPortStore → Result PortError PortMapping
lookup port s = or_fail (get s.mappings port) port_not_found

unfoldable pub update : ℕ → PortMapping → MemPortStore → MemPortStore × Result PortError (Unit {0})
update port mapping s =
    if has s.mappings port
    then (record s { mappings = put s.mappings port mapping }, ok tt)
    else (s, err port_not_found)

-- `maps.Copy`
unfoldable pub copy : Map ℕ PortMapping → Map ℕ PortMapping → Map ℕ PortMapping
copy dst [] = dst
copy dst ((port, mapping) ∷ src) = copy (put dst port mapping) src

unfoldable pub desired : MemPortStore → Map ℕ PortMapping
unfolding copy
desired s = copy [] s.mappings

-- The loop of `releaseByAgent`: the entries still to visit, the store's map and the released ports,
-- the last one first.
unfoldable pub release_loop :
    Text → Map ℕ PortMapping → Map ℕ PortMapping → List ℕ → Map ℕ PortMapping × List ℕ
release_loop agent [] m ports = (m, ports)
release_loop agent ((port, mapping) ∷ rest) m ports =
    let hit = mapping.agent_id == agent in
    release_loop agent rest (if hit then delete m port else m) (if hit then port ∷ ports else ports)

abbrev notify_unless_empty : List ℕ → PortWatchers → PortWatchers
notify_unless_empty [] w = w
notify_unless_empty (_ ∷ _) w = notify w

unfoldable pub release_by_agent : Text → MemPortStore → MemPortStore × List ℕ
unfolding release_loop
release_by_agent agent s =
    let (m, ports) = release_loop agent s.mappings s.mappings [] in
    (record { mappings = m; watchers = notify_unless_empty ports s.watchers }, ports)

-- `close`: the watchers go, the mappings stay readable.
unfoldable pub close : MemPortStore → MemPortStore
close s = record s { watchers = close_watchers s.watchers }
