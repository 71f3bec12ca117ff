-- ===== src/Ports/Memory/Release.antt =====
-- pkg/controller/ports.go, `memPortStore`: what `releaseByAgent` and `desired` do to each port.
use hostlink.Prelude.{
  ℕ, ◌≡◌, refl, Bool, true, false, ◌||◌, Option, none, some, List, [], ◌∷◌, ◌==◌, if◌then◌else◌,
  arith, nat_comparable, text_comparable, Text,
}
use hostlink.Map.{Map, get, put, delete, has}
use hostlink.Map.Laws.{get-put, get-delete, Distinct}
use hostlink.Ports.{PortMapping}
use hostlink.Ports.Watchers.{notify}
use hostlink.Ports.Memory.{MemPortStore, desired, copy, release_loop, release_by_agent}

abbrev pub member : ℕ → List ℕ → Bool
member p [] = false
member p (q ∷ ps) = q == p || member p ps

-- Whether an entry that is there or not belongs to the agent.
abbrev pub owned_by : Text → Option PortMapping → Bool
owned_by agent none = false
owned_by agent (some m) = m.agent_id == agent

get-release_loop :
    (agent : Text) (rest m : Map ℕ PortMapping) (ports : List ℕ) (j : ℕ)
    → Distinct rest
    → get (release_loop agent rest m ports).0 j
      ≡ (if owned_by agent (get rest j) then none else get m j)
unfolding release_loop get
get-release_loop agent [] m ports j d = refl
get-release_loop agent ((k, x) ∷ rest) m ports j d = ground (
  arith,
  get-release_loop agent rest (delete m k) (k ∷ ports) j d.1,
  get-release_loop agent rest m ports j d.1,
  get-delete m k j,
)

member-release_loop :
    (agent : Text) (rest m : Map ℕ PortMapping) (ports : List ℕ) (j : ℕ)
    → Distinct rest
    → member j (release_loop agent rest m ports).1 ≡ (owned_by agent (get rest j) || member j ports)
unfolding release_loop get
member-release_loop agent [] m ports j d = refl
member-release_loop agent ((k, x) ∷ rest) m ports j d = ground (
  arith,
  member-release_loop agent rest (delete m k) (k ∷ ports) j d.1,
  member-release_loop agent rest m ports j d.1,
)

release_loop_idle :
    (agent : Text) (rest m : Map ℕ PortMapping) (ports : List ℕ)
    → (release_loop agent rest m ports).1 ≡ []
    → ((release_loop agent rest m ports).0 ≡ m) × (ports ≡ [])
unfolding release_loop
release_loop_idle agent [] m ports h = ground arith
release_loop_idle agent ((k, x) ∷ rest) m ports h = ground (
  arith,
  release_loop_idle agent rest (delete m k) (k ∷ ports),
  release_loop_idle agent rest m ports,
)

-- `releaseByAgent` deletes the agent's mappings and no other, and returns exactly their ports. The
-- watchers are notified if some port was released, and left alone otherwise.
pub release_by_agent_lem :
    (agent : Text) (s : MemPortStore) (j : ℕ)
    → Distinct s.mappings
    → let (s', ports) = release_by_agent agent s in
      (get s'.mappings j ≡ (if owned_by agent (get s.mappings j) then none else get s.mappings j))
      × (member j ports ≡ owned_by agent (get s.mappings j))
      × (ports ≡ [] → s' ≡ s)
      × (member j ports ≡ true → s'.watchers ≡ notify s.watchers)
unfolding release_by_agent
release_by_agent_lem agent s j d = (
  get-release_loop agent s.mappings s.mappings [] j d,
  ground (arith, member-release_loop agent s.mappings s.mappings [] j d),
  λ idle. ground (arith, release_loop_idle agent s.mappings s.mappings []),
  λ some_port. ground arith,
)

get-copy :
    (dst src : Map ℕ PortMapping) (j : ℕ)
    → Distinct src
    → get (copy dst src) j ≡ (if has src j then get src j else get dst j)
unfolding copy get has
get-copy dst [] j d = refl
get-copy dst ((k, x) ∷ src) j d =
    ground (arith, get-copy (put dst k x) src j d.1, get-put dst k j x)

-- `desired` is a copy of the mappings: it holds the same mapping for every port.
pub get-desired :
    (s : MemPortStore) (j : ℕ) → Distinct s.mappings → get (desired s) j ≡ get s.mappings j
unfolding desired has get
get-desired s j d = ground (arith, get-copy [] s.mappings j d)
