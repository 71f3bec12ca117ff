-- ===== src/ContainerEvents/Events.antt =====
-- pkg/controller/container_events.go: what an event does to the mapping of each port.
use hostlink.Prelude.{
  ℕ, ◌≡◌, refl, sym, ap, ◌∙◌, subst, Bool, true, false, not, ◌&&◌, ◌||◌, Option, none, some, [],
  ◌∷◌, if◌then◌else◌, ◌==◌, Text, codes, nat_comparable, text_comparable, ltb, leb, arith,
  Bool-cases, Option-cases, inl, inr,
}
use hostlink.Map.{Map, get, put, has}
use hostlink.Map.Laws.{get-put, Distinct, put-Distinct}
use hostlink.HostPort.{split_host_port, join_host_port}
use hostlink.Ports.{PortMapping}
use hostlink.Ports.Memory.{MemPortStore, desired, update, copy}
use hostlink.Ports.Memory.Release.{get-desired}
use hostlink.ContainerEvents.Networks.{IsPicked, pick_network_ip-IsPicked}
use hostlink.ContainerEvents.{
  pick_network_ip, at_ip, moved, container_mappings, suspend_container_mappings, resume_loop,
  resumed, Inspection, dispatch_failed, answered, resume_container_mappings, DockerEvent,
  process_container_event,
}

-- Whether the mapping is of the agent's container.
abbrev pub is_of : Text → Text → PortMapping → Bool
is_of agent container m = m.agent_id == agent && m.container_id == container

get-container_mappings :
    (agent container : Text) (ms affected : Map ℕ PortMapping) (p : ℕ)
    → Distinct ms
    → get (container_mappings agent container ms affected) p ≡ (elim (get ms p) [
      | none ↦ get affected p
      | some m ↦ if is_of agent container m then some m else get affected p
    ])
unfolding container_mappings get
get-container_mappings agent container [] affected p d = refl
get-container_mappings agent container ((k, m) ∷ ms) affected p d = ground (
  arith,
  get-put affected k p m,
  get-container_mappings agent container ms (put affected k m) p d.1,
  get-container_mappings agent container ms affected p d.1,
)

container_mappings-Distinct :
    (agent container : Text) (ms affected : Map ℕ PortMapping)
    → Distinct affected
    → Distinct (container_mappings agent container ms affected)
unfolding container_mappings
container_mappings-Distinct agent container [] affected d = d
container_mappings-Distinct agent container ((k, m) ∷ ms) affected d =
    elim (Bool-cases (is_of agent container m)) [
      | inl e ↦ rw e (
          container_mappings-Distinct agent container ms (put affected k m)
            (put-Distinct affected k m d))
      | inr e ↦ rw e (container_mappings-Distinct agent container ms affected d)
    ]

get-update :
    (k p : ℕ) (m : PortMapping) (s : MemPortStore)
    → get (update k m s).0.mappings p
      ≡ (if k == p && has s.mappings p then some m else get s.mappings p)
unfolding update has
get-update k p m s = ground (arith, get-put s.mappings k p m)

-- The port's mapping after an update to `change`, where the port is mapped.
abbrev replaced : Option PortMapping → Option PortMapping → Option PortMapping
replaced none change = none
replaced (some old) none = some old
replaced (some old) (some new) = some new

abbrev changed : (PortMapping → Option PortMapping) → Option PortMapping → Option PortMapping
changed f none = none
changed f (some m) = f m

get-suspend :
    (ms : Map ℕ PortMapping) (s : MemPortStore) (p : ℕ)
    → Distinct ms
    → get (suspend_container_mappings ms s).mappings p
      ≡ replaced (get s.mappings p) (changed (λ m. some (record m { suspended = true })) (get ms p))
unfolding suspend_container_mappings get has
get-suspend [] s p d = ground arith
get-suspend ((k, m) ∷ ms) s p d = ground (
  arith,
  get-update k p (record m { suspended = true }) s,
  get-suspend ms (update k (record m { suspended = true }) s).0 p d.1,
)

-- The store after one round of a loop: an update, or none.
abbrev updated : ℕ → Option PortMapping → MemPortStore → MemPortStore
updated k none s = s
updated k (some m) s = (update k m s).0

get-updated :
    (k p : ℕ) (o : Option PortMapping) (s : MemPortStore)
    → get (updated k o s).mappings p
      ≡ (if k == p then replaced (get s.mappings p) o else get s.mappings p)
unfolding has
get-updated k p none s = ground arith
get-updated k p (some m) s = ground (arith, get-update k p m s)

resume_loop_cons :
    (networks : Map Text Text) (k : ℕ) (m : PortMapping) (ms : Map ℕ PortMapping) (s : MemPortStore)
    → resume_loop networks ((k, m) ∷ ms) s
      ≡ resume_loop networks ms (updated k (resumed networks m) s)
unfolding resume_loop
resume_loop_cons networks k m ms s = elim (Option-cases (resumed networks m)) [
  | inl e ↦ rw e refl
  | inr (n, e) ↦ rw e refl
]

resume_nil :
    (networks : Map Text Text) (s : MemPortStore) (p : ℕ)
    → get (resume_loop networks [] s).mappings p ≡ replaced (get s.mappings p) none
unfolding resume_loop
resume_nil networks s p = ground arith

get-resume :
    (networks : Map Text Text) (ms : Map ℕ PortMapping) (s : MemPortStore) (p : ℕ)
    → Distinct ms
    → get (resume_loop networks ms s).mappings p
      ≡ replaced (get s.mappings p) (changed (resumed networks) (get ms p))
unfolding get
get-resume networks [] s p d = resume_nil networks s p
get-resume networks ((k, m) ∷ ms) s p d = ground (
  arith,
  resume_loop_cons networks k m ms s,
  get-updated k p (resumed networks m) s,
  get-resume networks ms (updated k (resumed networks m) s) p d.1,
)

copy-Distinct : (dst src : Map ℕ PortMapping) → Distinct dst → Distinct (copy dst src)
unfolding copy
copy-Distinct dst [] d = d
copy-Distinct dst ((k, m) ∷ src) d = copy-Distinct (put dst k m) src (put-Distinct dst k m d)

affected : Text → Text → MemPortStore → Map ℕ PortMapping
affected agent container s = container_mappings agent container (desired s) []

affected-Distinct :
    (agent container : Text) (s : MemPortStore) → Distinct (affected agent container s)
unfolding affected
affected-Distinct agent container s = container_mappings-Distinct agent container (desired s) [] tt

get-affected :
    (agent container : Text) (s : MemPortStore) (p : ℕ)
    → Distinct s.mappings
    → get (affected agent container s) p ≡ (elim (get s.mappings p) [
      | none ↦ none
      | some m ↦ if is_of agent container m then some m else none
    ])
unfolding affected get desired
get-affected agent container s p d = ground (
  arith,
  get-container_mappings agent container (desired s) [] p (copy-Distinct [] s.mappings tt),
  get-desired s p d,
)

-- The mapping that a start writes.
abbrev resumption : Inspection → PortMapping → Option PortMapping
resumption dispatch_failed m = none
resumption (answered code none) m = none
resumption (answered code (some networks)) m =
    if ltb code 200 || leb 300 code then none else resumed networks m

get-resume_container_mappings :
    (inspection : Inspection) (ms : Map ℕ PortMapping) (s : MemPortStore) (p : ℕ)
    → Distinct ms
    → get (resume_container_mappings inspection ms s).mappings p
      ≡ replaced (get s.mappings p) (changed (resumption inspection) (get ms p))
unfolding resume_container_mappings
get-resume_container_mappings dispatch_failed ms s p d = ground arith
get-resume_container_mappings (answered code none) ms s p d = ground arith
get-resume_container_mappings (answered code (some networks)) ms s p d =
    ground (arith, get-resume networks ms s p d)

-- The mapping that an event writes, by what the code computes.
abbrev written : DockerEvent → Inspection → PortMapping → Option PortMapping
written event inspection m =
    if event.event_type == codes "die" || event.event_type == codes "stop"
    then some (record m { suspended = true })
    else if event.event_type == codes "start"
    then resumption inspection m
    else none

get-process_container_event :
    (agent : Text) (event : DockerEvent) (inspection : Inspection) (seen s : MemPortStore) (p : ℕ)
    → Distinct seen.mappings
    → get (process_container_event agent event inspection seen s).mappings p
      ≡ (elim (get seen.mappings p) [
        | none ↦ get s.mappings p
        | some m ↦
            if event.container == [] || not (is_of agent event.container m)
            then get s.mappings p
            else replaced (get s.mappings p) (written event inspection m)
      ])
unfolding process_container_event affected
get-process_container_event agent event inspection seen s p d = ground (
  arith,
  get-affected agent event.container seen p d,
  get-suspend (affected agent event.container seen) s p
      (affected-Distinct agent event.container seen),
  get-resume_container_mappings inspection (affected agent event.container seen) s p
      (affected-Distinct agent event.container seen),
)

-- What a start leaves at a port that was seen with the mapping `m` and is mapped to `c` when the
-- update comes, if the inspection reports the networks: the mapping that was seen, no longer suspended, at
-- the address that is to be picked and its old port; or `c`, where the target cannot be split.
abbrev pub Resumed :
    Map Text Text → PortMapping → PortMapping → Option (Text × Text) → Option PortMapping → Type 0
Resumed networks m c none now = now ≡ some c
Resumed networks m c (some (host, port)) now =
    (ip : Text) × IsPicked networks host ip
    × (now
        ≡ some (record {
          agent_id = m.agent_id;
          target = if ip == [] then m.target else join_host_port ip port;
          container_id = m.container_id;
          suspended = false;
        }))

abbrev pub Started : Inspection → PortMapping → PortMapping → Option PortMapping → Type 0
Started dispatch_failed m c now = now ≡ some c
Started (answered code none) m c now = now ≡ some c
Started (answered code (some networks)) m c now =
    if ltb code 200 || leb 300 code
    then now ≡ some c
    else Resumed networks m c (split_host_port m.target) now

-- What an event of a container leaves at a port that was seen with its mapping `m` and is mapped to `c`.
abbrev pub Changed :
    DockerEvent → Inspection → PortMapping → PortMapping → Option PortMapping → Type 0
Changed event inspection m c now =
    if event.event_type == codes "die" || event.event_type == codes "stop"
    then now
      ≡ some (record {
        agent_id = m.agent_id;
        target = m.target;
        container_id = m.container_id;
        suspended = true;
      })
    else if event.event_type == codes "start"
    then Started inspection m c now
    else now ≡ some c

-- What an event leaves at a port, by what was seen there, what is there when the updates start, and
-- what is there in the end.
abbrev pub EventOutcome :
    Text
    → DockerEvent
    → Inspection
    → Option PortMapping
    → Option PortMapping
    → Option PortMapping
    → Type 0
EventOutcome agent event inspection none before now = now ≡ before
EventOutcome agent event inspection (some m) none now = now ≡ none
EventOutcome agent event inspection (some m) (some c) now =
    if event.container == [] || not (is_of agent event.container m)
    then now ≡ some c
    else Changed event inspection m c now

at_ip_lem :
    (m : PortMapping) (port ip : Text)
    → at_ip m port ip ≡ record {
      agent_id = m.agent_id;
      target = if ip == [] then m.target else join_host_port ip port;
      container_id = m.container_id;
      suspended = false;
    }
unfolding at_ip
at_ip_lem m port [] = ground arith
at_ip_lem m port (c ∷ ip) = ground arith

moved-Resumed :
    (networks : Map Text Text) (m c : PortMapping) (split : Option (Text × Text))
    → Resumed networks m c split (replaced (some c) (moved networks m split))
unfolding moved
moved-Resumed networks m c none = refl
moved-Resumed networks m c (some (host, port)) = (
  pick_network_ip networks host,
  pick_network_ip-IsPicked networks host,
  ap some (at_ip_lem m port (pick_network_ip networks host)),
)

resumption-Started :
    (inspection : Inspection) (m c : PortMapping)
    → Started inspection m c (replaced (some c) (resumption inspection m))
unfolding resumed
resumption-Started dispatch_failed m c = refl
resumption-Started (answered code none) m c = refl
resumption-Started (answered code (some networks)) m c =
    elim (Bool-cases (ltb code 200 || leb 300 code)) [
      | inl e ↦ rw e refl
      | inr e ↦ rw e (moved-Resumed networks m c (split_host_port m.target))
    ]

written-Changed :
    (event : DockerEvent) (inspection : Inspection) (m c : PortMapping)
    → Changed event inspection m c (replaced (some c) (written event inspection m))
written-Changed event inspection m c =
    elim (Bool-cases (event.event_type == codes "die" || event.event_type == codes "stop")) [
      | inl down ↦ rw down refl
      | inr other ↦ rw other (elim (Bool-cases (event.event_type == codes "start")) [
        | inl up ↦ rw up (resumption-Started inspection m c)
        | inr neither ↦ rw neither refl
      ])
    ]

outcome :
    (agent : Text) (event : DockerEvent) (inspection : Inspection)
    (seen before : Option PortMapping) (now : Option PortMapping)
    → now ≡ (elim seen [
      | none ↦ before
      | some m ↦
          if event.container == [] || not (is_of agent event.container m)
          then before
          else replaced before (written event inspection m)
    ])
    → EventOutcome agent event inspection seen before now
outcome agent event inspection none before now e = e
outcome agent event inspection (some m) none now e = ground (arith, e)
outcome agent event inspection (some m) (some c) now e =
    elim (Bool-cases (event.container == [] || not (is_of agent event.container m))) [
      | inl other ↦ rw other (e ∙ rw other refl)
      | inr same ↦ rw same (
          subst (Changed event inspection m c) (sym (e ∙ rw same refl))
            (written-Changed event inspection m c))
    ]

-- Whatever other requests do between the copy of the mappings and the updates, an event writes exactly
-- the ports that were seen with a mapping of the named container of the agent that sent it, and that are
-- still mapped. A stop or death writes the mapping that was seen, suspended. A start writes it no longer
-- suspended, where the inspection succeeds and its target can be split: with its old port, at its old
-- address while a network of the container has that, and else at the address of the least name that
-- has one, or at its old target if none has. Every other port, every other kind of event and an event
-- without a container change nothing.
pub process_container_event_lem :
    (agent : Text) (event : DockerEvent) (inspection : Inspection) (seen s : MemPortStore) (p : ℕ)
    → Distinct seen.mappings
    → EventOutcome agent event inspection
        (get seen.mappings p)
        (get s.mappings p)
        (get (process_container_event agent event inspection seen s).mappings p)
process_container_event_lem agent event inspection seen s p d =
    outcome agent event inspection (get seen.mappings p) (get s.mappings p)
      (get (process_container_event agent event inspection seen s).mappings p)
      (get-process_container_event agent event inspection seen s p d)
