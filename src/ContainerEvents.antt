-- ===== src/ContainerEvents.antt =====
-- pkg/controller/container_events.go: a container's stop suspends its public ports, its start resumes
-- them at its new address. The agent's answer to the inspect request is an argument, decoded; each
-- `range` over a map follows its list.
pub mod Networks
pub mod Events
use hostlink.Prelude.{
  ℕ, Bool, true, false, not, ◌&&◌, ◌||◌, Option, none, some, List, [], ◌∷◌, if◌then◌else◌, ◌==◌,
  Text, codes, nat_comparable, text_comparable, ltb, leb, length,
}
use hostlink.Map.{Map, get, put, keys}
use hostlink.HostPort.{split_host_port, join_host_port}
use hostlink.Ports.{PortMapping}
use hostlink.Ports.Memory.{MemPortStore, desired, update}

-- `containerMappings`, after the store has answered.
unfoldable pub container_mappings :
    Text → Text → Map ℕ PortMapping → Map ℕ PortMapping → Map ℕ PortMapping
container_mappings agent container [] affected = affected
container_mappings agent container ((port, mapping) ∷ rest) affected =
    container_mappings agent container rest (
      if mapping.agent_id == agent && mapping.container_id == container
      then put affected port mapping
      else affected)

-- The loop of `suspendContainerMappings`: a failed update is logged and passed over.
unfoldable pub suspend_container_mappings : Map ℕ PortMapping → MemPortStore → MemPortStore
suspend_container_mappings [] s = s
suspend_container_mappings ((port, mapping) ∷ rest) s =
    suspend_container_mappings rest (update port (record mapping { suspended = true }) s).0

-- The order of Go's strings, by bytes.
unfoldable pub text_leb : Text → Text → Bool
text_leb [] t = true
text_leb (c ∷ s) [] = false
text_leb (c ∷ s) (d ∷ t) = ltb c d || (c == d && text_leb s t)

unfoldable pub insert_name : Text → List Text → List Text
unfolding text_leb
insert_name name [] = name ∷ []
insert_name name (m ∷ names) =
    if text_leb name m then name ∷ m ∷ names else m ∷ insert_name name names

-- `sort.Strings`
unfoldable pub sort_names : List Text → List Text
unfolding insert_name
sort_names [] = []
sort_names (name ∷ names) = insert_name name (sort_names names)

-- `networks[name]`: the empty text where the name is missing.
abbrev pub ip_of : Map Text Text → Text → Text
ip_of networks name = elim (get networks name) [ none ↦ [] | some ip ↦ ip ]

unfoldable pub has_ip : Map Text Text → Text → Bool
has_ip [] host = false
has_ip ((name, ip) ∷ rest) host = ip == host || has_ip rest host

unfoldable pub first_ip : Map Text Text → List Text → Text
first_ip networks [] = []
first_ip networks (name ∷ names) = elim (ip_of networks name) [
  | [] ↦ first_ip networks names
  | c ∷ ip ↦ c ∷ ip
]

only_ip : Map Text Text → Text
unfolding first_ip sort_names
only_ip ((name, ip) ∷ []) = ip
only_ip networks = first_ip networks (sort_names (keys networks))

-- `pickNetworkIP`
unfoldable pub pick_network_ip : Map Text Text → Text → Text
unfolding has_ip only_ip
pick_network_ip networks old_host = if has_ip networks old_host then old_host else only_ip networks

-- The rest of one round of the loop of `resumeContainerMappings` up to the update, with the new address.
at_ip : PortMapping → Text → Text → PortMapping
at_ip mapping target_port [] = record mapping { suspended = false }
at_ip mapping target_port (c ∷ ip) = record mapping {
  target = join_host_port (c ∷ ip) target_port;
  suspended = false;
}

-- By what the target is split into, if it can be split.
moved : Map Text Text → PortMapping → Option (Text × Text) → Option PortMapping
unfolding at_ip
moved networks mapping none = none
moved networks mapping (some (host, target_port)) =
    some (at_ip mapping target_port (pick_network_ip networks host))

-- The mapping that the loop of `resumeContainerMappings` writes, if the target can be split.
unfoldable pub resumed : Map Text Text → PortMapping → Option PortMapping
unfolding moved
resumed networks mapping = moved networks mapping (split_host_port mapping.target)

unfoldable pub resume_loop : Map Text Text → Map ℕ PortMapping → MemPortStore → MemPortStore
unfolding resumed
resume_loop networks [] s = s
resume_loop networks ((port, mapping) ∷ rest) s =
    resume_loop networks rest
      (elim (resumed networks mapping) [ none ↦ s | some m ↦ (update port m s).0 ])

-- What `dispatch` of the inspect request gives: an error, or a code and the decoded networks of the
-- payload, if it can be decoded.
pub data Inspection : Type 0 where
  dispatch_failed : Inspection
  answered : ℕ → Option (Map Text Text) → Inspection

-- `resumeContainerMappings`
unfoldable pub resume_container_mappings :
    Inspection → Map ℕ PortMapping → MemPortStore → MemPortStore
unfolding resume_loop
resume_container_mappings dispatch_failed mappings s = s
resume_container_mappings (answered code none) mappings s = s
resume_container_mappings (answered code (some networks)) mappings s =
    if ltb code 200 || leb 300 code then s else resume_loop networks mappings s

pub record DockerEvent : Type 0 where
  pub event_type : Text
  pub container : Text

-- `processContainerEvent` on the agent's connection, with the memory store. `seen` is the store when
-- `desired` copies it, and `s` the store when the updates start: before a resumption lies the
-- inspection over the network, in which other requests go on. The result is the store at the end.
unfoldable pub process_container_event :
    Text → DockerEvent → Inspection → MemPortStore → MemPortStore → MemPortStore
unfolding container_mappings suspend_container_mappings resume_container_mappings
process_container_event agent event inspection seen s =
    let mappings = container_mappings agent event.container (desired seen) [] in
    if event.container == []
    then s
    else if event.event_type == codes "die" || event.event_type == codes "stop"
    then suspend_container_mappings mappings s
    else if event.event_type == codes "start"
    then resume_container_mappings inspection mappings s
    else s
