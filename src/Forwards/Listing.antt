-- ===== src/Forwards/Listing.antt =====
-- pkg/controller/forwards.go: what a list request shows.
use hostlink.Prelude.{
  ℕ, ◌≡◌, refl, ◌∙◌, Bool, false, ◌&&◌, ◌||◌, Option, none, some, List, [], ◌∷◌, ◌==◌, Text,
  nat_comparable, text_comparable, arith,
}
use hostlink.Map.{Map, get}
use hostlink.Map.Laws.{Distinct}
use hostlink.Order.{IsSorted, any, any-sort_by, sort_by-IsSorted}
use hostlink.Ports.{PortMapping}
use hostlink.Bindings.{PortState}
use hostlink.Forwards.{ForwardResponse, responses_of, forward_responses}

-- Whether the list shows the forward.
abbrev pub shows :
    (PortMapping → Bool) → (Option PortState → Bool) → ℕ → List ForwardResponse → Bool
shows mapping state port rs =
    any (λ (r : ForwardResponse). r.port)
      (λ r. r.port == port && (mapping r.mapping && state r.state)) rs

shows-responses_of :
    (mapping : PortMapping → Bool) (state : Option PortState → Bool) (ms : Map ℕ PortMapping)
    (sts : Map ℕ PortState) (agent : Text) (port : ℕ)
    → Distinct ms
    → shows mapping state port (responses_of ms sts agent) ≡ (elim (get ms port) [
      | none ↦ false
      | some m ↦ (agent == [] || m.agent_id == agent) && (mapping m && state (get sts port))
    ])
unfolding responses_of any get
shows-responses_of mapping state [] sts agent port d = refl
shows-responses_of mapping state ((k, m) ∷ ms) sts agent port d =
    ground (arith, shows-responses_of mapping state ms sts agent port d.1)

-- The list is in the order of the ports, and shows exactly the mappings of the agent, or of all
-- agents for the empty one, each with its state: for any tests on a mapping and a state, some entry
-- of the port passes both just if the port is mapped, for that agent, to a mapping and a state that do.
pub forward_responses_lem :
    (mapping : PortMapping → Bool) (state : Option PortState → Bool) (ms : Map ℕ PortMapping)
    (sts : Map ℕ PortState) (agent : Text) (port : ℕ)
    → Distinct ms
    → IsSorted (λ (r : ForwardResponse). r.port) (forward_responses ms sts agent)
      × (shows mapping state port (forward_responses ms sts agent) ≡ (elim (get ms port) [
        | none ↦ false
        | some m ↦ (agent == [] || m.agent_id == agent) && (mapping m && state (get sts port))
      ]))
unfolding forward_responses
forward_responses_lem mapping state ms sts agent port d = (
  sort_by-IsSorted (λ (r : ForwardResponse). r.port) (responses_of ms sts agent),
  any-sort_by (λ (r : ForwardResponse). r.port)
        (λ r. r.port == port && (mapping r.mapping && state r.state)) (responses_of ms sts agent)
      ∙ shows-responses_of mapping state ms sts agent port d,
)
