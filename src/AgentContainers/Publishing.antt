-- ===== src/AgentContainers/Publishing.antt =====
-- pkg/agent/containers.go, `createContainer`: the ports that a container is created with.
use mathlib.Core.List.{append_assoc, append-nil}
use hostlink.Prelude.{
  ◌≡◌, refl, sym, ◌∙◌, Bool, true, false, codes, All, ◌&&◌, ◌||◌, List, [], ◌∷◌, ◌++◌, ◌==◌,
  if◌then◌else◌, Text, Result, ok, err, arith, text_comparable, inl, inr, Result-cases,
}
use hostlink.Map.{get, has}
use hostlink.Map.Laws.{get-put, has-put}
use hostlink.AgentContainers.{
  PortBinding, HostBinding, PublishedPorts, no_ports, protocol_of, bindings_of, has_host, publish,
  publish_all,
}

-- The protocol that a request asks for, TCP where it names none.
unfoldable pub asked_protocol : PortBinding → Text
asked_protocol p = elim p.protocol [ [] ↦ codes "tcp" | c ∷ cs ↦ c ∷ cs ]

-- Whether a request asks for an address or a port of the host.
unfoldable pub asks_host : PortBinding → Bool
asks_host p = elim p.host_ip [
  | c ∷ cs ↦ true
  | [] ↦ elim p.host_port [ c ∷ cs ↦ true | [] ↦ false ]
]

asked_protocol-eq : (p : PortBinding) → protocol_of p ≡ asked_protocol p
unfolding protocol_of asked_protocol
asked_protocol-eq p = ground arith

asks_host-eq : (p : PortBinding) → has_host p ≡ asks_host p
unfolding has_host asks_host
asks_host-eq p = ground arith

-- The bindings that the requests ask for a port, in their order.
unfoldable pub requested :
    (Text → Text → Result Text Text) → Text → List PortBinding → List HostBinding
requested new_port port [] = []
requested new_port port (p ∷ ps) =
    let rest = requested new_port port ps in
    elim (new_port (asked_protocol p) p.container_port) [
      | err e ↦ rest
      | ok q ↦
          if q == port && asks_host p
          then record { host_ip = p.host_ip; host_port = p.host_port } ∷ rest
          else rest
    ]

-- Whether some request names a port.
unfoldable pub names : (Text → Text → Result Text Text) → Text → List PortBinding → Bool
names new_port port [] = false
names new_port port (p ∷ ps) = elim (new_port (asked_protocol p) p.container_port) [
  | err e ↦ names new_port port ps
  | ok q ↦ q == port || names new_port port ps
]

bindings_of-publish :
    (q port : Text) (p : PortBinding) (ports : PublishedPorts)
    → bindings_of port (publish q p ports) ≡ (
        if q == port && has_host p
        then bindings_of port ports ++ record { host_ip = p.host_ip; host_port = p.host_port } ∷ []
        else bindings_of port ports)
unfolding bindings_of publish
bindings_of-publish q port p ports = ground (
  arith,
  get-put ports.bindings q port
      (bindings_of q ports ++ record { host_ip = p.host_ip; host_port = p.host_port } ∷ []),
)

module _ (new_port : Text → Text → Result Text Text) (port : Text) (p : PortBinding)
    (ps : List PortBinding) (q : Text)
    (accepted : new_port (protocol_of p) p.container_port ≡ ok q) where
  asked : new_port (asked_protocol p) p.container_port ≡ ok q
  asked = rw (← asked_protocol-eq p) accepted

  requested_step : requested new_port port (p ∷ ps) ≡ (
      if q == port && has_host p
      then record { host_ip = p.host_ip; host_port = p.host_port } ∷ requested new_port port ps
      else requested new_port port ps)
  unfolding requested
  requested_step = rw (asks_host-eq p, asked, requested) refl

  names_step : names new_port port (p ∷ ps) ≡ (q == port || names new_port port ps)
  unfolding names
  names_step = rw (asked, names) refl

publish_all_step :
    (new_port : Text → Text → Result Text Text) (p : PortBinding) (ps : List PortBinding)
    (from : PublishedPorts) (q : Text)
    → new_port (protocol_of p) p.container_port ≡ ok q
    → publish_all new_port (p ∷ ps) from ≡ publish_all new_port ps (publish q p from)
unfolding publish_all
publish_all_step new_port p ps from q accepted = rw (accepted, publish_all) refl

publish_all_from :
    (new_port : Text → Text → Result Text Text) (ps : List PortBinding) (from to : PublishedPorts)
    (port : Text)
    → publish_all new_port ps from ≡ ok to
    → (bindings_of port to ≡ bindings_of port from ++ requested new_port port ps)
      × (has to.exposed port ≡ (has from.exposed port || names new_port port ps))
publish_all_from new_port [] from to port done =
    unfold publish_all requested names in ground (arith, append-nil (bindings_of port from))
publish_all_from new_port (p ∷ ps) from to port done =
    elim (Result-cases (new_port (protocol_of p) p.container_port)) [
      | inl (e, refused) ↦ absurd (unfold publish_all in ground (arith, refused))
      | inr (q, accepted) ↦
          let host : HostBinding = record { host_ip = p.host_ip; host_port = p.host_port } in
          let rest : publish_all new_port ps (publish q p from) ≡ ok to =
            sym (publish_all_step new_port p ps from q accepted) ∙ done in
          let ih = publish_all_from new_port ps (publish q p from) to port rest in
          let published = bindings_of-publish q port p from in
          let exposed : has (publish q p from).exposed port ≡ (q == port || has from.exposed port) =
            unfold publish in has-put from.exposed q port tt in
          let joined =
            append_assoc (bindings_of port from) (host ∷ []) (requested new_port port ps) in
          let wanted = requested_step new_port port p ps q accepted in
          let named = names_step new_port port p ps q accepted in
          (ground (arith, ih.0, published, joined, wanted), ground (arith, ih.1, exposed, named))
    ]

-- Every port that the requests name is accepted.
abbrev pub AreAccepted : (Text → Text → Result Text Text) → List PortBinding → Type 0
AreAccepted new_port ps =
    All (λ p. (q : Text) × (new_port (asked_protocol p) p.container_port ≡ ok q)) ps

pub publish_all-AreAccepted :
    (new_port : Text → Text → Result Text Text) (ps : List PortBinding) (from to : PublishedPorts)
    → publish_all new_port ps from ≡ ok to
    → AreAccepted new_port ps
publish_all-AreAccepted new_port [] from to done = tt
publish_all-AreAccepted new_port (p ∷ ps) from to done =
    elim (Result-cases (new_port (protocol_of p) p.container_port)) [
      | inl (e, refused) ↦ absurd (unfold publish_all in ground (arith, refused))
      | inr (q, accepted) ↦ (
        (q, rw (← asked_protocol-eq p) accepted),
        publish_all-AreAccepted new_port ps (publish q p from) to
            (sym (publish_all_step new_port p ps from q accepted) ∙ done),
      )
    ]

-- Where every port of the request is accepted: a port is exposed exactly if a request names it, and
-- its bindings are those of the requests that name it and an address on the host, in their order.
pub publish_all_lem :
    (new_port : Text → Text → Result Text Text) (ps : List PortBinding) (ports : PublishedPorts)
    (port : Text)
    → publish_all new_port ps no_ports ≡ ok ports
    → (bindings_of port ports ≡ requested new_port port ps)
      × (has ports.exposed port ≡ names new_port port ps)
unfolding bindings_of has get
publish_all_lem new_port ps ports port done = publish_all_from new_port ps no_ports ports port done
