-- ===== src/Tests/Commands.antt =====
-- The agent's commands on Docker and its end of a forward at concrete inputs.
use hostlink.Prelude.{
  Bool, ℕ, suc, ◌≡◌, ◌≢◌, refl, true, false, none, some, List, [], ◌∷◌, ◌++◌, if◌then◌else◌, ◌==◌,
  Text, codes, Text-discrete, Result, ok, err, text_comparable,
}
use hostlink.Map.{get, put}
use hostlink.PeerForward
use hostlink.Tunnel.{opening}
use hostlink.PeerForward.{OpenFrame, serve_forward, relayed, open_relay}
use hostlink.PeerForward.Barrier.{response_of, splices, peer_forward_lem}
use hostlink.ForwardHandler.{paired}
use hostlink.Sessions.{SessionTable, new_session_table, expect}
use hostlink.Sessions.Pairing.{Reach, start, later, expects}
use hostlink.Control.Forward.{arrived, forward, handed_over}
use hostlink.AgentLogs.{DockerError}
use hostlink.AgentImages.{RemoveRequest, RemoveOptions, DeletedImage, RemoveResult, remove_images}
use hostlink.AgentImages.Outcomes.{remove_each, remove_images_lem}
use hostlink.AgentContainers.{
  PortBinding, ContainerCreateRequest, ContainerConfig, ContainerCreateResult, RestartPolicy,
  create_container,
}
use hostlink.AgentContainers.Creation.{Asks, IsCreated, create_container_lem}
use hostlink.AgentForward.{over_tcp, Answers, handle_open_forward}
use hostlink.AgentForward.HandOver.{disposals, frames, first_frame, open_forward_lem}

-- A daemon whose state counts its calls; it has no image `b`.
abbrev image_remove : Text → RemoveOptions → ℕ → ℕ × Result Text (List DeletedImage)
image_remove ref opts d = (
  suc d,
  if ref == codes "b"
      then err (codes "no such image")
      else ok (record { untagged = ref; deleted = [] } ∷ []),
)

abbrev encode_removed : RemoveResult → Result Text Text
encode_removed r = ok (codes "{}")

abbrev two_images : RemoveRequest
two_images = record { refs = codes "b" ∷ codes "a" ∷ []; force = true; no_prune = false }

remove_images_lem_example :
    remove_images image_remove encode_removed (ok two_images) 0
    ≡ (2, record { payload = codes "{}"; code = 200; error = [] })
unfolding remove_each Text-discrete
remove_images_lem_example =
    remove_images_lem image_remove encode_removed two_images 0
      (
        2,
        (codes "b", err (codes "no such image"))
            ∷ (codes "a", ok (record { untagged = codes "a"; deleted = [] } ∷ []))
            ∷ [],
      )
      (codes "{}") (cc) refl refl

abbrev docker_create :
    ContainerConfig → Text → ℕ → ℕ × Result (DockerError × Text) ContainerCreateResult
docker_create config name d = (suc d, ok (record { id = name; warnings = [] }))

abbrev docker_start : Text → ℕ → ℕ × Result (DockerError × Text) (Unit {0})
docker_start id d = (suc d, ok tt)

abbrev encode_created : ContainerCreateResult → Result Text Text
encode_created r = ok r.id

abbrev nat_port : Text → Text → Result Text Text
nat_port protocol port = ok (port ++ codes "/" ++ protocol)

abbrev any_policy : RestartPolicy → Result Text (Unit {0})
any_policy p = ok tt

abbrev port_80 : Text → PortBinding
port_80 host_port = record {
  container_port = codes "80";
  protocol = [];
  host_ip = [];
  host_port = host_port;
}

abbrev web : ContainerCreateRequest
web = record {
  name = codes "web";
  image = codes "nginx";
  cmd = [];
  entrypoint = [];
  env = [];
  working_dir = [];
  labels = [];
  ports = port_80 (codes "8080") ∷ port_80 [] ∷ port_80 (codes "8081") ∷ [];
  binds = [];
  network_mode = [];
  pid_mode = [];
  restart_policy = codes "always";
  max_retry_count = 0;
  auto_remove = false;
}

create_container_lem_example :
    let run =
      create_container docker_create docker_start encode_created nat_port any_policy (ok web) 0 in
    (config : ContainerConfig) × Asks nat_port any_policy web config
    × (IsCreated docker_create docker_start encode_created config web.name 0 run.0 run.1.payload)
unfolding create_container Text-discrete
create_container_lem_example =
    create_container_lem docker_create docker_start encode_created nat_port any_policy web 0 refl

abbrev one_waits : SessionTable
one_waits = (expect (codes "s") new_session_table).0

abbrev to_one_waits : Reach new_session_table one_waits
to_one_waits = later start (expects (codes "s"))

abbrev connected : Answers
connected = record {
  dialled = over_tcp;
  opened = true;
  sent = true;
  close_sent = true;
  drained = 0;
}

one_waits-channel : get one_waits.waiters (codes "s") ≡ some 0
unfolding expect get put Text-discrete new_session_table
one_waits-channel = refl

one_waits-waits : get one_waits.waiters (codes "s") ≢ none
one_waits-waits = rw one_waits-channel (cc)

open_forward_lem_example :
    let did = handle_open_forward (codes "s") (codes "10.0.0.2:22") connected in
    (disposals did ≡ 1)
    × (frames did ≡ (first_frame over_tcp, codes "s") ∷ [])
    × ((forward
          (arrived (first_frame over_tcp) (record { session_id = codes "s"; stream = 3 }))
          one_waits).1
        ≡ handed_over)
open_forward_lem_example =
    open_forward_lem (codes "s") (codes "10.0.0.2:22") connected one_waits 3 (cc) (cc) to_one_waits
      one_waits-waits

abbrev holds_edge : Text → Bool
holds_edge agent = agent == codes "edge"

peer_forward_lem_example :
    let f : OpenFrame = record {
      frame_type = opening;
      session_id = codes "s";
      open_for = some (codes "edge", codes "10.0.0.2:22");
    } in
    let served = serve_forward holds_edge (PeerForward.arrived f) true (paired opening) true in
    ((open_relay true (ok tt) (ok tt) (response_of served.0 served.1)).0 ≡ relayed)
    × (splices served.0 ≡ 1)
unfolding Text-discrete
peer_forward_lem_example =
    peer_forward_lem holds_edge (codes "s") (codes "edge") (codes "10.0.0.2:22") true
      (paired opening) (cc) (cc) (cc)
