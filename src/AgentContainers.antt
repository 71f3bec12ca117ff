-- ===== src/AgentContainers.antt =====
-- pkg/agent/containers.go, `createContainer`. The Docker client with its state, `nat.NewPort`,
-- `container.ValidateRestartPolicy` and the encoder of JSON are parameters; a nil map is an empty one,
-- and an int stands for its 64 bits.
pub mod Publishing
pub mod Creation
use hostlink.Prelude.{
  ℕ, Bool, not, ◌&&◌, Option, none, some, List, [], ◌∷◌, ◌++◌, ◌==◌, if◌then◌else◌, Text, codes,
  Result, ok, err, text_comparable,
}
use hostlink.Map.{Map, get, put}
use hostlink.AgentLogs.{DockerError, docker_error_code}
use hostlink.AgentImages.{Answer, fails}

-- `PortBinding` of the request
pub record PortBinding : Type 0 where
  pub container_port : Text
  pub protocol : Text
  pub host_ip : Text
  pub host_port : Text

-- `ContainerCreateRequest`
pub record ContainerCreateRequest : Type 0 where
  pub name : Text
  pub image : Text
  pub cmd : List Text
  pub entrypoint : List Text
  pub env : List Text
  pub working_dir : Text
  pub labels : Map Text Text
  pub ports : List PortBinding
  pub binds : List Text
  pub network_mode : Text
  pub pid_mode : Text
  pub restart_policy : Text
  pub max_retry_count : ℕ
  pub auto_remove : Bool

-- `nat.PortBinding`
pub record HostBinding : Type 0 where
  pub host_ip : Text
  pub host_port : Text

-- `exposed` and `bindings`
pub record PublishedPorts : Type 0 where
  pub exposed : Map Text (Unit {0})
  pub bindings : Map Text (List HostBinding)

abbrev pub no_ports : PublishedPorts
no_ports = record { exposed = []; bindings = [] }

-- `container.RestartPolicy`
pub record RestartPolicy : Type 0 where
  pub name : Text
  pub maximum_retry_count : ℕ

-- `container.Config` and `container.HostConfig`, with the fields that are set.
pub record ContainerConfig : Type 0 where
  pub image : Text
  pub cmd : List Text
  pub entrypoint : List Text
  pub env : List Text
  pub working_dir : Text
  pub labels : Map Text Text
  pub exposed_ports : Map Text (Unit {0})
  pub binds : List Text
  pub port_bindings : Map Text (List HostBinding)
  pub network_mode : Text
  pub pid_mode : Text
  pub restart_policy : RestartPolicy
  pub auto_remove : Bool

-- `container.CreateResponse`, and `ContainerCreateResult`
pub record ContainerCreateResult : Type 0 where
  pub id : Text
  pub warnings : List Text

-- The protocol that is asked of `nat.NewPort`.
unfoldable pub protocol_of : PortBinding → Text
protocol_of p = if p.protocol == [] then codes "tcp" else p.protocol

-- `bindings[port]`, nil where it is missing.
unfoldable pub bindings_of : Text → PublishedPorts → List HostBinding
bindings_of port ports = elim (get ports.bindings port) [ some hosts ↦ hosts | none ↦ [] ]

-- Whether the request names an address on the host.
unfoldable pub has_host : PortBinding → Bool
has_host p = not (p.host_ip == [] && p.host_port == [])

-- What one round of the loop over `cr.Ports` does.
unfoldable pub publish : Text → PortBinding → PublishedPorts → PublishedPorts
unfolding bindings_of has_host
publish port p ports = record {
  exposed = put ports.exposed port tt;
  bindings =
      if has_host p
      then put ports.bindings port
          (bindings_of port ports ++ record { host_ip = p.host_ip; host_port = p.host_port } ∷ [])
      else ports.bindings;
}

-- The loop over `cr.Ports`, given `nat.NewPort`.
unfoldable pub publish_all :
    (Text → Text → Result Text Text)
    → List PortBinding
    → PublishedPorts
    → Result Text PublishedPorts
unfolding publish protocol_of
publish_all new_port [] ports = ok ports
publish_all new_port (p ∷ ps) ports = elim (new_port (protocol_of p) p.container_port) [
  | err e ↦ err (codes "containers.create: invalid port " ++ p.container_port ++ codes ": " ++ e)
  | ok port ↦ publish_all new_port ps (publish port p ports)
]

unfoldable pub config_of : ContainerCreateRequest → PublishedPorts → ContainerConfig
config_of cr ports = record {
  image = cr.image;
  cmd = cr.cmd;
  entrypoint = cr.entrypoint;
  env = cr.env;
  working_dir = cr.working_dir;
  labels = cr.labels;
  exposed_ports = ports.exposed;
  binds = cr.binds;
  port_bindings = ports.bindings;
  network_mode = cr.network_mode;
  pid_mode = cr.pid_mode;
  restart_policy = record { name = cr.restart_policy; maximum_retry_count = cr.max_retry_count };
  auto_remove = cr.auto_remove;
}

-- `container.ValidateRestartPolicy`, where the request has a policy.
unfoldable pub check_policy :
    (RestartPolicy → Result Text (Unit {0})) → ContainerCreateRequest → Result Text (Unit {0})
check_policy validate cr =
    if cr.restart_policy == []
    then ok tt
    else validate (record { name = cr.restart_policy; maximum_retry_count = cr.max_retry_count })

-- The state of Docker, `ContainerCreate` and `ContainerStart`.
module _ {Docker : Type 0}
    (container_create : ContainerConfig
      → Text
      → Docker
      → Docker × Result (DockerError × Text) ContainerCreateResult)
    (container_start : Text → Docker → Docker × Result (DockerError × Text) (Unit {0}))
    (marshal : ContainerCreateResult → Result Text Text) where
  after_start :
      ContainerCreateResult → Docker × Result (DockerError × Text) (Unit {0}) → Docker × Answer
  after_start created (d, err (e, text)) = (
    d,
    fails (docker_error_code e)
        (codes "container " ++ created.id ++ codes " created but start failed: " ++ text),
  )
  after_start created (d, ok _) = elim (marshal created) [
    | err e ↦ (d, fails 500 e)
    | ok payload ↦ (d, record { payload = payload; code = 201; error = [] })
  ]

  after_create : Docker × Result (DockerError × Text) ContainerCreateResult → Docker × Answer
  after_create (d, err (e, text)) = (d, fails (docker_error_code e) text)
  after_create (d, ok created) = after_start created (container_start created.id d)

  -- `createContainer`, given the decoded payload.
  unfoldable pub create_container :
      (Text → Text → Result Text Text)
      → (RestartPolicy → Result Text (Unit {0}))
      → Result Text ContainerCreateRequest
      → Docker
      → Docker × Answer
  unfolding after_create after_start publish_all check_policy config_of
  create_container new_port validate (err e) d =
      (d, fails 400 (codes "invalid containers.create payload: " ++ e))
  create_container new_port validate (ok cr) d =
      if cr.image == []
      then (d, fails 400 (codes "containers.create: image must not be empty"))
      else elim (publish_all new_port cr.ports no_ports) [
        | err e ↦ (d, fails 400 e)
        | ok ports ↦ elim (check_policy validate cr) [
          | err e ↦ (d, fails 400 (codes "containers.create: " ++ e))
          | ok _ ↦ after_create (container_create (config_of cr ports) cr.name d)
        ]
      ]
