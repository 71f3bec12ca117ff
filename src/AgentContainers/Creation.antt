-- ===== src/AgentContainers/Creation.antt =====
-- pkg/agent/containers.go, `createContainer`: what a container that is reported as created is.
use hostlink.Prelude.{
  ◌≡◌, ◌≢◌, ◌⊎◌, List, none, some, refl, sym, ap, ◌∙◌, subst, false, [], ◌==◌, Text, Result, ok,
  err, arith, text_comparable, Bool-cases, inl, inr, Result-cases,
}
use hostlink.Map.{Map, get, has}
use hostlink.AgentLogs.{DockerError, docker_error_code}
use hostlink.AgentContainers.{
  HostBinding, ContainerCreateRequest, ContainerConfig, ContainerCreateResult, RestartPolicy,
  PublishedPorts, no_ports, bindings_of, publish_all, config_of, check_policy, after_start,
  after_create, create_container,
}
use hostlink.AgentContainers.Publishing.{
  requested, names, publish_all_lem, AreAccepted, publish_all-AreAccepted,
}

docker_error_code-ne : (e : DockerError) → docker_error_code e ≢ 201
unfolding docker_error_code
docker_error_code-ne DockerError.not_found = omega arith
docker_error_code-ne DockerError.conflict = omega arith
docker_error_code-ne DockerError.invalid_argument = omega arith
docker_error_code-ne DockerError.other_error = omega arith

-- The bindings of a port in a configuration.
abbrev pub hosts_at : Map Text (List HostBinding) → Text → List HostBinding
hosts_at bindings port = elim (get bindings port) [ some hosts ↦ hosts | none ↦ [] ]

-- What the configuration of a container is to hold for a request, option by option, with the bindings
-- of each port in the order of the requests.
pub record Asks (new_port : Text → Text → Result Text Text)
    (validate : RestartPolicy → Result Text (Unit {0})) (cr : ContainerCreateRequest)
    (config : ContainerConfig) : Type 0 where
  pub image : config.image ≡ cr.image
  pub has_image : cr.image ≢ []
  pub cmd : config.cmd ≡ cr.cmd
  pub entrypoint : config.entrypoint ≡ cr.entrypoint
  pub env : config.env ≡ cr.env
  pub working_dir : config.working_dir ≡ cr.working_dir
  pub labels : config.labels ≡ cr.labels
  pub binds : config.binds ≡ cr.binds
  pub network_mode : config.network_mode ≡ cr.network_mode
  pub pid_mode : config.pid_mode ≡ cr.pid_mode
  pub policy : config.restart_policy.name ≡ cr.restart_policy
  pub retries : config.restart_policy.maximum_retry_count ≡ cr.max_retry_count
  pub policy_is_valid : (cr.restart_policy ≡ []) ⊎ (validate config.restart_policy ≡ ok tt)
  pub auto_remove : config.auto_remove ≡ cr.auto_remove
  pub are_accepted : AreAccepted new_port cr.ports
  pub bound : (port : Text) → hosts_at config.port_bindings port ≡ requested new_port port cr.ports
  pub exposed : (port : Text) → has config.exposed_ports port ≡ names new_port port cr.ports

check_policy_lem :
    (validate : RestartPolicy → Result Text (Unit {0})) (cr : ContainerCreateRequest)
    → check_policy validate cr ≡ ok tt
    → (cr.restart_policy ≡ [])
      ⊎ (validate (record { name = cr.restart_policy; maximum_retry_count = cr.max_retry_count })
          ≡ ok tt)
unfolding check_policy
check_policy_lem validate cr valid = elim (Bool-cases (cr.restart_policy == [])) [
  | inl none_given ↦ inl (ground (arith, none_given))
  | inr given ↦ inr (ground (arith, given))
]

config_of-Asks :
    (new_port : Text → Text → Result Text Text) (validate : RestartPolicy → Result Text (Unit {0}))
    (cr : ContainerCreateRequest) (ports : PublishedPorts)
    → (cr.image == []) ≡ false
    → publish_all new_port cr.ports no_ports ≡ ok ports
    → check_policy validate cr ≡ ok tt
    → Asks new_port validate cr (config_of cr ports)
unfolding config_of
config_of-Asks new_port validate cr ports image accepted valid = record {
  image = refl;
  has_image = ground (arith, image);
  cmd = refl;
  entrypoint = refl;
  env = refl;
  working_dir = refl;
  labels = refl;
  binds = refl;
  network_mode = refl;
  pid_mode = refl;
  policy = refl;
  retries = refl;
  policy_is_valid = check_policy_lem validate cr valid;
  auto_remove = refl;
  are_accepted = publish_all-AreAccepted new_port cr.ports no_ports ports accepted;
  bound = λ port. unfold bindings_of in (publish_all_lem new_port cr.ports ports port accepted).0;
  exposed = λ port. (publish_all_lem new_port cr.ports ports port accepted).1;
}

module _ {Docker : Type 0}
    (container_create : ContainerConfig
      → Text
      → Docker
      → Docker × Result (DockerError × Text) ContainerCreateResult)
    (container_start : Text → Docker → Docker × Result (DockerError × Text) (Unit {0}))
    (marshal : ContainerCreateResult → Result Text Text) where
  after_start-created :
      (created : ContainerCreateResult) (started : Docker × Result (DockerError × Text) (Unit {0}))
      → (after_start container_create container_start marshal created started).1.code ≡ 201
      → (started.1 ≡ ok tt)
        × (marshal created
            ≡ ok (after_start container_create container_start marshal created started).1.payload)
        × ((after_start container_create container_start marshal created started).0 ≡ started.0)
  unfolding after_start
  after_start-created created (d, err (e, text)) h = absurd (docker_error_code-ne e h)
  after_start-created created (d, ok passed) h = ground arith

  -- Docker has made a container by a call, and has started it.
  pub record IsCreated (config : ContainerConfig) (name : Text) (d d' : Docker) (payload : Text)
      : Type 0 where
    pub created : ContainerCreateResult
    pub made : (container_create config name d).1 ≡ ok created
    pub started : (container_start created.id (container_create config name d).0).1 ≡ ok tt
    pub then_unchanged : d' ≡ (container_start created.id (container_create config name d).0).0
    pub answered : marshal created ≡ ok payload

  after_create-IsCreated :
      (config : ContainerConfig) (name : Text) (d : Docker)
      (r : Docker × Result (DockerError × Text) ContainerCreateResult)
      → container_create config name d ≡ r
      → (after_create container_create container_start marshal r).1.code ≡ 201
      → IsCreated config name d
          (after_create container_create container_start marshal r).0
          (after_create container_create container_start marshal r).1.payload
  unfolding after_create
  after_create-IsCreated config name d (d', err (e, text)) made h =
      absurd (docker_error_code-ne e h)
  after_create-IsCreated config name d (d', ok created) made h =
      let (started, answered, same) =
        after_start-created created (container_start created.id d') h in
      record {
        created = created;
        made = ap (λ r. r.1) made;
        started = rw made started;
        then_unchanged = rw made same;
        answered = answered;
      }

  create_container_valid :
      (new_port : Text → Text → Result Text Text)
      (validate : RestartPolicy → Result Text (Unit {0})) (cr : ContainerCreateRequest)
      (ports : PublishedPorts) (d : Docker)
      → (cr.image == []) ≡ false
      → publish_all new_port cr.ports no_ports ≡ ok ports
      → check_policy validate cr ≡ ok tt
      → create_container container_create container_start marshal new_port validate (ok cr) d
        ≡ after_create container_create container_start marshal
            (container_create (config_of cr ports) cr.name d)
  unfolding create_container after_create
  create_container_valid new_port validate cr ports d image accepted valid =
      rw (image, accepted, valid, create_container) refl

  -- A request that is answered with the code 201: Docker has made a container whose configuration has
  -- every option of the request, an image and a valid restart policy among them, and all ports that
  -- the request names, which are accepted, with their bindings in the order of the request; has then
  -- started that container; and has done nothing else. The payload encodes the result of the making.
  pub create_container_lem :
      (new_port : Text → Text → Result Text Text)
      (validate : RestartPolicy → Result Text (Unit {0})) (cr : ContainerCreateRequest) (d : Docker)
      → (create_container container_create container_start marshal new_port validate
          (ok cr)
          d).1.code
        ≡ 201
      → (config : ContainerConfig) × Asks new_port validate cr config
        × (IsCreated config cr.name d
            (create_container container_create container_start marshal new_port validate
              (ok cr)
              d).0
            (create_container container_create container_start marshal new_port validate
              (ok cr)
              d).1.payload)
  create_container_lem new_port validate cr d h = elim (Bool-cases (cr.image == [])) [
    | inl no_image ↦ absurd (unfold create_container in ground (arith, no_image))
    | inr image ↦ elim (Result-cases (publish_all new_port cr.ports no_ports)) [
      | inl (e, refused) ↦ absurd (unfold create_container in ground (arith, image, refused))
      | inr (ports, accepted) ↦ elim (Result-cases (check_policy validate cr)) [
        | inl (e, refused) ↦
            absurd (unfold create_container in ground (arith, image, accepted, refused))
        | inr (passed, valid) ↦
            let run = create_container_valid new_port validate cr ports d image accepted valid in
            let config = config_of cr ports in
            let code = sym (ap (λ r. r.1.code) run) ∙ h in
            (
              config,
              config_of-Asks new_port validate cr ports image accepted valid,
              subst (λ r. IsCreated config cr.name d r.0 r.1.payload) (sym run)
                  (after_create-IsCreated config cr.name d (container_create config cr.name d) refl
                    code),
            )
      ]
    ]
  ]
