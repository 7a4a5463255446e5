-- ===== src/Container/Forwarding.antt =====
-- Running an action with the runtime of another host, and with a container for configuration files
-- (pkg/container/hostconfiguredcontainer.go).
pub mod Restore
pub mod Cleanup
use libflexkube.Base.{ℕ, String, Option, none, some, [], ◌∷◌, ◌==◌, if◌then◌else◌, append, false}
use libflexkube.Base.Exec.{Exec, Action, pure, abort, must, wrap, gets, deferred, ◌>>=◌, ◌>>◌}
use libflexkube.Docker
use libflexkube.Host.Transport.{new_host, connect, forward_unix_socket}
use libflexkube.Container.Types.{ContainerConfig}
use libflexkube.Container.Single.{create_instance, instance_status, instance_delete, set_runtime}
use libflexkube.Memory.{Memory, HccObject, on_world, set_hcc, set_config}

abbrev pub config_mountpoint : String
config_mountpoint = "/mnt/host"

unfoldable pub connect_and_forward : ℕ → String → Exec Memory String
connect_and_forward h target_address = do
  hcc ← gets (λ m. m.hccs h)
  transport ← wrap "initializing host" (on_world (new_host hcc.host))
  connected ← wrap "connecting" (on_world (connect transport))
  wrap "forwarding unix socket" (on_world (forward_unix_socket connected target_address))

-- runtimeConfig.SetAddress, on the shared configuration
unfoldable pub set_address : ℕ → String → Action Memory
set_address rc address = do
  config ← gets (λ m. m.configs rc)
  set_config rc (Docker.set_address config address)

-- The end of withForwardedRuntime: the original address is stored again, and the action runs with
-- the runtime that is set; afterwards the original runtime is set.
unfoldable pub restore_and_run : ℕ → ℕ → String → Action Memory → Action Memory
restore_and_run rc c old_address action = do
  set_address rc old_address
  original ← gets (λ m. m.configs rc)
  original_runtime ← wrap "initializing original runtime" (on_world (Docker.new original))
  deferred (set_runtime c original_runtime) action

-- withForwardedRuntime, of the container and its runtime configuration
unfoldable pub forward_and_run : ℕ → ℕ → ℕ → Action Memory → Action Memory
forward_and_run h c rc action = do
  default_host ← gets (λ m. m.world.lib.default_docker_host)
  config ← gets (λ m. m.configs rc)
  let old_address = Docker.get_address default_host config
  new_address ← wrap "forwarding host" (connect_and_forward h old_address)
  set_address rc new_address
  forwarded ← gets (λ m. m.configs rc)
  forwarded_runtime ← wrap "initializing forwarded runtime" (on_world (Docker.new forwarded))
  set_runtime c forwarded_runtime
  restore_and_run rc c old_address action

unfoldable pub run_forwarded : ℕ → Option ℕ → Action Memory → Action Memory
run_forwarded h none action = abort
run_forwarded h (some c) action = do
  o ← gets (λ m. m.containers c)
  forward_and_run h c o.runtime_config action

unfoldable pub with_forwarded_runtime : ℕ → Action Memory → Action Memory
with_forwarded_runtime h action = do
  hcc ← gets (λ m. m.hccs h)
  run_forwarded h hcc.container action

-- The configuration of the helper container.
helper_config : ContainerConfig → ContainerConfig
helper_config c = record {
  name = append c.name "-config";
  image = c.image;
  args = [];
  entrypoint = [];
  ports = [];
  mounts = record { source = "/"; target = config_mountpoint; propagation = "" } ∷ [];
  privileged = false;
  network_mode = "";
  pid_mode = "";
  ipc_mode = "";
  user = "";
  group = "";
  env = [];
}

unfoldable pub create_configuration_container : ℕ → Action Memory
unfolding helper_config
create_configuration_container h = do
  hcc ← gets (λ m. m.hccs h)
  c ← must hcc.container
  o ← gets (λ m. m.containers c)
  i ←
      wrap "creating config container while checking configuration"
        (on_world (create_instance (helper_config o.config) o.runtime))
  hcc' ← gets (λ m. m.hccs h)
  set_hcc h (record hcc' { config_container = some i })

unfoldable pub remove_configuration_container : ℕ → Action Memory
remove_configuration_container h = do
  hcc ← gets (λ m. m.hccs h)
  i ← must hcc.config_container
  s ← wrap "checking if container exists" (on_world (instance_status i))
  if s.id == "" then pure tt else on_world (instance_delete i)

-- The helper container is removed after the action and once more when the function ends, where an
-- error is only printed.
unfoldable pub with_configuration_container : ℕ → Action Memory → Action Memory
with_configuration_container h action = do
  wrap "creating container for managing configuration" (create_configuration_container h)
  let body : Action Memory = do wrap "running action" action; remove_configuration_container h
  deferred (remove_configuration_container h) body
