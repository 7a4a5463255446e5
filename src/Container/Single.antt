-- ===== src/Container/Single.antt =====
-- pkg/container/container.go: one container on a runtime that can be reached directly.
pub mod Lifecycle
use libflexkube.Base.{ℕ, Option, none, some, ◌==◌, if◌then◌else◌}
use libflexkube.Base.Fault.{Error, errorf, wrapf}
use libflexkube.Base.Exec.{Exec, Action, pure, fail, must, wrap, gets, ◌>>=◌, ◌>>◌}
use libflexkube.World.{World, Client}
use libflexkube.Docker
use libflexkube.Container.Types.{ContainerConfig, ContainerStatus, exists, no_status}
use libflexkube.Memory.{Memory, ContainerInstance, on_world, set_container, alloc_container}

-- container.Container; `docker` is the address of the configuration in its `Runtime`.
pub record Container : Type 0 where
  pub config : ContainerConfig
  pub status : Option ContainerStatus
  pub docker : Option ℕ

-- Container.Validate
unfoldable pub validate_container : Container → Option Error
validate_container c =
    if c.config.name == ""
    then some (errorf "name must be set")
    else if c.config.image == ""
    then some (errorf "image must be set")
    else elim c.docker [ none ↦ some (errorf "docker runtime must be set") | some rc ↦ none ]

-- container.selectRuntime, of the runtime's configuration
unfoldable pub select_runtime : ℕ → Exec Memory Client
select_runtime rc = do
  config ← gets (λ m. m.configs rc)
  wrap "selecting container runtime" (on_world (Docker.new config))

status_or_none : Option ContainerStatus → ContainerStatus
status_or_none none = no_status
status_or_none (some s) = s

-- Container.New
unfoldable pub new_container : Container → Exec Memory ℕ
unfolding status_or_none
new_container c = elim (validate_container c) [
  | some e ↦ fail (wrapf "container configuration validation failed" e)
  | none ↦ do
    rc ← must c.docker
    runtime ← wrap "determining container runtime" (select_runtime rc)
    alloc_container (record {
      config = c.config;
      runtime = runtime;
      runtime_config = rc;
      status = status_or_none c.status;
    })
]

-- containerInstance.Status, Start, Stop, Delete
unfoldable pub instance_status : ContainerInstance → Exec World ContainerStatus
instance_status i = Docker.status i.runtime i.status.id

unfoldable pub instance_start : ContainerInstance → Action World
instance_start i = Docker.start i.runtime i.status.id

unfoldable pub instance_stop : ContainerInstance → Action World
instance_stop i = Docker.stop i.runtime i.status.id

unfoldable pub instance_delete : ContainerInstance → Action World
instance_delete i = Docker.delete i.runtime i.status.id

-- container.Create, of a configuration and a runtime
unfoldable pub create_instance : ContainerConfig → Client → Exec World ContainerInstance
create_instance config runtime = do
  id ← wrap "creating container" (Docker.create runtime config)
  pure (record { config = config; runtime = runtime; status = record { id = id; status = "" } })

unfoldable pub create : ℕ → Exec Memory ContainerInstance
create c = do o ← gets (λ m. m.containers c); on_world (create_instance o.config o.runtime)

-- container.FromStatus
unfoldable pub from_status : ℕ → Exec Memory ContainerInstance
from_status c = do
  o ← gets (λ m. m.containers c)
  if exists o.status
      then pure (record { config = o.config; runtime = o.runtime; status = o.status })
      else fail (errorf "can't create container instance from status without id")

-- container.SetStatus, SetRuntime
unfoldable pub set_status : ℕ → ContainerStatus → Action Memory
set_status c s = do o ← gets (λ m. m.containers c); set_container c (record o { status = s })

unfoldable pub set_runtime : ℕ → Client → Action Memory
set_runtime c r = do o ← gets (λ m. m.containers c); set_container c (record o { runtime = r })

unfoldable pub update_status : ℕ → Action Memory
update_status c = do
  i ← wrap "creating container instance" (from_status c)
  s ← wrap "checking container status" (on_world (instance_status i))
  set_status c s

unfoldable pub start : ℕ → Action Memory
start c = do
  i ← wrap "getting containers instance from status" (from_status c)
  wrap "starting container" (on_world (instance_start i))
  update_status c

unfoldable pub stop : ℕ → Action Memory
stop c = do
  i ← wrap "getting containers instance from status" (from_status c)
  wrap "stopping container" (on_world (instance_stop i))
  update_status c

-- container.Delete: the id is forgotten, the status text is kept.
unfoldable pub delete : ℕ → Action Memory
delete c = do
  i ← wrap "getting containers instance from status" (from_status c)
  wrap "deleting container" (on_world (instance_delete i))
  o ← gets (λ m. m.containers c)
  set_status c (record { id = ""; status = o.status.status })
