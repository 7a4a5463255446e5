-- ===== src/Container/Configured.antt =====
-- pkg/container/hostconfiguredcontainer.go: a container with its configuration files on a host.
pub mod Access
pub mod ConfigFiles
pub mod Directories
use Prim.Native.String.{len, slice}
use libflexkube.Base.{
  ℕ, ◌-◌, ◌/◌, ◌%◌, ◌^◌, nat_eq, String, Bool, Option, none, some, List, [], ◌∷◌, ◌==◌,
  if◌then◌else◌, is_empty, append, map,
}
use libflexkube.Base.Map.{Map, lookup, insert, keys}
use libflexkube.Base.Fault.{Error, Result, success, failure, errorf, errorf_arg, wrapf}
use libflexkube.Base.Exec.{
  Exec, Action, Outcome, ok, err, panic, hang, pure, fail, lift, must, wrap, gets, ◌>>=◌, ◌>>◌,
}
use libflexkube.Docker
use libflexkube.World.{Library, run_hook, perform}
use libflexkube.Host.Config.{Host}
use libflexkube.Host.Transport.{validate_host}
use libflexkube.Container.Types.{ContainerConfig, Mount, File, exists}
use libflexkube.Container.Single.{
  Container, validate_container, new_container, create_instance, instance_status,
}
use libflexkube.Container.Single
use libflexkube.Container.Forwarding.{
  config_mountpoint, with_forwarded_runtime, with_configuration_container,
}
use libflexkube.Memory.{Memory, ContainerInstance, on_world, set_hcc, alloc_hcc}
unfoldable pub use Access.{container_of, config_of, config_container_of}
unfoldable pub use ConfigFiles.{update_configuration_status, copy_config_files}
pub use ConfigFiles.{config_file_mode}
unfoldable pub use Directories.{
  dir_mounts, mount_path, stat_mounts, is_dir, missing_mounts, create_missing_mounts,
}
pub use Directories.{mountpoint_dir_mode}

-- container.HostConfiguredContainer; `post_start` is the hook in its `Hooks`.
pub record HostConfiguredContainer : Type 0 where
  pub container : Container
  pub host : Host
  pub config_files : Map String
  pub post_start : Option ℕ

-- HostConfiguredContainer.Validate
unfoldable pub validate_hcc : Library → HostConfiguredContainer → Option Error
validate_hcc lib m = elim (validate_container m.container) [
  | some e ↦ some (wrapf "validating container configuration" e)
  | none ↦ elim (validate_host lib m.host) [
    | some e ↦ some (wrapf "validating host configuration" e)
    | none ↦ none
  ]
]

-- `c, _ := m.Container.New()`: a failed call leaves nil, and its error is dropped.
container_or_nil : Outcome ℕ → Exec Memory (Option ℕ)
container_or_nil (ok c) m = (ok (some c), m)
container_or_nil (err e) m = (ok none, m)
container_or_nil panic m = (panic, m)
container_or_nil hang m = (hang, m)

new_container_or_nil : Container → Exec Memory (Option ℕ)
unfolding container_or_nil
new_container_or_nil c m = let (r, m') = new_container c m in container_or_nil r m'

-- HostConfiguredContainer.New
unfoldable pub new_hcc : HostConfiguredContainer → Exec Memory ℕ
unfolding new_container_or_nil
new_hcc h = do
  lib ← gets (λ m. m.world.lib)
  let build : Exec Memory ℕ = do
    c ← new_container_or_nil h.container
    alloc_hcc (record {
      container = c;
      host = h.host;
      config_files = h.config_files;
      config_container = none;
      post_start = h.post_start;
    })
  elim (validate_hcc lib h) [ some e ↦ fail (wrapf "validating configuration" e) | none ↦ build ]

unfoldable pub configuration_status : ℕ → Action Memory
configuration_status h =
    with_forwarded_runtime h (with_configuration_container h (update_configuration_status h))

-- Configure: nothing is done for no paths.
unfoldable pub configure : ℕ → List String → Action Memory
configure h [] = pure tt
configure h (p ∷ ps) =
    with_forwarded_runtime h (with_configuration_container h (copy_config_files h (p ∷ ps)))

create_and_record : ℕ → Action Memory
create_and_record h = do
  wrap "creating missing mountpoints" (create_missing_mounts h)
  c ← container_of h
  i ← wrap "creating container" (Single.create c)
  s ← wrap "getting container status" (on_world (instance_status i))
  Single.set_status c s

unfoldable pub create : ℕ → Action Memory
unfolding create_and_record
create h = with_forwarded_runtime h (with_configuration_container h (create_and_record h))

unfoldable pub status : ℕ → Action Memory
status h = do
  c ← container_of h
  o ← gets (λ m. m.containers c)
  if exists o.status
      then with_forwarded_runtime h (Single.update_status c)
      else fail (errorf "can't check status of non existing container")

-- withHook, with no hook before the action
unfoldable pub with_hook : Action Memory → Option ℕ → Action Memory
with_hook action post_hook = do
  wrap "running action" action
  elim post_hook [ none ↦ pure tt | some n ↦ on_world (perform (run_hook n)) ]

unfoldable pub start : ℕ → Action Memory
start h = do
  hcc ← gets (λ m. m.hccs h)
  c ← container_of h
  with_hook (with_forwarded_runtime h (Single.start c)) hcc.post_start

unfoldable pub stop : ℕ → Action Memory
stop h = do c ← container_of h; with_forwarded_runtime h (Single.stop c)

unfoldable pub delete : ℕ → Action Memory
delete h = do c ← container_of h; with_forwarded_runtime h (Single.delete c)
