-- ===== src/Container/State.antt =====
-- pkg/container/containersstate.go: named host configured containers.
use libflexkube.Base.{ℕ, String, not, Option, none, some, [], ◌∷◌, ◌==◌, if◌then◌else◌, ◌&&◌, ◌||◌}
use libflexkube.Base.Map.{Map, lookup, insert}
use libflexkube.Base.Fault.{Error, errorf}
use libflexkube.Base.Exec.{
  Exec, Action, pure, fail, must, wrap, wrap_arg, gets, error_of_call, ◌>>=◌, ◌>>◌,
}
use libflexkube.World.{Library}
use libflexkube.Container.Types.{ContainerStatus, exists, running, restarting}
use libflexkube.Container.Single.{set_status}
use libflexkube.Container.Configured.{HostConfiguredContainer, new_hcc, container_of}
use libflexkube.Container.Configured
use libflexkube.Memory.{Memory}

-- ContainersState, with values that may be nil.
abbrev pub ContainersState : Type 0
ContainersState = Map (Option HostConfiguredContainer)

-- containersState: addresses, or nil.
abbrev pub StateMap : Type 0
StateMap = Map (Option ℕ)

-- The value of a key: nil where there is none.
abbrev pub index : StateMap → String → Option ℕ
index s name = elim (lookup s name) [ none ↦ none | some p ↦ p ]

-- The loop of ContainersState.New, with the state so far; a nil value panics.
unfoldable pub new_state_from : StateMap → ContainersState → Exec Memory StateMap
new_state_from state [] = pure state
new_state_from state ((name, container) ∷ s) = do
  c ← must container
  h ← wrap "creating new container object" (new_hcc c)
  new_state_from (insert state name (some h)) s

-- ContainersState.New
unfoldable pub new_state : ContainersState → Exec Memory StateMap
new_state s = new_state_from [] s

abbrev pub status_missing : String
status_missing = "gone"

unfoldable pub status_of : ℕ → Exec Memory ContainerStatus
status_of h = do c ← container_of h; gets (λ m. (m.containers c).status)

unfoldable pub set_status_of : ℕ → ContainerStatus → Action Memory
set_status_of h s = do c ← container_of h; set_status c s

-- A container whose status is known.
unfoldable pub check_existing : String → ℕ → Action Memory
check_existing name h = do
  s ← status_of h
  if exists s then pure tt else set_status_of h (record { id = ""; status = status_missing })
  wrap_arg "checking container configuration status" name (Configured.configuration_status h)

-- An error of Status becomes the status text.
unfoldable pub checked : String → ℕ → Library → Option Error → Action Memory
checked name h lib none = check_existing name h
checked name h lib (some e) = set_status_of h (record { id = ""; status = lib.error_text e })

-- One round of the loop of CheckState.
unfoldable pub check_one : String → ℕ → Action Memory
check_one name h = do
  e ← error_of_call (Configured.status h)
  lib ← gets (λ m. m.world.lib)
  checked name h lib e

-- containersState.CheckState
unfoldable pub check_state : StateMap → Action Memory
check_state [] = pure tt
check_state ((name, p) ∷ s) = do h ← must p; check_one name h; check_state s

-- Stopping before removing, where the container runs.
unfoldable pub stop_if_running : ℕ → Action Memory
stop_if_running h = do
  s ← status_of h
  if exists s && (running s || restarting s)
      then wrap "stopping container before removing" (Configured.stop h)
      else pure tt

-- The status is read again, since stopping has refreshed it.
unfoldable pub delete_if_exists : ℕ → Action Memory
delete_if_exists h = do
  s ← status_of h
  if exists s then wrap "removing container" (Configured.delete h) else pure tt

unfoldable pub remove_object : ℕ → Action Memory
remove_object h = do stop_if_running h; delete_if_exists h

unfoldable pub remove_entry : Option (Option ℕ) → Action Memory
remove_entry none = fail (errorf "can't remove non-existing container")
remove_entry (some p) = do h ← must p; remove_object h

-- containersState.RemoveContainer up to its last line, `delete(s, containerName)`, which the callers
-- do on their map.
unfoldable pub remove_container : StateMap → String → Action Memory
remove_container s name = remove_entry (lookup s name)

unfoldable pub create_entry : Option (Option ℕ) → Action Memory
create_entry none = fail (errorf "can't create non-existing container")
create_entry (some p) = do
  h ← must p
  wrap "creating new container" (Configured.create h)
  wrap "starting container" (Configured.start h)

-- containersState.CreateAndStart
unfoldable pub create_and_start : StateMap → String → Action Memory
create_and_start s name = create_entry (lookup s name)

-- A status with neither id nor text is left out.
unfoldable pub exported_status : ContainerStatus → Option ContainerStatus
exported_status s = if not (s.id == "") || not (s.status == "") then some s else none

-- One container of Export; the hook is not exported.
unfoldable pub export_one : ℕ → Exec Memory HostConfiguredContainer
export_one h = do
  hcc ← gets (λ m. m.hccs h)
  c ← must hcc.container
  o ← gets (λ m. m.containers c)
  pure (record {
    container = record {
      config = o.config;
      status = exported_status o.status;
      docker = some o.runtime_config;
    };
    host = hcc.host;
    config_files = hcc.config_files;
    post_start = none;
  })

-- containersState.Export
unfoldable pub export : StateMap → Exec Memory ContainersState
export [] = pure []
export ((name, p) ∷ s) = do
  h ← must p
  e ← export_one h
  rest ← export s
  pure ((name, some e) ∷ rest)
