-- ===== src/Container/Exported.antt =====
-- The user's side of pkg/container/containers.go: validation, construction and export.
pub mod Desired
use libflexkube.Base.{String, false, Option, none, some, [], ◌∷◌, ◌++◌, is_empty, ◌&&◌}
use libflexkube.Base.Map.{lookup}
use libflexkube.Base.Fault.{Error, errorf, wrapf, error_if, error_of, Result, success, failure}
use libflexkube.Base.Exec.{Exec, Action, pure, fail, must, wrap, gets, try, abort, ◌>>=◌, ◌>>◌}
use libflexkube.Util.{return_errors}
use libflexkube.Container.Configured.{HostConfiguredContainer}
use libflexkube.Container.State.{ContainersState, StateMap, new_state, export, status_of}
use libflexkube.Container.Containers.{Containers, on_memory, check_current_state}
use libflexkube.Container.Deploy.{deploy}
use libflexkube.Memory.{Memory}

-- container.Containers; a nil map and an empty one are validated and built alike.
pub record ContainersConfig : Type 0 where
  pub previous_state : ContainersState
  pub desired_state : ContainersState

-- Containers.Validate, of a pointer that may be nil. The states that it builds are dropped.
unfoldable pub validate : Option ContainersConfig → Exec Memory (Option Error)
unfolding return_errors
validate none = pure (return_errors (errorf "containers must be defined" ∷ []))
validate (some c) = do
  previous ← try (new_state c.previous_state)
  desired ← try (new_state c.desired_state)
  pure (
      return_errors (
        error_if (is_empty c.previous_state && is_empty c.desired_state)
          (errorf "either current state or desired state must be defined")
        ++ (error_of (wrapf "validating previous state failed") previous
            ++ error_of (wrapf "validating desired state failed") desired)))

-- A type assertion on a nil interface panics.
unfoldable pub built : Result StateMap → Exec Memory StateMap
built (success s) = pure s
built (failure e) = abort

-- Containers.New: the containers' own fields; the memory is where they live.
unfoldable pub new : ContainersConfig → Exec Memory (StateMap × StateMap)
new c = do
  e ← validate (some c)
  let build : Exec Memory (StateMap × StateMap) = do
    previous ← try (new_state c.previous_state)
    desired ← try (new_state c.desired_state)
    previous' ← built previous
    desired' ← built desired
    pure (previous', desired')
  elim e [ some e ↦ fail (wrapf "validating containers configuration" e) | none ↦ build ]

-- containers.ToExported
unfoldable pub to_exported : Exec Containers ContainersConfig
to_exported = do
  c ← gets (λ c. c)
  previous ← on_memory (export c.current_state)
  desired ← on_memory (export c.desired_state)
  pure (record { previous_state = previous; desired_state = desired })

containers_of : Memory → StateMap → StateMap → Containers
containers_of m previous desired = record {
  memory = m;
  current_state = previous;
  refreshed = false;
  desired_state = desired;
}

-- An action of the validated containers, built in a memory, and its result with that memory.
run_on : Action Containers → StateMap × StateMap → Exec Memory ContainersConfig
run_on action (previous, desired) m =
    let (r, c) = (action >> to_exported) (containers_of m previous desired) in (r, c.memory)

-- Containers.CheckCurrentState: the new value of the receiver.
unfoldable pub check_current_state_config : ContainersConfig → Exec Memory ContainersConfig
unfolding run_on containers_of
check_current_state_config c = do
  states ← wrap "creating containers configuration" (new c)
  run_on (wrap "checking current state of the containers" check_current_state) states

refresh_and_deploy : Action Containers
refresh_and_deploy = do wrap "checking current state" check_current_state; wrap "deploying" deploy

-- Containers.Deploy: the new value of the receiver.
unfoldable pub deploy_config : ContainersConfig → Exec Memory ContainersConfig
unfolding run_on containers_of refresh_and_deploy
deploy_config c = do
  states ← wrap "initializing containers" (new c)
  run_on refresh_and_deploy states

-- The id that DesiredState shows: that of the previous state's container, if there is one.
unfoldable pub known_id : StateMap → String → Exec Memory String
known_id previous name = elim (lookup previous name) [
  | none ↦ pure ""
  | some p ↦ do h ← must p; s ← status_of h; pure s.id
]

unfoldable pub show_running : String → HostConfiguredContainer → HostConfiguredContainer
show_running id h = record h {
  container = record (h.container) { status = some (record { id = id; status = "running" }) };
}

-- The loop of DesiredState.
unfoldable pub show_all : StateMap → ContainersState → Exec Memory ContainersState
unfolding known_id show_running
show_all previous [] = pure []
show_all previous ((name, p) ∷ s) = do
  id ← known_id previous name
  h ← must p
  rest ← show_all previous s
  pure ((name, some (show_running id h)) ∷ rest)

-- containers.DesiredState
unfoldable pub desired_state : Exec Containers ContainersState
unfolding show_all
desired_state = do
  c ← gets (λ c. c)
  exported ← on_memory (export c.desired_state)
  on_memory (show_all c.current_state exported)
