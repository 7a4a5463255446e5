-- ===== src/Controlplane/Deployment.antt =====
-- Validate and New of a controlplane (pkg/controlplane/controlplane.go). Both fill the components of
-- their receiver, and the New of a component fills a Common that is nil.
pub mod Destroyed
use libflexkube.Base.{
  ℕ, String, Bool, true, false, Option, none, some, List, [], ◌∷◌, ◌++◌, if◌then◌else◌, is_empty,
  ◌&&◌, not,
}
use libflexkube.Base.Map.{Map}
use libflexkube.Base.Fault.{
  Error, errorf, wrapf, wrapf_arg, error_if, error_of, Result, success, failure, to_option,
}
use libflexkube.Base.Exec.{
  Exec, Action, pure, fail, abort, must, gets, try, wrap, modify, zoom, ◌>>=◌, ◌>>◌,
}
use libflexkube.Util.{return_errors}
use libflexkube.Container.Configured.{HostConfiguredContainer}
use libflexkube.Container.State.{ContainersState, StateMap}
use libflexkube.Container.Exported
use libflexkube.Memory.{Memory}
use libflexkube.Resource.{default_config}
use libflexkube.Controlplane.{
  KubeApiServer, KubeControllerManager, KubeScheduler, Controlplane, ControlplaneLibrary,
}
use libflexkube.Controlplane.ApiServer
use libflexkube.Controlplane.ApiServer.{filled_api_server, new_api_server_error}
use libflexkube.Controlplane.ControllerManager
use libflexkube.Controlplane.ControllerManager.{
  filled_controller_manager, new_controller_manager_error,
}
use libflexkube.Controlplane.Scheduler
use libflexkube.Controlplane.Scheduler.{filled_scheduler, new_scheduler_error}
use libflexkube.Controlplane.Build.{build_components}

-- The memory, and the receiver.
abbrev pub Planned : Type 0
Planned = Memory × Controlplane

abbrev pub on_memory : {A : Type 0} → Exec Memory A → Exec Planned A
on_memory m = zoom (λ s. s.0) (λ s m. (m, s.1)) m

abbrev pub receiver : Exec Planned Controlplane
receiver = gets (λ s. s.1)

abbrev pub set_receiver : Controlplane → Action Planned
set_receiver c = modify (λ s. (s.0, c))

-- buildComponents
unfoldable pub fill_components : ControlplaneLibrary → Action Planned
fill_components lib = do
  c ← receiver
  built ← must (build_components lib.base c)
  set_receiver built

-- The containers of a controlplane, of which both fields of container.Containers are shown; nil where
-- there are none.
abbrev pub Built : Type 0
Built = Option (StateMap × StateMap)

-- containersWithState; the previous state is that of the receiver, or empty with it.
unfoldable pub containers_with_state : Controlplane → Exec Memory Built
containers_with_state c = if is_empty c.state then pure none else do
  states ←
      wrap "creating containers state"
        (Exported.new (record { previous_state = c.state; desired_state = [] }))
  pure (some states)

-- A component whose New has this error, after what New has written, and its container.
abbrev pub converted :
    String
    → Option Error
    → (ℕ → Result HostConfiguredContainer)
    → Exec Planned (Result HostConfiguredContainer)
converted name none template = do
  docker ← on_memory default_config
  pure (elim (template docker) [
    | success h ↦ success h
    | failure e ↦ failure (wrapf_arg "building %q container configuration" name e)
  ])
converted name (some e) template = pure (failure (wrapf_arg "verifying %q configuration" name e))

-- validateControlplaneComponent of kube-apiserver
unfoldable pub validated_api_server :
    ControlplaneLibrary → Exec Planned (Result HostConfiguredContainer)
validated_api_server lib = do
  calls ← gets (λ s. s.0.world.history)
  c ← receiver
  let k = filled_api_server c.kube_api_server
  set_receiver (record c { kube_api_server = k })
  converted "kube-apiserver" (new_api_server_error lib calls c.kube_api_server)
      (λ docker. success (ApiServer.to_host_configured_container lib.base k docker))

-- validateControlplaneComponent of kube-controller-manager
unfoldable pub validated_controller_manager :
    ControlplaneLibrary → Exec Planned (Result HostConfiguredContainer)
validated_controller_manager lib = do
  calls ← gets (λ s. s.0.world.history)
  c ← receiver
  let k = filled_controller_manager c.kube_controller_manager
  set_receiver (record c { kube_controller_manager = k })
  converted "kube-controller-manager"
      (new_controller_manager_error lib calls c.kube_controller_manager)
      (λ docker. success (ControllerManager.to_host_configured_container lib.base k docker))

-- validateControlplaneComponent of kube-scheduler
unfoldable pub validated_scheduler :
    ControlplaneLibrary → Exec Planned (Result HostConfiguredContainer)
validated_scheduler lib = do
  calls ← gets (λ s. s.0.world.history)
  c ← receiver
  let k = filled_scheduler c.kube_scheduler
  set_receiver (record c { kube_scheduler = k })
  converted "kube-scheduler" (new_scheduler_error lib calls c.kube_scheduler)
      (λ docker. Scheduler.to_host_configured_container lib k docker)

-- The three containers by name, nil where one could not be made.
abbrev pub desired_containers :
    Result HostConfiguredContainer
    → Result HostConfiguredContainer
    → Result HostConfiguredContainer
    → ContainersState
desired_containers kas kcm ks =
    ("kube-apiserver", to_option kas)
    ∷ ("kube-controller-manager", to_option kcm)
    ∷ ("kube-scheduler", to_option ks)
    ∷ []

-- controlplaneComponentsToContainersState
unfoldable pub components_to_containers_state :
    ControlplaneLibrary → Exec Planned (ContainersState × List Error)
components_to_containers_state lib = do
  kas ← validated_api_server lib
  kcm ← validated_controller_manager lib
  ks ← validated_scheduler lib
  pure (
    desired_containers kas kcm ks,
    error_of (wrapf "validating kube-apiserver configuration") kas
        ++ (error_of (wrapf "validating kube-controller-manager") kcm
            ++ error_of (wrapf "validating kube-scheduler configuration") ks),
  )

-- The end of Validate, with the errors so far and the desired state.
unfoldable pub validate_containers :
    Controlplane → List Error → ContainersState → Exec Planned (Option Error)
validate_containers c errors desired =
    if not (is_empty errors) then pure (return_errors errors) else do
      r ←
          try (
            on_memory (Exported.new (record { previous_state = c.state; desired_state = desired })))
      pure (return_errors (error_of (wrapf "generating containers configuration") r))

-- Validate after buildComponents, with the receiver as that left it.
unfoldable pub validate_filled : ControlplaneLibrary → Controlplane → Exec Planned (Option Error)
validate_filled lib c = do
  with_state ← try (on_memory (containers_with_state c))
  let errors =
      error_if (c.destroy && is_empty c.state) (errorf "can't destroy non-existent controlplane")
      ++ error_of (wrapf "malformed containers state") with_state
  if c.destroy then pure (return_errors errors) else do
    found ← components_to_containers_state lib
    validate_containers c (errors ++ found.1) found.0

-- Controlplane.Validate
unfoldable pub validate : ControlplaneLibrary → Exec Planned (Option Error)
validate lib = do fill_components lib; c ← receiver; validate_filled lib c

-- The component of New, whose errors are dropped: where its New fails it is nil, and panics.
abbrev pub rebuilt :
    Option Error
    → (ℕ → Result HostConfiguredContainer)
    → Exec Planned (Result HostConfiguredContainer)
rebuilt (some e) template = abort
rebuilt none template = do docker ← on_memory default_config; pure (template docker)

-- The three components of New, after buildComponents.
unfoldable pub rebuild_components : ControlplaneLibrary → Exec Planned ContainersState
rebuild_components lib = do
  calls ← gets (λ s. s.0.world.history)
  c ← receiver
  let a = filled_api_server c.kube_api_server
  let m = filled_controller_manager c.kube_controller_manager
  let k = filled_scheduler c.kube_scheduler
  kas ←
      rebuilt (new_api_server_error lib calls c.kube_api_server)
        (λ docker. success (ApiServer.to_host_configured_container lib.base a docker))
  kcm ←
      rebuilt (new_controller_manager_error lib calls c.kube_controller_manager)
        (λ docker. success (ControllerManager.to_host_configured_container lib.base m docker))
  ks ←
      rebuilt (new_scheduler_error lib calls c.kube_scheduler)
        (λ docker. Scheduler.to_host_configured_container lib k docker)
  set_receiver (record c { kube_api_server = a; kube_controller_manager = m; kube_scheduler = k })
  pure (desired_containers kas kcm ks)

-- New after its validation, where nothing is to be destroyed.
unfoldable pub new_components : ControlplaneLibrary → Exec Planned Built
new_components lib = do
  fill_components lib
  c ← receiver
  desired ← rebuild_components lib
  r ← try (on_memory (Exported.new (record { previous_state = c.state; desired_state = desired })))
  pure (to_option r)

-- New after its validation. The error of containersWithState is dropped: a nil controlplane is left,
-- which is returned, or panics.
unfoldable pub new_validated : ControlplaneLibrary → Controlplane → Exec Planned Built
new_validated lib c = do
  r ← try (on_memory (containers_with_state c))
  elim r [
    | failure e ↦ if c.destroy then pure none else abort
    | success previous ↦ if c.destroy then pure previous else new_components lib
  ]

-- Controlplane.New
unfoldable pub new : ControlplaneLibrary → Exec Planned Built
new lib = do
  e ← validate lib
  c ← receiver
  elim e [
    | some e ↦ fail (wrapf "validating controlplane configuration" e)
    | none ↦ new_validated lib c
  ]
