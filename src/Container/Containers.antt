-- ===== src/Container/Containers.antt =====
-- The state of `containers` and the comparison of current and desired state
-- (pkg/container/containers.go).
pub mod Kept
pub mod Files
pub mod Drift
use libflexkube.Base.{
  ℕ, String, Bool, true, false, not, Option, none, some, List, [], ◌∷◌, ◌++◌, ◌==◌, if◌then◌else◌,
  is_empty, is_some, ◌&&◌, ◌||◌, append,
}
use libflexkube.Base.Map.{Map, lookup, insert, delete, has, keys}
use libflexkube.Base.Fault.{Error, errorf, errorf_arg, wrapf, wrapf_arg, Result, success, failure}
use libflexkube.Base.Exec.{
  Exec, Action, Outcome, ok, err, panic, pure, fail, abort, lift, must, wrap, wrap_arg, gets,
  modify, zoom, error_of_call, ◌>>=◌, ◌>>◌,
}
use libflexkube.Util.{keys_string_map}
use libflexkube.Container.Types.{exists, running}
use libflexkube.Container.Single.{set_status}
use libflexkube.Container.Configured.{configure, container_of}
use libflexkube.Container.Configured
use libflexkube.Container.State.{
  StateMap, index, check_state, status_of, remove_container, create_and_start,
}
use libflexkube.Memory.{Memory, HccObject, ContainerObject, set_hcc, alloc_hcc}

-- container.containers. `currentState` is nil until CheckCurrentState makes it the very map that
-- `previousState` is, and nothing else is assigned to it; so `refreshed` says whether it is nil, and
-- the one map stands in `current_state`.
pub record Containers : Type 0 where
  pub memory : Memory
  pub current_state : StateMap
  pub refreshed : Bool
  pub desired_state : StateMap

unfoldable pub on_memory {ℓ} : {A : Type ℓ} → Exec Memory A → Exec Containers A
unfolding zoom
on_memory m = zoom (λ s. s.memory) (λ s t. record s { memory = t }) m

-- c.currentState[name] = p
unfoldable pub put_current : String → Option ℕ → Action Containers
put_current name p = modify (λ c. record c { current_state = insert c.current_state name p })

-- delete(c.currentState, name)
unfoldable pub drop_current : String → Action Containers
drop_current name = modify (λ c. record c { current_state = delete c.current_state name })

-- The object behind a pointer, where nil panics.
unfoldable pub deref : Option ℕ → Exec Memory HccObject
deref p = do h ← must p; gets (λ m. m.hccs h)

-- containers.CheckCurrentState
unfoldable pub check_current_state : Action Containers
check_current_state = do
  modify (λ c. record c { refreshed = true })
  current ← gets (λ c. c.current_state)
  on_memory (check_state current)

-- Whether a desired file is missing or has another content.
unfoldable pub drifted : Map String → String → String → Bool
drifted current path content = elim (lookup current path) [
  | none ↦ true
  | some text ↦ not (content == text)
]

-- The loop of filesToUpdate over the paths in the order in which `range` visits them.
unfoldable pub drifted_files : Map String → Map String → List String → List String
drifted_files desired current [] = []
drifted_files desired current (path ∷ paths) =
    let rest = drifted_files desired current paths in
    elim (lookup desired path) [
      | none ↦ rest
      | some content ↦ if drifted current path content then path ∷ rest else rest
    ]

-- filesToUpdate
unfoldable pub files_to_update : HccObject → Option HccObject → Exec Memory (List String)
files_to_update target none = pure (keys_string_map target.config_files)
files_to_update target (some state) = do
  order ← gets (λ m. m.world.range_order m.world.history)
  pure (drifted_files target.config_files state.config_files (order (keys target.config_files)))

-- reflect.DeepEqual of two lists of paths
unfoldable pub same_list : List String → List String → Bool
same_list [] [] = true
same_list [] (y ∷ ys) = false
same_list (x ∷ xs) [] = false
same_list (x ∷ xs) (y ∷ ys) = x == y && same_list xs ys

-- The object behind a pointer that may be nil.
unfoldable pub object_at : Option ℕ → Exec Memory (Option HccObject)
object_at none = pure none
object_at (some h) = do o ← gets (λ m. m.hccs h); pure (some o)

-- filesToUpdate of two pointers
unfoldable pub updates_of : ℕ → Option ℕ → Exec Memory (List String)
updates_of target state = do t ← gets (λ m. m.hccs target); s ← object_at state; files_to_update t s

-- `if stateHCC == nil { c.currentState[containerName] = targetHCC; stateHCC = targetHCC }`
unfoldable pub adopt : String → ℕ → Option ℕ → Exec Containers ℕ
adopt name target (some state) = pure state
adopt name target none = do put_current name (some target); pure target

unfoldable pub copy_files : ℕ → ℕ → Action Memory
copy_files target state = do
  t ← gets (λ m. m.hccs target)
  s ← gets (λ m. m.hccs state)
  set_hcc state (record s { config_files = t.config_files })

-- `return fmt.Errorf(text, err)` where there is an error
unfoldable pub fail_with : String → Option Error → Action Containers
fail_with text none = pure tt
fail_with text (some e) = fail (wrapf text e)

-- What follows Configure: a failure that has updated no file is returned at once.
unfoldable pub finish_configured :
    String → ℕ → Option ℕ → List String → Option Error → Action Containers
finish_configured name target state files e = do
  again ← on_memory (updates_of target state)
  if is_some e && same_list files again then fail_with "no files has been updated" e else do
    s ← adopt name target state
    on_memory (copy_files target s)
    fail_with "updating configuration" e

unfoldable pub configure_object : String → ℕ → Action Containers
configure_object name target = do
  current ← gets (λ c. c.current_state)
  let state = index current name
  files ← on_memory (updates_of target state)
  e ← error_of_call (on_memory (configure target files))
  finish_configured name target state files e

-- A container that is not desired is not configured.
unfoldable pub configure_at : String → Option ℕ → Action Containers
configure_at name none = pure tt
configure_at name (some target) = configure_object name target

-- containers.ensureConfigured
unfoldable pub ensure_configured : String → Action Containers
ensure_configured name = do
  desired ← gets (λ c. c.desired_state)
  configure_at name (index desired name)

-- ensureRunning
unfoldable pub ensure_running : Option ℕ → Action Memory
ensure_running none = fail (errorf "can't start non-existing container")
ensure_running (some h) = do s ← status_of h; if running s then pure tt else Configured.start h

-- Whether the pointer is not nil and its container exists.
unfoldable pub exists_at : Option ℕ → Exec Memory Bool
exists_at none = pure false
exists_at (some h) = do s ← status_of h; pure (exists s)

-- *stateHCC.container.Status() = *targetHCC.container.Status()
unfoldable pub copy_status : ℕ → ℕ → Action Memory
copy_status target state = do s ← status_of target; c ← container_of state; set_status c s

-- The current state takes over the target and its status, also after a failure.
unfoldable pub adopt_created : String → Option ℕ → Option Error → Option ℕ → Action Containers
adopt_created name state e none = abort
adopt_created name state e (some target) = do
  s ← adopt name target state
  on_memory (copy_status target s)
  fail_with "starting container" e

-- What follows CreateAndStart: a failure after which the container does not exist is returned at once.
unfoldable pub finish_created : String → Option ℕ → Option Error → Option ℕ → Action Containers
finish_created name state none target = adopt_created name state none target
finish_created name state (some e) target = do
  t ← must target
  created ← on_memory (exists_at (some t))
  if created then adopt_created name state (some e) target else fail (wrapf "creating container" e)

unfoldable pub create_object : String → Option ℕ → Action Containers
create_object name state = do
  desired ← gets (λ c. c.desired_state)
  e ← error_of_call (on_memory (create_and_start desired name))
  finish_created name state e (index desired name)

-- containers.ensureExists
unfoldable pub ensure_exists : String → Action Containers
ensure_exists name = do
  current ← gets (λ c. c.current_state)
  let state = index current name
  there ← on_memory (exists_at state)
  if there then pure tt else create_object name state

-- containers.isUpdatable
unfoldable pub is_updatable : String → Action Containers
is_updatable name = do
  c ← gets (λ c. c)
  if not (has c.current_state name)
      then fail (errorf_arg "can't update non-existing container" name)
      else if not (has c.desired_state name)
      then fail (errorf_arg "can't update container, which is scheduler for removal" name)
      else pure tt

-- containers.diffHost
unfoldable pub diff_host : String → Exec Containers String
diff_host name = do
  wrap "can't diff container" (is_updatable name)
  c ← gets (λ c. c)
  current ← on_memory (deref (index c.current_state name))
  desired ← on_memory (deref (index c.desired_state name))
  pure (c.memory.world.lib.diff_host current.host desired.host)

unfoldable pub object_of : Option ℕ → Exec Memory ContainerObject
object_of p = do h ← must p; c ← container_of h; gets (λ m. m.containers c)

-- containers.diffContainer
unfoldable pub diff_container : String → Exec Containers String
diff_container name = do
  wrap "can't diff container" (is_updatable name)
  c ← gets (λ c. c)
  current ← on_memory (object_of (index c.current_state name))
  desired ← on_memory (object_of (index c.desired_state name))
  let lib = c.memory.world.lib
  let configs = c.memory.configs
  pure (
      append (lib.diff_config current.config desired.config) (
        lib.diff_runtime (configs current.runtime_config).host
          (configs desired.runtime_config).host))
