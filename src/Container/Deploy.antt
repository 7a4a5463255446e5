-- ===== src/Container/Deploy.antt =====
-- Reaching the desired state (pkg/container/containers.go).
pub mod Idle
pub mod Names
pub mod Update
pub mod Converge
pub mod Theorems
use libflexkube.Base.{
  ℕ, String, Bool, true, false, not, Option, none, some, List, [], ◌∷◌, ◌==◌, if◌then◌else◌,
  is_empty, ◌&&◌, ◌||◌,
}
use libflexkube.Base.Map.{Map, lookup, insert, delete, has, keys}
use libflexkube.Base.Fault.{Error, errorf, wrapf, wrapf_arg, Result, success, failure}
use libflexkube.Base.Exec.{
  Exec, Action, Outcome, ok, err, panic, pure, fail, must, wrap, wrap_arg, gets, error_of_call, try,
  ◌>>=◌, ◌>>◌,
}
use libflexkube.Container.Types.{exists}
use libflexkube.Container.State.{StateMap, index, status_of, remove_container, create_and_start}
use libflexkube.Container.Containers.{
  Containers, on_memory, put_current, drop_current, updates_of, ensure_configured, ensure_exists,
  ensure_running, is_updatable, diff_host, diff_container,
}
use libflexkube.Memory.{Memory, HccObject, alloc_hcc}

-- `return fmt.Errorf(text, name, err)` where there is an error
unfoldable pub fail_with_arg : String → String → Option Error → Action Containers
fail_with_arg text name none = pure tt
fail_with_arg text name (some e) = fail (wrapf_arg text name e)

-- c.currentState.RemoveContainer(name)
unfoldable pub remove_current : String → Action Containers
remove_current name = do
  current ← gets (λ c. c.current_state)
  on_memory (remove_container current name)
  drop_current name

-- The second half of recreate.
unfoldable pub create_again : String → Action Containers
create_again name = do
  put_current name none
  desired ← gets (λ c. c.desired_state)
  e ← error_of_call (on_memory (create_and_start desired name))
  put_current name (index desired name)
  fail_with_arg "creating and starting new container" name e

-- containers.recreate
unfoldable pub recreate : String → Action Containers
recreate name = do
  wrap "removing old container to recreate it" (remove_current name)
  create_again name

-- containers.ensureHost
unfoldable pub ensure_host : String → Action Containers
ensure_host name = do
  diff ← wrap "checking host diff" (diff_host name)
  if diff == "" then pure tt else recreate name

-- containers.ensureContainer
unfoldable pub ensure_container : String → Action Containers
ensure_container name = do
  diff ← wrap "checking container diff" (diff_container name)
  if diff == "" then pure tt else recreate name

-- containers.hasUpdates
unfoldable pub has_updates : String → Exec Containers Bool
has_updates name = do
  host ← wrap "checking host diff" (diff_host name)
  c ← gets (λ c. c)
  target ← must (index c.desired_state name)
  files ← on_memory (updates_of target (index c.current_state name))
  container ← wrap "checking container diff" (diff_container name)
  pure (not (host == "") || (not (is_empty files) || not (container == "")))

unfoldable pub updates_if : String → Option Error → Exec Containers Bool
updates_if name none = has_updates name
updates_if name (some e) = pure false

-- `if err := c.isUpdatable(name); err == nil { … c.hasUpdates(name) … }`
unfoldable pub pending_updates : String → Exec Containers Bool
pending_updates name = do e ← error_of_call (is_updatable name); updates_if name e

-- The result of ensureCurrentContainer: the pointer and the error that it returns.
abbrev pub Ensured : Type 0
Ensured = Option ℕ × Option Error

-- What ensureCurrentContainer does once it knows whether there are updates.
unfoldable pub settle_current : String → ℕ → Bool → Result Bool → Exec Containers Ensured
settle_current name state there (failure e) =
    pure (some state, some (wrapf "checking if container has pending updates" e))
settle_current name state false (success updates) = do drop_current name; pure (none, none)
settle_current name state true (success updates) = do
  desired ← gets (λ c. c.desired_state)
  let ensure : Exec Containers Ensured = do
    e ← error_of_call (on_memory (ensure_running (some state)))
    pure (some state, e)
  if has desired name && not updates then ensure else pure (some state, none)

-- containers.ensureCurrentContainer, of the address of a copy of the object
unfoldable pub ensure_current_container : String → ℕ → Exec Containers Ensured
ensure_current_container name state = do
  s ← on_memory (status_of state)
  updates ← try (pending_updates name)
  settle_current name state (exists s) updates

-- `if d != nil { c.currentState[name] = d }` and the check of the error
unfoldable pub keep_ensured : String → Ensured → Action Containers
keep_ensured name (none, e) = fail_with_arg "handling existing container" name e
keep_ensured name (some p, e) = do
  put_current name (some p)
  fail_with_arg "handling existing container" name e

unfoldable pub check_object : String → Option ℕ → Action Containers
check_object name p = do
  h ← must p
  o ← gets (λ c. c.memory.hccs h)
  copy ← on_memory (alloc_hcc o)
  d ← ensure_current_container name copy
  keep_ensured name d

-- A key that is not there any more is not visited.
unfoldable pub check_entry : String → Option (Option ℕ) → Action Containers
check_entry name none = pure tt
check_entry name (some p) = check_object name p

-- One round of the first loop of Deploy. `range` does not visit a key that was deleted before.
unfoldable pub check_one : String → Action Containers
check_one name = do current ← gets (λ c. c.current_state); check_entry name (lookup current name)

unfoldable pub check_all : List String → Action Containers
check_all [] = pure tt
check_all (name ∷ names) = do check_one name; check_all names

unfoldable pub create_new : String → Action Containers
create_new name = do
  wrap_arg "configuring container" name (ensure_configured name)
  wrap_arg "creating new container" name (ensure_exists name)

-- containers.ensureNewContainer
unfoldable pub ensure_new_container : String → Action Containers
ensure_new_container name = do
  current ← gets (λ c. c.current_state)
  if has current name then pure tt else create_new name

-- The second loop of Deploy.
unfoldable pub create_all : List String → Action Containers
create_all [] = pure tt
create_all (name ∷ names) = do
  wrap_arg "creating new container" name (ensure_new_container name)
  create_all names

-- containers.ensureUpToDate
unfoldable pub ensure_up_to_date : String → Action Containers
ensure_up_to_date name = do
  wrap_arg "updating host configuration of container" name (ensure_host name)
  wrap_arg "updating configuration for container" name (ensure_configured name)
  wrap_arg "updating container" name (ensure_container name)

-- One round of the loop of updateExistingContainers; a key that was deleted before is not visited.
unfoldable pub update_one : String → Action Containers
update_one name = do
  c ← gets (λ c. c)
  if not (has c.current_state name)
      then pure tt
      else if has c.desired_state name
      then wrap_arg "ensuring, that container is up to date" name (ensure_up_to_date name)
      else wrap "removing old container" (remove_current name)

unfoldable pub update_all : List String → Action Containers
update_all [] = pure tt
update_all (name ∷ names) = do update_one name; update_all names

-- The three loops of Deploy, of the containers as they are at its start.
unfoldable pub deploy_from : Containers → Action Containers
deploy_from c = do
  check_all (keys c.current_state)
  create_all (keys c.desired_state)
  checked ← gets (λ c. c)
  update_all (keys checked.current_state)

unfoldable pub deploy_checked : Action Containers
deploy_checked = do c ← gets (λ c. c); deploy_from c

-- containers.Deploy
unfoldable pub deploy : Action Containers
deploy = do
  refreshed ← gets (λ c. c.refreshed)
  if refreshed
      then deploy_checked
      else fail (errorf "can't execute without knowing current state of the containers")
