-- ===== src/Container/Containers/Kept.antt =====
-- Configure leaves the configuration files of every object alone (pkg/container/hostconfiguredcontainer.go).
use libflexkube.Base.{ℕ, String, Option, none, some, List, [], ◌∷◌, ◌≡◌, arith}
use libflexkube.Base.Map.{Map}
use libflexkube.Base.Exec.{Exec, Action, ◌>>=◌, gets}
use libflexkube.Base.Exec.Keeps.{Keeps, keeps_rules}
use libflexkube.World.{World, Client}
use libflexkube.Container.Single.{set_runtime}
use libflexkube.Container.Forwarding.{
  connect_and_forward, set_address, restore_and_run, forward_and_run, run_forwarded,
  with_forwarded_runtime, create_configuration_container, remove_configuration_container,
  with_configuration_container,
}
use libflexkube.Container.Configured.{
  configure, copy_config_files, container_of, config_container_of,
}
use libflexkube.Memory.{Memory, ContainerInstance, on_world, set_container, set_config, set_hcc}

-- The files of an object.
abbrev pub FilesAre : ℕ → Map String → Memory → Type 0
FilesAre t files m = (m.hccs t).config_files ≡ files

module _ (t : ℕ) (files : Map String) where
  on_world-FilesAre {ℓ} : {A : Type ℓ} (m : Exec World A) → Keeps (FilesAre t files) (on_world m)
  unfolding on_world
  on_world-FilesAre m = record { at = λ s h. h }

  set_address-FilesAre :
      (rc : ℕ) (address : String) → Keeps (FilesAre t files) (set_address rc address)
  unfolding set_address set_config ◌>>=◌
  set_address-FilesAre rc address = record { at = λ s h. h }

  set_runtime-FilesAre : (c : ℕ) (r : Client) → Keeps (FilesAre t files) (set_runtime c r)
  unfolding set_runtime set_container ◌>>=◌
  set_runtime-FilesAre c r = record { at = λ s h. h }

  keep_helper :
      (h : ℕ) (i : ContainerInstance)
      → Keeps
          (FilesAre t files)
          (gets (λ m. m.hccs h) >>= λ o. set_hcc h (record o { config_container = some i }))
  unfolding set_hcc ◌>>=◌
  keep_helper h i = record { at = λ s e. ground arith }

  ruleset files_rules =
      (keeps_rules, on_world-FilesAre, set_address-FilesAre, set_runtime-FilesAre, keep_helper)

  connect_and_forward-FilesAre :
      (h : ℕ) (address : String) → Keeps (FilesAre t files) (connect_and_forward h address)
  unfolding connect_and_forward
  connect_and_forward-FilesAre h address = search files_rules depth 20

  create_helper-FilesAre : (h : ℕ) → Keeps (FilesAre t files) (create_configuration_container h)
  unfolding create_configuration_container
  create_helper-FilesAre h = search files_rules depth 20

  remove_helper-FilesAre : (h : ℕ) → Keeps (FilesAre t files) (remove_configuration_container h)
  unfolding remove_configuration_container
  remove_helper-FilesAre h = search files_rules depth 20

  restore-FilesAre :
      (rc c : ℕ) (address : String) (action : Action Memory)
      → Keeps (FilesAre t files) action
      → Keeps (FilesAre t files) (restore_and_run rc c address action)
  unfolding restore_and_run
  restore-FilesAre rc c address action k = search files_rules depth 20

  forward-FilesAre :
      (h c rc : ℕ) (action : Action Memory)
      → Keeps (FilesAre t files) action
      → Keeps (FilesAre t files) (forward_and_run h c rc action)
  unfolding forward_and_run
  forward-FilesAre h c rc action k =
      search (files_rules, connect_and_forward-FilesAre, restore-FilesAre) depth 20

  run_forwarded-FilesAre :
      (h : ℕ) (p : Option ℕ) (action : Action Memory)
      → Keeps (FilesAre t files) action
      → Keeps (FilesAre t files) (run_forwarded h p action)
  unfolding run_forwarded
  run_forwarded-FilesAre h none action k = search files_rules
  run_forwarded-FilesAre h (some c) action k = search (files_rules, forward-FilesAre) depth 20

  forwarded-FilesAre :
      (h : ℕ) (action : Action Memory)
      → Keeps (FilesAre t files) action
      → Keeps (FilesAre t files) (with_forwarded_runtime h action)
  unfolding with_forwarded_runtime
  forwarded-FilesAre h action k = search (files_rules, run_forwarded-FilesAre) depth 20

  with_helper-FilesAre :
      (h : ℕ) (action : Action Memory)
      → Keeps (FilesAre t files) action
      → Keeps (FilesAre t files) (with_configuration_container h action)
  unfolding with_configuration_container
  with_helper-FilesAre h action k =
      search (files_rules, create_helper-FilesAre, remove_helper-FilesAre) depth 20

  copy_config_files-FilesAre :
      (h : ℕ) (paths : List String) → Keeps (FilesAre t files) (copy_config_files h paths)
  unfolding copy_config_files container_of config_container_of
  copy_config_files-FilesAre h paths = search files_rules depth 20

  pub configure-FilesAre :
      (h : ℕ) (paths : List String) → Keeps (FilesAre t files) (configure h paths)
  unfolding configure
  configure-FilesAre h [] = search files_rules
  configure-FilesAre h (p ∷ ps) =
      forwarded-FilesAre h _ (with_helper-FilesAre h _ (copy_config_files-FilesAre h (p ∷ ps)))
