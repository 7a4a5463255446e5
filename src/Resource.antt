-- ===== src/Resource.antt =====
-- What etcd clusters, kubelet pools and load balancers have in common: instances that take over
-- common settings, are validated, and are converted to host configured containers, in Validate and
-- once more in New (Validate and New of pkg/etcd/cluster.go, pkg/kubelet/pool.go and
-- pkg/apiloadbalancer/api-loadbalancers.go, and pkg/container/resource/resource.go).
pub mod Total
pub mod Accepted
pub mod Rebuilt
pub mod Renewed
pub mod Named
use libflexkube.Base.{
  ℕ, suc, String, Option, none, some, List, [], ◌∷◌, ◌++◌, is_empty, if◌then◌else◌,
}
use libflexkube.Base.Map.{Map, insert}
use libflexkube.Base.Fault.{Error, wrapf, wrapf_arg, Result, success, failure, error_of}
use libflexkube.Base.Exec.{Exec, pure, abort, must, gets, try, ◌>>=◌}
use libflexkube.Util.{pos, return_errors}
use libflexkube.World.{Library}
use libflexkube.Docker
use libflexkube.Container.Configured.{HostConfiguredContainer}
use libflexkube.Container.State.{ContainersState, StateMap}
use libflexkube.Container.Exported.{ContainersConfig}
use libflexkube.Container.Exported
use libflexkube.Memory.{Memory, alloc_config}

-- How an instance of a name is filled with common settings, which panics where they have a nil
-- pointer; its New, which fails only by its validation; and the container that it is converted to,
-- with the address of its Docker configuration.
pub record Kind (A : Type 0) : Type 0 where
  pub propagate : String → A → Option A
  pub check : A → Option Error
  pub template : A → ℕ → HostConfiguredContainer

-- docker.DefaultConfig
unfoldable pub default_config : Exec Memory ℕ
default_config = do
  host ← gets (λ m. m.world.lib.default_docker_host)
  alloc_config (record { host = host })

-- The instances with the names of their containers, strconv.Itoa of their positions.
unfoldable pub numbered {ℓ} : {A : Type ℓ} → Library → ℕ → List A → Map A
numbered lib i [] = []
numbered lib i (a ∷ rest) = (lib.itoa (pos i), a) ∷ numbered lib (suc i) rest

module _ {A : Type 0} (k : Kind A) where
  -- ToHostConfiguredContainer
  unfoldable pub convert : A → Exec Memory HostConfiguredContainer
  convert a = do docker ← default_config; pure (k.template a docker)

  -- The loop of Validate, with the errors and the desired state so far. An instance that is not
  -- valid is left out.
  unfoldable pub check_all :
      String
      → List Error
      → ContainersState
      → List (String × A)
      → Exec Memory (List Error × ContainersState)
  check_all text errors desired [] = pure (errors, desired)
  check_all text errors desired ((name, item) ∷ items) = do
    a ← must (k.propagate name item)
    elim (k.check a) [
      | some e ↦ check_all text (errors ++ wrapf_arg text name e ∷ []) desired items
      | none ↦ do h ← convert a; check_all text errors (insert desired name (some h)) items
    ]

  -- Validate, with the errors found before its loop and those on missing instances, which keep the
  -- error of the containers out.
  unfoldable pub validate_all :
      String
      → String
      → List Error
      → List Error
      → ContainersState
      → List (String × A)
      → Exec Memory (Option Error)
  validate_all text containers_text first missing previous items = do
    found ← check_all text first [] items
    r ← try (Exported.new (record { previous_state = previous; desired_state = found.1 }))
    pure (
        return_errors (
          found.0
          ++ (missing ++ (if is_empty missing then error_of (wrapf containers_text) r else []))))

  -- The loop of New, which drops the errors: an instance that is not valid is nil and panics. The
  -- filled instances are returned too, which an etcd cluster keeps as its members.
  unfoldable pub build_all :
      Map A → ContainersState → List (String × A) → Exec Memory (Map A × ContainersState)
  build_all filled desired [] = pure (filled, desired)
  build_all filled desired ((name, item) ∷ items) = do
    a ← must (k.propagate name item)
    elim (k.check a) [
      | some e ↦ abort
      | none ↦ do
        h ← convert a
        build_all (insert filled name a) (insert desired name (some h)) items
    ]

  -- New after its validation: the instances, and the containers, which are nil where they cannot be
  -- built.
  unfoldable pub new_all :
      ContainersState → List (String × A) → Exec Memory (Map A × Option (StateMap × StateMap))
  new_all previous items = do
    made ← build_all [] [] items
    r ← try (Exported.new (record { previous_state = previous; desired_state = made.1 }))
    elim r [ success states ↦ pure (made.0, some states) | failure e ↦ pure (made.0, none) ]
