-- ===== src/Memory.antt =====
-- The objects that the program shares by pointers: Docker configurations, containers and host
-- configured containers, by their addresses. Every address holds an object, as in Go, where a pointer
-- is nil or valid; nil is `none` where a pointer may be nil.
use libflexkube.Base.{ℕ, suc, String, Option, ite, ℕ_discrete}
use libflexkube.Base.Map.{Map}
use libflexkube.Base.Exec.{Exec, Action, ok, zoom}
use libflexkube.World.{World, Client}
use libflexkube.Host.Config.{Host}
use libflexkube.Docker
use libflexkube.Container.Types.{ContainerConfig, ContainerStatus}

-- container.containerInstance
pub record ContainerInstance : Type 0 where
  pub config : ContainerConfig
  pub runtime : Client
  pub status : ContainerStatus

-- container.container; `runtime_config` is the address of the Docker configuration.
pub record ContainerObject : Type 0 where
  pub config : ContainerConfig
  pub runtime : Client
  pub runtime_config : ℕ
  pub status : ContainerStatus

-- container.hostConfiguredContainer; `post_start` is the hook in its `hooks`.
pub record HccObject : Type 0 where
  pub container : Option ℕ
  pub host : Host
  pub config_files : Map String
  pub config_container : Option ContainerInstance
  pub post_start : Option ℕ

pub record Memory : Type 0 where
  pub world : World
  pub configs : ℕ → Docker.Config
  pub containers : ℕ → ContainerObject
  pub hccs : ℕ → HccObject
  -- The next address that is not in use.
  pub next : ℕ

abbrev pub update {ℓ} : {A : Type ℓ} → (ℕ → A) → ℕ → A → ℕ → A
update f p v q = ite (ℕ_discrete p q) v (f q)

-- A call that reaches the outside.
unfoldable pub on_world {ℓ} : {A : Type ℓ} → Exec World A → Exec Memory A
unfolding zoom
on_world m = zoom (λ s. s.world) (λ s w. record s { world = w }) m

unfoldable pub set_container : ℕ → ContainerObject → Action Memory
set_container c o m = (ok tt, record m { containers = update m.containers c o })

unfoldable pub set_hcc : ℕ → HccObject → Action Memory
set_hcc h o m = (ok tt, record m { hccs = update m.hccs h o })

unfoldable pub set_config : ℕ → Docker.Config → Action Memory
set_config rc c m = (ok tt, record m { configs = update m.configs rc c })

unfoldable pub alloc_container : ContainerObject → Exec Memory ℕ
alloc_container o m =
    (ok m.next, record m { containers = update m.containers m.next o; next = suc m.next })

unfoldable pub alloc_hcc : HccObject → Exec Memory ℕ
alloc_hcc o m = (ok m.next, record m { hccs = update m.hccs m.next o; next = suc m.next })

unfoldable pub alloc_config : Docker.Config → Exec Memory ℕ
alloc_config c m = (ok m.next, record m { configs = update m.configs m.next c; next = suc m.next })
