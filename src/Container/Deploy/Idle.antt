-- ===== src/Container/Deploy/Idle.antt =====
-- An update of a container that is as desired (ensureUpToDate of pkg/container/containers.go).
use libflexkube.Base.{ℕ, String, true, false, some, List, [], ◌∷◌, ◌≡◌, refl, arith, ◌∙◌, eq_refl}
use libflexkube.Base.Map.{Map, has, keys}
use libflexkube.Base.Exec.{ok, ◌>>=◌, zoom}
use libflexkube.Container.State.{StateMap, index}
use libflexkube.Container.Configured.{configure, container_of}
use libflexkube.Container.Containers.{
  Containers, on_memory, deref, drifted_files, files_to_update, object_at, updates_of, adopt,
  copy_files, fail_with, finish_configured, configure_object, configure_at, ensure_configured,
  is_updatable, diff_host, object_of, diff_container,
}
use libflexkube.Container.Containers.{drifted}
use libflexkube.Container.Containers.Drift.{differs, unequal}
use libflexkube.Container.Deploy.{ensure_host, ensure_container, ensure_up_to_date}
use libflexkube.Memory.{set_hcc}

has-index : (s : StateMap) (name : String) (p : ℕ) → index s name ≡ some p → has s name ≡ true
has-index s name p h = ground arith

-- The current and the desired object of a name, and their containers.
pub record Pair (c : Containers) (name : String) : Type 0 where
  pub current : ℕ
  pub desired : ℕ
  pub current_container : ℕ
  pub desired_container : ℕ
  pub is_current : index c.current_state name ≡ some current
  pub is_desired : index c.desired_state name ≡ some desired
  pub has_current : (c.memory.hccs current).container ≡ some current_container
  pub has_desired : (c.memory.hccs desired).container ≡ some desired_container

is_updatable-ok : (c : Containers) (name : String) → Pair c name → is_updatable name c ≡ (ok tt, c)
unfolding is_updatable ◌>>=◌
is_updatable-ok c name p = ground (
  arith,
  has-index c.current_state name p.current p.is_current,
  has-index c.desired_state name p.desired p.is_desired,
)

diff_host-ok :
    (c : Containers) (name : String) (p : Pair c name)
    → diff_host name c ≡ (
      ok (
          c.memory.world.lib.diff_host
            (c.memory.hccs p.current).host
            (c.memory.hccs p.desired).host),
      c,
    )
unfolding diff_host deref on_memory ◌>>=◌ zoom
diff_host-ok c name p = ground (arith, is_updatable-ok c name p, p.is_current, p.is_desired)

diff_container-ok :
    (c : Containers) (name : String) (p : Pair c name)
    → c.memory.world.lib.diff_config
        (c.memory.containers p.current_container).config
        (c.memory.containers p.desired_container).config
      ≡ ""
    → c.memory.world.lib.diff_runtime
        (c.memory.configs (c.memory.containers p.current_container).runtime_config).host
        (c.memory.configs (c.memory.containers p.desired_container).runtime_config).host
      ≡ ""
    → diff_container name c ≡ (ok "", c)
unfolding diff_container object_of container_of on_memory ◌>>=◌ zoom
diff_container-ok c name p dc dr =
    rw (is_updatable-ok c name p, p.is_current, p.is_desired, p.has_current, p.has_desired, dc, dr)
      refl

ensure_host-ok :
    (c : Containers) (name : String) (p : Pair c name)
    → c.memory.world.lib.diff_host (c.memory.hccs p.current).host (c.memory.hccs p.desired).host
      ≡ ""
    → ensure_host name c ≡ (ok tt, c)
unfolding ensure_host ◌>>=◌
ensure_host-ok c name p d = rw (diff_host-ok c name p, d) refl

ensure_container-ok :
    (c : Containers) (name : String)
    → diff_container name c ≡ (ok "", c)
    → ensure_container name c ≡ (ok tt, c)
unfolding ensure_container ◌>>=◌
ensure_container-ok c name d = ground (arith, eq_refl "")

drifted_files-none :
    (desired current : Map String) (paths : List String)
    → ((path : String) → differs desired current path ≡ false)
    → drifted_files desired current paths ≡ []
unfolding drifted_files differs unequal drifted
drifted_files-none desired current [] h = refl
drifted_files-none desired current (path ∷ paths) h =
    ground (arith, drifted_files-none desired current paths h, h path)

-- The containers after the current object has been given the files of the desired one.
synced : (c : Containers) (name : String) → Pair c name → Containers
synced c name p = record c { memory = (copy_files p.desired p.current c.memory).1 }

ensure_configured-ok :
    (c : Containers) (name : String) (p : Pair c name)
    → ((path : String)
        → differs (c.memory.hccs p.desired).config_files (c.memory.hccs p.current).config_files path
          ≡ false)
    → ensure_configured name c ≡ (ok tt, synced c name p)
unfolding synced ensure_configured configure_at configure_object configure finish_configured
    updates_of object_at files_to_update adopt fail_with on_memory copy_files set_hcc ◌>>=◌ zoom
ensure_configured-ok c name p h = rw (p.is_desired, p.is_current, nothing) refl
  where
    nothing :
        drifted_files
          (c.memory.hccs p.desired).config_files
          (c.memory.hccs p.current).config_files
          (c.memory.world.range_order c.memory.world.history
            (keys (c.memory.hccs p.desired).config_files))
        ≡ []
    nothing = drifted_files-none _ _ _ h

module _ (c : Containers) (name : String) (p : Pair c name) where
  container_synced :
      (q : ℕ) → ((synced c name p).memory.hccs q).container ≡ (c.memory.hccs q).container
  unfolding synced copy_files set_hcc ◌>>=◌
  container_synced q = ground arith

  pair_synced : Pair (synced c name p) name
  unfolding synced
  pair_synced = record {
    current = p.current;
    desired = p.desired;
    current_container = p.current_container;
    desired_container = p.desired_container;
    is_current = p.is_current;
    is_desired = p.is_desired;
    has_current = container_synced p.current ∙ p.has_current;
    has_desired = container_synced p.desired ∙ p.has_desired;
  }

  up_to_date :
      c.memory.world.lib.diff_host (c.memory.hccs p.current).host (c.memory.hccs p.desired).host
        ≡ ""
      → c.memory.world.lib.diff_config
          (c.memory.containers p.current_container).config
          (c.memory.containers p.desired_container).config
        ≡ ""
      → c.memory.world.lib.diff_runtime
          (c.memory.configs (c.memory.containers p.current_container).runtime_config).host
          (c.memory.configs (c.memory.containers p.desired_container).runtime_config).host
        ≡ ""
      → ((path : String)
          → differs
              (c.memory.hccs p.desired).config_files
              (c.memory.hccs p.current).config_files
              path
            ≡ false)
      → ensure_up_to_date name c ≡ (ok tt, synced c name p)
  unfolding ensure_up_to_date synced copy_files set_hcc ◌>>=◌ pair_synced
  up_to_date dh dc dr files =
      rw (ensure_host-ok c name p dh, ensure_configured-ok c name p files, settled) refl
    where
      settled : ensure_container name (synced c name p) ≡ (ok tt, synced c name p)
      settled =
          ensure_container-ok (synced c name p) name
            (diff_container-ok (synced c name p) name pair_synced dc dr)

  -- An update of a container whose host, configuration, runtime address and files are as desired
  -- succeeds and makes no call: the history of calls, the containers and the runtime configurations
  -- are what they were, and so is the current state.
  pub ensure_up_to_date_idle :
      c.memory.world.lib.diff_host (c.memory.hccs p.current).host (c.memory.hccs p.desired).host
        ≡ ""
      → c.memory.world.lib.diff_config
          (c.memory.containers p.current_container).config
          (c.memory.containers p.desired_container).config
        ≡ ""
      → c.memory.world.lib.diff_runtime
          (c.memory.configs (c.memory.containers p.current_container).runtime_config).host
          (c.memory.configs (c.memory.containers p.desired_container).runtime_config).host
        ≡ ""
      → ((path : String)
          → differs
              (c.memory.hccs p.desired).config_files
              (c.memory.hccs p.current).config_files
              path
            ≡ false)
      → ((ensure_up_to_date name c).0 ≡ ok tt)
        × ((ensure_up_to_date name c).1.memory.world ≡ c.memory.world)
        × ((ensure_up_to_date name c).1.memory.containers ≡ c.memory.containers)
        × ((ensure_up_to_date name c).1.memory.configs ≡ c.memory.configs)
        × ((ensure_up_to_date name c).1.current_state ≡ c.current_state)
  unfolding synced copy_files set_hcc ◌>>=◌
  ensure_up_to_date_idle dh dc dr files =
      rw (up_to_date dh dc dr files) (refl, refl, refl, refl, refl)
