-- ===== src/Container/Configured/ConfigFiles.antt =====
-- Reading and copying configuration files (pkg/container/hostconfiguredcontainer.go).
use libflexkube.Base.{ℕ, String, none, some, List, [], ◌∷◌, if◌then◌else◌, is_empty}
use libflexkube.Base.Map.{Map, lookup, insert, keys}
use libflexkube.Base.Fault.{Result, success, failure, errorf_arg}
use libflexkube.Base.Exec.{Action, pure, lift, wrap, gets, ◌>>=◌}
use libflexkube.Docker
use libflexkube.World.{Library}
use libflexkube.Container.Types.{ContainerConfig, File}
use libflexkube.Container.Forwarding.{config_mountpoint}
use libflexkube.Memory.{Memory, on_world, set_hcc}
use libflexkube.Container.Configured.Access.{config_of, config_container_of}

abbrev pub config_file_mode : ℕ
config_file_mode = 0o600

-- The paths in the helper container, and the original path of each.
read_paths : Library → List String → List (String × String)
read_paths lib [] = []
read_paths lib (p ∷ ps) = (lib.join_path config_mountpoint p, p) ∷ read_paths lib ps

-- paths[cpath], where a missing key is ""
original_path : Map String → String → String
original_path paths path = elim (lookup paths path) [ none ↦ "" | some p ↦ p ]

-- The loop that fills the new map.
collect_files : Map String → Map String → List File → Map String
unfolding original_path
collect_files paths files [] = files
collect_files paths files (f ∷ fs) =
    collect_files paths (insert files (original_path paths f.path) f.content) fs

-- The map of the original paths, filled in order.
map_of : Map String → List (String × String) → Map String
map_of m [] = m
map_of m ((k, v) ∷ rest) = map_of (insert m k v) rest

unfoldable pub update_configuration_status : ℕ → Action Memory
unfolding read_paths collect_files map_of
update_configuration_status h = do
  hcc ← gets (λ m. m.hccs h)
  lib ← gets (λ m. m.world.lib)
  let paths = read_paths lib (keys hcc.config_files)
  let refresh : Action Memory = do
    i ← config_container_of h
    files ←
        wrap "reading configuration status"
          (on_world (Docker.read i.runtime i.status.id (keys paths)))
    hcc' ← gets (λ m. m.hccs h)
    set_hcc h (record hcc' { config_files = collect_files (map_of [] paths) [] files })
  if is_empty hcc.config_files then pure tt else refresh

-- The loop of copyConfigFiles.
files_to_copy : Library → ContainerConfig → Map String → List String → Result (List File)
files_to_copy lib config config_files [] = success []
files_to_copy lib config config_files (p ∷ ps) =
    let rest = files_to_copy lib config config_files ps in
    elim (lookup config_files p) [
      | none ↦ failure (errorf_arg "can't configure file which do not exist" p)
      | some content ↦ elim rest [
        | failure e ↦ failure e
        | success files ↦ success (
            record {
              path = lib.join_path config_mountpoint p;
              content = content;
              mode = config_file_mode;
              user = config.user;
              group = config.group;
            }
            ∷ files)
      ]
    ]

unfoldable pub copy_config_files : ℕ → List String → Action Memory
unfolding files_to_copy config_of
copy_config_files h paths = do
  hcc ← gets (λ m. m.hccs h)
  lib ← gets (λ m. m.world.lib)
  config ← config_of h
  files ← lift (files_to_copy lib config hcc.config_files paths)
  i ← config_container_of h
  wrap "copying configuration files" (on_world (Docker.copy i.runtime i.status.id files))
