-- ===== src/Container/Configured/Directories.antt =====
-- Directories of mounts that do not exist yet (pkg/container/hostconfiguredcontainer.go).
use Prim.Native.String.{len, slice}
use libflexkube.Base.{
  ℕ, ◌-◌, ◌/◌, ◌%◌, ◌^◌, nat_eq, String, Bool, Option, none, some, List, [], ◌∷◌, ◌==◌,
  if◌then◌else◌, is_empty, append, map,
}
use libflexkube.Base.Map.{Map, lookup}
use libflexkube.Base.Fault.{Result, success, failure, errorf_arg}
use libflexkube.Base.Exec.{Exec, Action, pure, lift, must, wrap, gets, ◌>>=◌}
use libflexkube.Docker
use libflexkube.World.{Library}
use libflexkube.Container.Types.{Mount, File}
use libflexkube.Container.Forwarding.{config_mountpoint}
use libflexkube.Memory.{Memory, on_world}
use libflexkube.Container.Configured.Access.{config_of, config_container_of}

abbrev pub mountpoint_dir_mode : ℕ
mountpoint_dir_mode = 0o700

-- m.Source[len(m.Source)-1:] == "/", which panics on an empty source
ends_with_slash : String → Option Bool
ends_with_slash s = if s == "" then none else some (slice s (len s - 1) (len s) == "/")

-- dirMounts; `none` is the panic.
unfoldable pub dir_mounts : List Mount → Option (List Mount)
unfolding ends_with_slash
dir_mounts [] = some []
dir_mounts (m ∷ ms) =
    let rest = dir_mounts ms in
    elim (ends_with_slash m.source) [
      | none ↦ none
      | some dir ↦ elim rest [
        | none ↦ none
        | some mounts ↦ some (if dir then m ∷ mounts else mounts)
      ]
    ]

dir_mounts_of : ℕ → Exec Memory (List Mount)
unfolding config_of
dir_mounts_of h = do config ← config_of h; must (dir_mounts config.mounts)

unfoldable pub mount_path : Library → Mount → String
mount_path lib m = lib.join_path config_mountpoint m.source

unfoldable pub stat_mounts : ℕ → Exec Memory (Map ℕ)
unfolding dir_mounts_of mount_path
stat_mounts h = do
  mounts ← dir_mounts_of h
  lib ← gets (λ m. m.world.lib)
  let stat : Exec Memory (Map ℕ) = do
    i ← config_container_of h
    on_world (Docker.stat i.runtime i.status.id (map (mount_path lib) mounts))
  if is_empty mounts then pure [] else stat

-- os.FileMode.IsDir: the bit os.ModeDir, 1 << 31
unfoldable pub is_dir : ℕ → Bool
is_dir mode = nat_eq (mode / 2 ^ 31 % 2) 1

-- The loop of createMissingMounts: the directories that are missing.
unfoldable pub missing_mounts : Library → Map ℕ → List Mount → Result (List File)
unfolding mount_path is_dir
missing_mounts lib stats [] = success []
missing_mounts lib stats (m ∷ ms) =
    let rest = missing_mounts lib stats ms in
    elim (lookup stats (mount_path lib m)) [
      | some mode ↦
          if is_dir mode then rest else failure (errorf_arg "mountpoint exists as file" m.source)
      | none ↦ elim rest [
        | failure e ↦ failure e
        | success files ↦ success (
            record {
              path = append (mount_path lib m) "/";
              content = "";
              mode = mountpoint_dir_mode;
              user = "";
              group = "";
            }
            ∷ files)
      ]
    ]

unfoldable pub create_missing_mounts : ℕ → Action Memory
unfolding missing_mounts dir_mounts_of
create_missing_mounts h = do
  stats ← wrap "checking if mountpoints exist" (stat_mounts h)
  mounts ← dir_mounts_of h
  lib ← gets (λ m. m.world.lib)
  files ← lift (missing_mounts lib stats mounts)
  let copy : Action Memory = do
    i ← config_container_of h
    on_world (Docker.copy i.runtime i.status.id files)
  if is_empty files then pure tt else copy
