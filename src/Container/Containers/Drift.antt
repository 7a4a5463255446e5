-- ===== src/Container/Containers/Drift.antt =====
-- Which files are updated (filesToUpdate of pkg/container/containers.go).
use libflexkube.Base.{
  String, Bool, true, false, not, Option, none, some, List, [], ◌∷◌, ◌==◌, ◌≡◌, refl, arith, eq_iff,
  is_some, ◌↔◌, ◌&&◌, ◌≢◌,
}
use libflexkube.Base.Map.{Map, lookup, has, keys, contains, has-keys}
use libflexkube.Base.Exec.{ok, ◌>>=◌}
use libflexkube.Container.Containers.{files_to_update}
use libflexkube.Container.Containers.{files_to_update, drifted, drifted_files}
use libflexkube.Memory.{Memory, HccObject}

-- A desired file whose content is not that of the current state.
abbrev pub Differs : Map String → Map String → String → Type 0
Differs desired current path =
    (has desired path ≡ true) × (lookup current path ≢ lookup desired path)

unfoldable pub unequal : Option String → Option String → Bool
unequal none c = false
unequal (some d) none = true
unequal (some d) (some c) = not (d == c)

unfoldable pub differs : Map String → Map String → String → Bool
differs desired current path = unequal (lookup desired path) (lookup current path)

unequal_sound : (d c : Option String) → unequal d c ≡ true → (is_some d ≡ true) × (c ≢ d)
unfolding unequal
unequal_sound none c h = cc
unequal_sound (some d) none h = (refl, λ e. cc e)
unequal_sound (some d) (some c) h = (refl, λ e. ground (arith, eq_iff d c))

unequal_complete : (d c : Option String) → is_some d ≡ true → c ≢ d → unequal d c ≡ true
unfolding unequal
unequal_complete none c h n = cc
unequal_complete (some d) none h n = refl
unequal_complete (some d) (some c) h n = ground (arith, eq_iff d c)

differs_iff :
    (desired current : Map String) (path : String)
    → (differs desired current path ≡ true) ↔ Differs desired current path
unfolding differs
differs_iff desired current path = (
  λ h. unequal_sound (lookup desired path) (lookup current path) h,
  λ h. unequal_complete (lookup desired path) (lookup current path) h.0 h.1,
)

-- Over any order of the paths, the files to update are the visited ones that differ.
contains-drifted_files :
    (desired current : Map String) (paths : List String) (path : String)
    → contains (drifted_files desired current paths) path
      ≡ (contains paths path && differs desired current path)
unfolding drifted_files contains differs drifted unequal
contains-drifted_files desired current [] path = ground arith
contains-drifted_files desired current (p ∷ ps) path =
    ground (arith, contains-drifted_files desired current ps path, eq_iff p path)

-- filesToUpdate of an object and a current one, in any order that visits each path, succeeds
-- without a change, and a path is among the files exactly when it is desired and its current
-- content is not the desired one (missing, or another). The order in which a map is visited loses
-- no path.
pub files_to_update_iff :
    (target state : HccObject)
    → (m : Memory)
    → ((paths : List String) (path : String)
        → contains (m.world.range_order m.world.history paths) path ≡ contains paths path)
    → (path : String)
    → (files : List String) × (files_to_update target (some state) m ≡ (ok files, m))
      × ((contains files path ≡ true) ↔ Differs target.config_files state.config_files path)
unfolding files_to_update ◌>>=◌
files_to_update_iff target state m fair path = (
  drifted_files desired current visited,
  refl,
  (
    λ h. (differs_iff desired current path).0 (differ h),
    λ h. found h.0 ((differs_iff desired current path).1 h),
  ),
)
  where
    desired : Map String
    desired = target.config_files

    current : Map String
    current = state.config_files

    visited : List String
    visited = m.world.range_order m.world.history (keys desired)

    differ :
        contains (drifted_files desired current visited) path ≡ true
        → differs desired current path ≡ true
    differ h = ground (arith, contains-drifted_files desired current visited path)

    found :
        has desired path ≡ true
        → differs desired current path ≡ true
        → contains (drifted_files desired current visited) path ≡ true
    found h d = ground (
      arith,
      contains-drifted_files desired current visited path,
      fair (keys desired) path,
      has-keys desired path,
    )
