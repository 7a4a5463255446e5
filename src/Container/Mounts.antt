-- ===== src/Container/Mounts.antt =====
-- Which directories are made before a container is created (createMissingMounts of
-- pkg/container/hostconfiguredcontainer.go).
use libflexkube.Base.{
  ℕ, true, Option, none, some, List, [], ◌∷◌, ◌≡◌, refl, arith, sym, append, All, ◌⊎◌, inl, inr,
  Bool-cases,
}
use mathlib.Core.Path.{subst}
use libflexkube.Base.Fault.{Result, success, failure}
use libflexkube.Base.Map.{Map, lookup}
use libflexkube.World.{Library}
use libflexkube.Container.Types.{Mount, File}
use libflexkube.Container.Configured.{missing_mounts, mount_path, is_dir, mountpoint_dir_mode}

-- Whether a file makes the directory of a mount.
abbrev pub Makes : Library → Mount → File → Type 0
Makes lib m f =
    (f.path ≡ append (mount_path lib m) "/") × (f.mode ≡ mountpoint_dir_mode) × (f.content ≡ "")

abbrev pub Any : (File → Type 0) → List File → Type 0
Any P [] = ⊥
Any P (f ∷ fs) = P f ⊎ Any P fs

-- A mount is a directory on the host, or its directory is among the files to copy.
abbrev pub Covered : Library → Map ℕ → List File → Mount → Type 0
Covered lib stats files m =
    ((mode : ℕ) × (lookup stats (mount_path lib m) ≡ some mode) × (is_dir mode ≡ true))
    ⊎ Any (Makes lib m) files

All-imp {ℓ} :
    {A : Type ℓ} {P Q : A → Type 0} → ((a : A) → P a → Q a) → (xs : List A) → All P xs → All Q xs
All-imp f [] h = tt
All-imp f (x ∷ xs) h = (f x h.0, All-imp f xs h.1)

Covered-cons :
    (lib : Library) (stats : Map ℕ) (f : File) (fs : List File) (m : Mount)
    → Covered lib stats fs m
    → Covered lib stats (f ∷ fs) m
Covered-cons lib stats f fs m (inl dir) = inl dir
Covered-cons lib stats f fs m (inr made) = inr (inr made)

-- The files of a result, where there are some.
abbrev files_or : Result (List File) → List File
files_or (success fs) = fs
files_or (failure e) = []

missing_step :
    (lib : Library) (stats : Map ℕ) (m : Mount) (ms : List Mount) (files : List File)
    (found : Option ℕ) (rest : Result (List File))
    → lookup stats (mount_path lib m) ≡ found
    → missing_mounts lib stats ms ≡ rest
    → ((fs : List File) → missing_mounts lib stats ms ≡ success fs → All (Covered lib stats fs) ms)
    → missing_mounts lib stats (m ∷ ms) ≡ success files
    → All (Covered lib stats files) (m ∷ ms)
unfolding missing_mounts
missing_step lib stats m ms files (some mode) rest p q ih h = elim (Bool-cases (is_dir mode)) [
  | inl dir ↦ (inl (mode, p, dir), ih files (ground arith))
  | inr file ↦ absurd (ground arith)
]
missing_step lib stats m ms files none (failure e) p q ih h = absurd (ground arith)
missing_step lib stats m ms files none (success fs) p q ih h =
    let made : File = record {
      path = append (mount_path lib m) "/";
      content = "";
      mode = mountpoint_dir_mode;
      user = "";
      group = "";
    } in
    let written : success files ≡ success (made ∷ fs) = ground arith in
    subst (λ r. All (Covered lib stats (files_or r)) (m ∷ ms)) (sym written)
      (inr (inl (refl, refl, refl)), All-imp (Covered-cons lib stats made fs) ms (ih fs q))

-- Where createMissingMounts finds no error, every mount that it was given is covered: its source is
-- a directory on the host, or a directory of that path and of mode 0700 is among the files that are
-- copied.
pub missing_mounts-Covered :
    (lib : Library) (stats : Map ℕ) (ms : List Mount) (files : List File)
    → missing_mounts lib stats ms ≡ success files
    → All (Covered lib stats files) ms
missing_mounts-Covered lib stats [] files h = tt
missing_mounts-Covered lib stats (m ∷ ms) files h =
    missing_step lib stats m ms files (lookup stats (mount_path lib m))
      (missing_mounts lib stats ms) refl refl (missing_mounts-Covered lib stats ms) h
