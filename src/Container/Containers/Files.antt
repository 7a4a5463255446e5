-- ===== src/Container/Containers/Files.antt =====
-- What the current state holds after ensureConfigured (pkg/container/containers.go).
use libflexkube.Base.{
  ℕ, String, Bool, true, Option, none, some, List, ◌≡◌, refl, arith, ap, ◌∙◌, eq_refl, is_some,
  ◌&&◌,
}
use libflexkube.Base.Map.{Map, insert, lookup-insert}
use libflexkube.Base.Fault.{Error}
use libflexkube.Base.Exec.{Exec, ok, ◌>>=◌}
use libflexkube.Base.Exec.Keeps.{Keeps, Keeps-error_of_call, keeps_rules}
use libflexkube.Base.Exec.Ensures.{
  Ensures, Ensures-bind, Ensures-bind-gets, Ensures-of_Keeps, Ensures-consequence, Ensures-if,
  Ensures-fail, ok-injective,
}
use libflexkube.Container.State.{index, StateMap}
use libflexkube.Container.Containers.Kept.{FilesAre, configure-FilesAre}
use libflexkube.Container.Containers.{object_at, updates_of, files_to_update, Containers}
use libflexkube.Container.Containers.{
  Containers, on_memory, files_to_update, put_current, adopt, copy_files, fail_with,
  finish_configured, configure_object, configure_at, ensure_configured, same_list,
}
use libflexkube.Memory.{Memory, HccObject, set_hcc}

-- Where the current state points to, and the files of the target.
abbrev At : ℕ → Map String → String → Option ℕ → Containers → Type 0
At target files name p s = (index s.current_state name ≡ p) × FilesAre target files s.memory

abbrev TargetHas : ℕ → Map String → Containers → Type 0
TargetHas target files s = FilesAre target files s.memory

-- The current state points at an object with these files.
abbrev pub HasFiles : String → Map String → Containers → Type 0
HasFiles name files s = (p : ℕ) × (index s.current_state name ≡ some p) × FilesAre p files s.memory

index-insert : (s : StateMap) (name : String) (p : Option ℕ) → index (insert s name p) name ≡ p
index-insert s name p = ground (arith, lookup-insert s name name p, eq_refl name)

fail_with-Keeps :
    (P : Containers → Type 0) (text : String) (e : Option Error) → Keeps P (fail_with text e)
unfolding fail_with
fail_with-Keeps P text none = search keeps_rules
fail_with-Keeps P text (some e) = search keeps_rules

files_to_update-Keeps :
    (P : Memory → Type 0) (t : HccObject) (s : Option HccObject) → Keeps P (files_to_update t s)
unfolding files_to_update
files_to_update-Keeps P t none = search keeps_rules
files_to_update-Keeps P t (some s) = search keeps_rules

updates_of-Keeps :
    (P : Memory → Type 0) (target : ℕ) (state : Option ℕ) → Keeps P (updates_of target state)
unfolding updates_of object_at
updates_of-Keeps P target none = search (keeps_rules, files_to_update-Keeps) depth 20
updates_of-Keeps P target (some p) = search (keeps_rules, files_to_update-Keeps) depth 20

module _ (name : String) (target : ℕ) (files : Map String) where
  on_memory-At {ℓ} :
      {A : Type ℓ} (p : Option ℕ) (m : Exec Memory A)
      → Keeps (FilesAre target files) m
      → Keeps (At target files name p) (on_memory m)
  unfolding on_memory
  on_memory-At p m k = record { at = λ s h. (h.0, k.at s.memory h.1) }

  adopt-At :
      (state : Option ℕ)
      → Ensures
          (At target files name state)
          (adopt name target state)
          (λ p s. At target files name (some p) s)
  unfolding adopt put_current ◌>>=◌
  adopt-At none = record {
    at = λ s h a e.
        (index-insert s.current_state name (some target) ∙ ap some (ok-injective target a e), h.1);
  }
  adopt-At (some p) = record { at = λ s h a e. (h.0 ∙ ap some (ok-injective p a e), h.1) }

  copy_files-HasFiles :
      (p : ℕ)
      → Ensures
          (At target files name (some p))
          (on_memory (copy_files target p))
          (λ _ s. HasFiles name files s)
  unfolding on_memory copy_files set_hcc ◌>>=◌
  copy_files-HasFiles p = record { at = λ s h a e. (p, h.0, ground (arith, h.1)) }

  fails :
      (state : Option ℕ) (e : Option Error)
      → is_some e ≡ true
      → Ensures
          (At target files name state)
          (fail_with "no files has been updated" e)
          (λ _ s. HasFiles name files s)
  unfolding fail_with
  fails state none h = cc
  fails state (some e) h = Ensures-fail _

  finish_configured-HasFiles :
      (state : Option ℕ) (paths : List String) (e : Option Error)
      → Ensures
          (At target files name state)
          (finish_configured name target state paths e)
          (λ _ s. HasFiles name files s)
  unfolding finish_configured
  finish_configured-HasFiles state paths e =
      Ensures-bind _ _
        (Ensures-of_Keeps _
          (on_memory-At state _ (updates_of-Keeps (FilesAre target files) target state)))
        λ again.
          Ensures-if (is_some e && same_list paths again) _ _
            (λ t. fails state e (and_left (is_some e) (same_list paths again) t))
            (λ _. Ensures-bind _ _ (adopt-At state) λ p.
              Ensures-bind _ _ (copy_files-HasFiles p) λ _.
                Ensures-of_Keeps _
                  (fail_with-Keeps (HasFiles name files) "updating configuration" e))
    where
      and_left : (a b : Bool) → (a && b) ≡ true → a ≡ true
      and_left a b h = ground arith

  configure_object-HasFiles :
      Ensures (TargetHas target files) (configure_object name target) (λ _ s. HasFiles name files s)
  unfolding configure_object
  configure_object-HasFiles = Ensures-bind-gets _ _ λ current.
      Ensures-consequence _ (λ s h. (ap (λ m. index m name) h.1, h.0)) (λ a s h. h)
        (Ensures-bind _ _
          (Ensures-of_Keeps _ (
            on_memory-At (index current name) _
              (updates_of-Keeps (FilesAre target files) target (index current name))))
          λ paths.
            Ensures-bind _ _
              (Ensures-of_Keeps _ (
                Keeps-error_of_call _ (
                  on_memory-At (index current name) _
                    (configure-FilesAre target files target paths))))
              λ e. finish_configured-HasFiles (index current name) paths e)

  configure_at-HasFiles :
      (p : Option ℕ)
      → p ≡ some target
      → Ensures (TargetHas target files) (configure_at name p) (λ _ s. HasFiles name files s)
  unfolding configure_at
  configure_at-HasFiles p e = rw e configure_object-HasFiles

-- A successful ensureConfigured of a desired container leaves the current state with an object that
-- has the files which the desired one had before.
pub ensure_configured-files :
    (c : Containers) (name : String) (target : ℕ)
    → index c.desired_state name ≡ some target
    → (ensure_configured name c).0 ≡ ok tt
    → HasFiles name (c.memory.hccs target).config_files (ensure_configured name c).1
unfolding ensure_configured ◌>>=◌
ensure_configured-files c name target h q =
    (configure_at-HasFiles name target (c.memory.hccs target).config_files
        (index c.desired_state name) h).at
      c refl tt q
