-- ===== src/Controlplane/Deployment/Destroyed.antt =====
-- A controlplane that is to be destroyed (pkg/controlplane/controlplane.go).
pub mod Previous
pub mod Validated
use libflexkube.Base.{
  Bool, true, false, Option, none, some, Option-cases, inl, inr, List, [], ◌++◌, ◌≡◌, refl, sym, ap,
  ◌∙◌, arith, is_empty, ◌⊎◌, if◌then◌else◌,
}
use libflexkube.Base.Fault.{Error, errorf, wrapf, Result, success, failure, error_if, error_of}
use libflexkube.Base.Exec.{
  Exec, Outcome, ok, err, pure, fail, abort, panic, hang, try, settled, continue, wrap, zoom, ◌>>=◌,
}
use libflexkube.Base.Exec.Ensures.{ok-injective}
use libflexkube.Base.Exec.Success.{bind_ok, try_ok, wrap_ok, failed_ok}
use libflexkube.World.{Library}
use libflexkube.Util.{return_errors}
use libflexkube.Container.State.{ContainersState, StateMap, new_state_from, new_state}
use libflexkube.Container.Exported
use libflexkube.Container.Exported.{ContainersConfig}
use libflexkube.Memory.{Memory}
use libflexkube.Controlplane.{Controlplane, ControlplaneLibrary}
use libflexkube.Controlplane.Build.{build_kube_api_server, build_components}
use libflexkube.Controlplane.Deployment.{
  Planned, Built, on_memory, fill_components, containers_with_state, validate_filled, validate,
  new_validated, new_components, new,
}
use libflexkube.Controlplane.Deployment.Destroyed.Previous.{with_state_ok}
use libflexkube.Controlplane.Deployment.Destroyed.Validated.{Checked, validate-Checked}

on_memory_ok :
    {A : Type 0} (x : Exec Memory A) (s : Planned) (a : A)
    → (on_memory x s).0 ≡ ok a
    → (x s.0).0 ≡ ok a
unfolding zoom
on_memory_ok x s a q = q

-- New after the validation of a controlplane that is to be destroyed.
new_validated_destroyed :
    (lib : ControlplaneLibrary) (c : Controlplane) (s : Planned) (b : Built)
    → c.destroy ≡ true
    → is_empty c.state ≡ false
    → (new_validated lib c s).0 ≡ ok b
    → (b ≡ none) ⊎ ((previous : StateMap) × (b ≡ some (previous, [])))
unfolding new_validated ◌>>=◌
new_validated_destroyed lib c s b gone full q =
    let (r, got, q1) = bind_ok _ b (try (on_memory (containers_with_state c))) s q in
    finished c.destroy gone r (try (on_memory (containers_with_state c)) s).1 (memory_ok r got) q1
  where
    memory_ok :
        (r : Result Built)
        → (try (on_memory (containers_with_state c)) s).0 ≡ ok r
        → (b : Built) → r ≡ success b
        → (containers_with_state c s.0).0 ≡ ok b
    memory_ok r got b q =
        on_memory_ok (containers_with_state c) s b
          (try_ok (on_memory (containers_with_state c)) s r got b q)

    finished :
        (destroy : Bool)
        → destroy ≡ true
        → (r : Result Built) (t : Planned)
        → ((b : Built) → r ≡ success b → (containers_with_state c s.0).0 ≡ ok b)
        → ((elim r as (λ r. Exec Planned Built) [
          | failure e ↦ if destroy then pure none else abort
          | success previous ↦ if destroy then pure previous else new_components lib
        ])
            t).0
          ≡ ok b
        → (b ≡ none) ⊎ ((previous : StateMap) × (b ≡ some (previous, [])))
    finished true gone (failure e) t right q = inl (sym (ok-injective none b q))
    finished true gone (success made) t right q =
        inr (with_state_ok c s.0 b full (right made refl ∙ q))
    finished false gone r t right q = cc

-- Where a controlplane is to be destroyed and New returns no error, its state was not empty, and
-- New returns nil or a controlplane whose containers have no desired state, whatever its components
-- ask for.
pub new_destroyed :
    (lib : ControlplaneLibrary) (c : Controlplane) (m : Memory) (b : Built)
    → c.destroy ≡ true
    → (new lib (m, c)).0 ≡ ok b
    → (is_empty c.state ≡ false)
      × ((b ≡ none) ⊎ ((previous : StateMap) × (b ≡ some (previous, []))))
unfolding new ◌>>=◌
new_destroyed lib c m b destroyed q =
    let (e, got, q1) = bind_ok _ b (validate lib) (m, c) q in
    finished e (validate lib (m, c)).1 (validate-Checked lib c m e destroyed got) q1
  where
    finished :
        (e : Option Error) (s : Planned)
        → Checked c e s.1
        → ((elim e as (λ e. Exec Planned Built) [
          | some e ↦ fail (wrapf "validating controlplane configuration" e)
          | none ↦ new_validated lib s.1
        ])
            s).0
          ≡ ok b
        → (is_empty c.state ≡ false)
          × ((b ≡ none) ⊎ ((previous : StateMap) × (b ≡ some (previous, []))))
    finished (some e) s checked q = absurd (failed_ok _ s b q)
    finished none s checked q =
        let full = checked.full refl in
        (
          full,
          new_validated_destroyed lib s.1 s b checked.destroy
              (ap (λ (s : ContainersState). is_empty s) checked.state ∙ full) q,
        )
