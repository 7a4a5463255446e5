-- ===== src/Controlplane/Deployment/Destroyed/Validated.antt =====
-- Validate of a controlplane that is to be destroyed (pkg/controlplane/controlplane.go).
use libflexkube.Base.{
  Bool, true, false, Option, none, some, Option-cases, inl, inr, List, ◌++◌, ◌≡◌, refl, sym, ap,
  ◌∙◌, arith, is_empty,
}
use libflexkube.Base.Fault.{Error, errorf, wrapf, Result, error_if, error_of}
use libflexkube.Base.Exec.{
  Exec, Outcome, ok, err, pure, panic, hang, try, settled, continue, zoom, ◌>>=◌,
}
use libflexkube.Base.Exec.Ensures.{ok-injective}
use libflexkube.Base.Exec.Success.{bind_ok}
use libflexkube.World.{Library}
use libflexkube.Util.{return_errors}
use libflexkube.Container.State.{ContainersState}
use libflexkube.Memory.{Memory}
use libflexkube.Controlplane.{Controlplane, ControlplaneLibrary}
use libflexkube.Controlplane.Build.{build_kube_api_server, build_components}
use libflexkube.Controlplane.Deployment.{
  Planned, Built, on_memory, fill_components, containers_with_state, validate_filled, validate,
}

-- A computation on the memory leaves the receiver alone.
receiver_stays :
    {A B : Type 0} (x : Exec Memory A) (f : Result A → B) (s : Planned)
    → ((try (on_memory x) >>= λ r. pure (f r)) s).1.1 ≡ s.1
unfolding ◌>>=◌ zoom
receiver_stays {A} {B} x f s = go (x s.0).0
  where
    go :
        (r : Outcome A)
        → (continue {S = Planned}
            (settled {S = Planned} r ((x s.0).1, s.1)).0
            (λ r. pure (f r))
            (settled {S = Planned} r ((x s.0).1, s.1)).1).1.1
          ≡ s.1
    go (ok a) = refl
    go (err e) = refl
    go panic = refl
    go hang = refl

build_keeps :
    (lib : Library) (c d : Controlplane)
    → build_components lib c ≡ some d
    → (d.destroy ≡ c.destroy) × (d.state ≡ c.state)
unfolding build_components
build_keeps lib c d h = elim (Option-cases (build_kube_api_server c c.kube_api_server)) [
  | inl nil ↦ absurd (ground (arith, h, nil))
  | inr (a, q) ↦ ground (arith, h, q)
]

errors_full :
    (b : Bool) (x : Error) (es : List Error) → return_errors (error_if b x ++ es) ≡ none → b ≡ false
unfolding return_errors
errors_full true x es q = cc
errors_full false x es q = refl

-- What Validate does with a receiver that is to be destroyed.
destroy_errors : Controlplane → Result Built → Option Error
destroy_errors c r = return_errors (
    error_if (is_empty c.state) (errorf "can't destroy non-existent controlplane")
    ++ error_of (wrapf "malformed containers state") r)

validate_destroy :
    (lib : ControlplaneLibrary) (c : Controlplane)
    → c.destroy ≡ true
    → validate_filled lib c
      ≡ (try (on_memory (containers_with_state c)) >>= λ r. pure (destroy_errors c r))
unfolding validate_filled destroy_errors
validate_destroy lib c gone = rw gone refl

-- The receiver after a Validate that was asked to destroy, and what no error means.
pub record Checked (c : Controlplane) (e : Option Error) (d : Controlplane) : Type 0 where
  pub destroy : d.destroy ≡ true
  pub state : d.state ≡ c.state
  pub full : e ≡ none → is_empty c.state ≡ false

filled_full :
    (lib : ControlplaneLibrary) (c : Controlplane) (m : Memory)
    → c.destroy ≡ true
    → (validate_filled lib c (m, c)).0 ≡ ok none
    → is_empty c.state ≡ false
unfolding destroy_errors ◌>>=◌
filled_full lib c m gone q =
    let (r, _, q1) =
      bind_ok (λ r. pure (destroy_errors c r)) none (try (on_memory (containers_with_state c)))
        (m, c) (rw (validate_destroy lib c gone) at q) in
    errors_full (is_empty c.state) _ _ (ok-injective (destroy_errors c r) none q1)

filled_stays :
    (lib : ControlplaneLibrary) (c : Controlplane) (m : Memory)
    → c.destroy ≡ true
    → (validate_filled lib c (m, c)).1.1 ≡ c
filled_stays lib c m gone =
    rw (validate_destroy lib c gone)
      (receiver_stays (containers_with_state c) (destroy_errors c) (m, c))

-- Validate is validate_filled of what buildComponents leaves.
validate_built :
    (lib : ControlplaneLibrary) (c d : Controlplane) (m : Memory)
    → build_components lib.base c ≡ some d
    → validate lib (m, c) ≡ validate_filled lib d (m, d)
unfolding validate fill_components ◌>>=◌
validate_built lib c d m built = rw built refl

validate_panics :
    (lib : ControlplaneLibrary) (c : Controlplane) (m : Memory) (e : Option Error)
    → build_components lib.base c ≡ none
    → (validate lib (m, c)).0 ≡ ok e
    → ⊥
unfolding validate fill_components ◌>>=◌
validate_panics lib c m e nil q = cc (rw nil at q)

pub validate-Checked :
    (lib : ControlplaneLibrary) (c : Controlplane) (m : Memory) (e : Option Error)
    → c.destroy ≡ true
    → (validate lib (m, c)).0 ≡ ok e
    → Checked c e (validate lib (m, c)).1.1
validate-Checked lib c m e destroyed q = elim (Option-cases (build_components lib.base c)) [
  | inl nil ↦ absurd (validate_panics lib c m e nil q)
  | inr (d, built) ↦
      let (destroy, state) = build_keeps lib.base c d built in
      let gone = destroy ∙ destroyed in
      let run = validate_built lib c d m built in
      let stays =
        ap (λ (r : Outcome (Option Error) × Planned). r.1.1) run ∙ filled_stays lib d m gone in
      let q1 = sym (ap (λ (r : Outcome (Option Error) × Planned). r.0) run) ∙ q in
      record {
        destroy = ap (λ (d : Controlplane). d.destroy) stays ∙ gone;
        state = ap (λ (d : Controlplane). d.state) stays ∙ state;
        full = λ nothing.
            ap (λ (s : ContainersState). is_empty s) (sym state)
            ∙ filled_full lib d m gone (q1 ∙ ap (λ e. ok e) nothing);
      }
]
