-- ===== src/Controlplane/Deployment/Destroyed/Previous.antt =====
-- Containers that have a previous state only (pkg/controlplane/controlplane.go, pkg/container).
use libflexkube.Base.{false, Option, none, some, [], ◌≡◌, sym, ap, ◌∙◌, is_empty}
use libflexkube.Base.Fault.{Error, wrapf, Result, success, failure}
use libflexkube.Base.Exec.{Exec, ok, pure, fail, try, wrap, ◌>>=◌}
use libflexkube.Base.Exec.Ensures.{ok-injective}
use libflexkube.Base.Exec.Success.{bind_ok, wrap_ok, failed_ok}
use libflexkube.Container.State.{ContainersState, StateMap, new_state_from, new_state}
use libflexkube.Container.Exported
use libflexkube.Container.Exported.{ContainersConfig}
use libflexkube.Memory.{Memory}
use libflexkube.Controlplane.{Controlplane}
use libflexkube.Controlplane.Deployment.{Built, containers_with_state}

-- A controlplane's configuration with a previous state and nothing that is desired.
abbrev only_previous : ContainersState → ContainersConfig
only_previous previous = record { previous_state = previous; desired_state = [] }

-- The end of New of such containers.
nothing_built :
    (r : Result StateMap) (m : Memory) (states : StateMap × StateMap)
    → ((try (new_state []) >>= λ desired. Exported.built r >>= λ previous'.
          Exported.built desired >>= λ desired'. pure (previous', desired'))
        m).0
      ≡ ok states
    → states.1 ≡ []
unfolding Exported.built new_state new_state_from ◌>>=◌
nothing_built (success s) m states q =
    ap (λ (x : StateMap × StateMap). x.1) (sym (ok-injective (s, []) states q))
nothing_built (failure e) m states q = cc

-- Containers that are built of a previous state only have an empty desired state.
nothing_desired :
    (previous : ContainersState) (m : Memory) (states : StateMap × StateMap)
    → (Exported.new (only_previous previous) m).0 ≡ ok states
    → states.1 ≡ []
unfolding Exported.new
nothing_desired previous m states q =
    let m1 = (Exported.validate (some (only_previous previous)) m).1 in
    let (e, _, q1) = bind_ok _ states (Exported.validate (some (only_previous previous))) m q in
    finished e m1 q1
  where
    finished :
        (e : Option Error) (m1 : Memory)
        → ((elim e as (λ e. Exec Memory (StateMap × StateMap)) [
          | some e ↦ fail (wrapf "validating containers configuration" e)
          | none ↦ try (new_state previous) >>= λ r. try (new_state []) >>= λ desired.
              Exported.built r >>= λ previous'.
              Exported.built desired >>= λ desired'. pure (previous', desired')
        ])
            m1).0
          ≡ ok states
        → states.1 ≡ []
    finished (some e) m1 q = absurd (failed_ok _ m1 states q)
    finished none m1 q =
        let (r, _, q1) = bind_ok _ states (try (new_state previous)) m1 q in
        nothing_built r (try (new_state previous) m1).1 states q1

-- What containersWithState builds has no desired state.
pub with_state_ok :
    (c : Controlplane) (m : Memory) (b : Built)
    → is_empty c.state ≡ false
    → (containers_with_state c m).0 ≡ ok b
    → (previous : StateMap) × (b ≡ some (previous, []))
unfolding containers_with_state ◌>>=◌
with_state_ok c m b full q =
    let (states, got, q1) =
      bind_ok (λ states. pure (some states)) b
        (wrap "creating containers state" (Exported.new (only_previous c.state))) m
        (rw (full, containers_with_state) at q) in
    let empty =
      nothing_desired c.state m states
        (wrap_ok "creating containers state" (Exported.new (only_previous c.state)) m states got) in
    (states.0, sym (ok-injective (some states) b q1) ∙ ap (λ d. some (states.0, d)) empty)
