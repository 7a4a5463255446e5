-- ===== src/Container/Forwarding/Cleanup.antt =====
-- The helper container does not stay behind (withConfigurationContainer of
-- pkg/container/hostconfiguredcontainer.go).
use libflexkube.Base.{
  ℕ, String, some, ◌∷◌, ◌==◌, ◌≡◌, refl, arith, ◌∙◌, ◌⊎◌, inl, inr, Bool-cases, eq_iff,
}
use libflexkube.Base.Fault.{Result, success, failure}
use libflexkube.Base.Exec.{Exec, Action, ok, ◌>>=◌, wrap}
use libflexkube.Base.Exec.Keeps.{Keeps, keeps_rules}
use libflexkube.World.{World, container_inspect, container_remove, perform, attempt}
use libflexkube.Docker
use libflexkube.Docker.{inspected}
use libflexkube.Container.Single.{instance_status, instance_delete}
use libflexkube.Container.Forwarding.{
  create_configuration_container, remove_configuration_container, with_configuration_container,
}
use libflexkube.Memory.{Memory, ContainerInstance, on_world}

-- The calls of a removal: the container is inspected, and then removed unless it was found to be gone
-- or could not be inspected.
abbrev pub Removed : ContainerInstance → World → World → Type 0
Removed i before after =
    (after.history
      ≡ container_remove i.runtime i.status.id
        ∷ container_inspect i.runtime i.status.id
        ∷ before.history)
    ⊎ ((after.history ≡ container_inspect i.runtime i.status.id ∷ before.history)
        × ((text : String)
            → before.answer before.history (container_inspect i.runtime i.status.id) ≡ success text
            → i.status.id ≡ ""))

remove-Removed_by :
    (h : ℕ) (i : ContainerInstance) (m : Memory) (r : Result String)
    → (m.hccs h).config_container ≡ some i
    → m.world.answer m.world.history (container_inspect i.runtime i.status.id) ≡ r
    → Removed i m.world (remove_configuration_container h m).1.world
unfolding remove_configuration_container instance_status instance_delete on_world Docker.status
    Docker.delete perform attempt inspected ◌>>=◌
remove-Removed_by h i m (failure e) c q = inr (ground arith, λ text p. cc)
remove-Removed_by h i m (success text) c q = elim (Bool-cases (i.status.id == "")) [
  | inl blank ↦ inr (ground arith, λ text p. (eq_iff i.status.id "").0 blank)
  | inr named ↦ inl (ground arith)
]

remove-Removed :
    (h : ℕ) (i : ContainerInstance) (m : Memory)
    → (m.hccs h).config_container ≡ some i
    → Removed i m.world (remove_configuration_container h m).1.world
remove-Removed h i m c = remove-Removed_by h i m _ c refl

-- What runs between the creation of the helper container and the deferred removal.
abbrev pub body_of : ℕ → Action Memory → Action Memory
body_of h action = wrap "running action" action >>= λ _. remove_configuration_container h

abbrev Helper : ℕ → ContainerInstance → Memory → Type 0
Helper h i m = (m.hccs h).config_container ≡ some i

on_world-Helper {ℓ} :
    {A : Type ℓ} (h : ℕ) (i : ContainerInstance) (m : Exec World A)
    → Keeps (Helper h i) (on_world m)
unfolding on_world
on_world-Helper h i m = record { at = λ s e. e }

body_of-Helper :
    (h : ℕ) (i : ContainerInstance) (action : Action Memory)
    → Keeps (Helper h i) action
    → Keeps (Helper h i) (body_of h action)
unfolding remove_configuration_container
body_of-Helper h i action k = search (keeps_rules, on_world-Helper) depth 20

-- Once the helper container for an action is created, and however the action ends, with success, an
-- error or a panic, the last calls inspect the helper container and remove it, unless it was found
-- to be gone or could not be inspected. The action itself must leave the reference to the helper
-- container alone.
pub with_configuration_container-Removed :
    (h : ℕ) (m m' : Memory) (i : ContainerInstance) (action : Action Memory)
    → ((t : Memory) → ((action t).1.hccs h).config_container ≡ (t.hccs h).config_container)
    → create_configuration_container h m ≡ (ok tt, m')
    → (m'.hccs h).config_container ≡ some i
    → Removed i (body_of h action m').1.world (with_configuration_container h action m).1.world
unfolding with_configuration_container ◌>>=◌
with_configuration_container-Removed h m m' i action keeps created c = rw created (
    remove-Removed h i (body_of h action m').1
      ((body_of-Helper h i action (record { at = λ s e. keeps s ∙ e })).at m' c))
