-- ===== src/Container/Exported/Desired.antt =====
-- What DesiredState shows to the user (pkg/container/containers.go).
use libflexkube.Base.{String, Option, some, [], ◌∷◌, ◌≡◌, refl, ap, ◌∙◌, All}
use libflexkube.Base.Map.{keys}
use libflexkube.Base.Exec.{Exec, ok}
use libflexkube.Base.Exec.Ensures.{
  Ensures, Ensures-bind, Ensures-bind-known, Ensures-pure, Ensures-consequence,
}
use libflexkube.Container.Configured.{HostConfiguredContainer}
use libflexkube.Container.State.{ContainersState, StateMap, export}
use libflexkube.Container.Containers.{Containers, on_memory}
use libflexkube.Container.Exported.{desired_state, show_all, show_running}
use libflexkube.Memory.{Memory}

-- An exported container whose status says that it runs.
abbrev pub ShowsRunning : String × Option HostConfiguredContainer → Type 0
ShowsRunning e =
    (h : HostConfiguredContainer) × (id : String) × (e.1 ≡ some h)
    × (h.container.status ≡ some (record { id = id; status = "running" }))

trivially {ℓ} :
    {S : Type 0} {A : Type ℓ} {P : S → Type 0} (x : Exec S A) → Ensures P x (λ a s. Unit {0})
trivially x = record { at = λ s h a q. tt }

export-keys :
    (s : StateMap) → Ensures {S = Memory} (λ m. Unit {0}) (export s) (λ r m. keys r ≡ keys s)
unfolding export keys
export-keys [] = Ensures-pure _ (λ m h. refl)
export-keys ((name, p) ∷ s) = Ensures-bind _ _ (trivially _) λ h.
    Ensures-bind _ _ (trivially _) λ e.
      Ensures-bind _ _ (Ensures-consequence _ (λ m h. tt) (λ a m h. h) (export-keys s))
        λ rest. Ensures-pure _ (λ m h. ap (λ ks. name ∷ ks) h)

abbrev Shown : ContainersState → ContainersState → Type 0
Shown s r = (keys r ≡ keys s) × All ShowsRunning r

show_all-Shown :
    (previous : StateMap) (s : ContainersState)
    → Ensures {S = Memory} (λ m. Unit {0}) (show_all previous s) (λ r m. Shown s r)
unfolding show_all keys show_running
show_all-Shown previous [] = Ensures-pure _ (λ m h. (refl, tt))
show_all-Shown previous ((name, p) ∷ s) = Ensures-bind _ _ (trivially _) λ id.
    Ensures-bind _ _ (trivially _) λ h.
      Ensures-bind _ _ (Ensures-consequence _ (λ m h. tt) (λ a m h. h) (show_all-Shown previous s))
        λ rest. Ensures-pure _ (λ m shown.
          (ap (λ ks. name ∷ ks) shown.0, ((show_running id h, id, refl, refl), shown.1)))

on_memory_ensures {ℓ} :
    {A : Type ℓ} {Q : A → Type 0} (m : Exec Memory A)
    → Ensures (λ s. Unit {0}) m (λ a s. Q a)
    → Ensures (λ (c : Containers). Unit {0}) (on_memory m) (λ a c. Q a)
unfolding on_memory
on_memory_ensures m e = record { at = λ c h a q. e.at c.memory tt a q }

-- What DesiredState returns has the names of the desired state, in its order, and says of every
-- container that it runs, whatever its own status is.
pub desired_state-ShowsRunning :
    (c : Containers) (s : ContainersState)
    → (desired_state c).0 ≡ ok s
    → (keys s ≡ keys c.desired_state) × All ShowsRunning s
unfolding desired_state
desired_state-ShowsRunning c s q = whole.at c refl s q
  where
    whole :
        Ensures
          (λ d. d ≡ c)
          desired_state
          (λ r d. (keys r ≡ keys c.desired_state) × All ShowsRunning r)
    whole =
        Ensures-bind-known _ _ c (λ d e. e)
          (Ensures-bind _ _
            (Ensures-consequence _ (λ d e. tt) (λ a d h. h)
              (on_memory_ensures _ (export-keys c.desired_state)))
            λ exported. record {
              at = λ d e r h.
                  let shown =
                    (on_memory_ensures _ (show_all-Shown c.current_state exported)).at d tt r h in
                  (shown.0 ∙ e, shown.1);
            })
