-- ===== src/Resource/Total.antt =====
-- Actions that succeed in every memory with a given library, and keep the library
-- (pkg/container/containers.go, pkg/container/containersstate.go).
use libflexkube.Base.{
  ℕ, String, none, some, [], ◌∷◌, ◌≡◌, refl, arith, All, Option-cases, ◌⊎◌, inl, inr,
}
use libflexkube.Base.Map.{insert}
use libflexkube.Base.Fault.{Result-cases, Error, wrapf, success}
use libflexkube.Base.Exec.{
  Exec, Outcome, ok, err, panic, hang, pure, must, wrap, try, settled, continue, map_err, ◌>>=◌,
}
use libflexkube.World.{Library, new_client, perform}
use libflexkube.Docker
use libflexkube.Container.Single.{Container, validate_container, new_container, select_runtime}
use libflexkube.Container.Configured.{HostConfiguredContainer, validate_hcc, new_hcc}
use libflexkube.Container.State.{ContainersState, StateMap, new_state_from}
use libflexkube.Memory.{Memory, on_world, alloc_container, alloc_hcc}

-- Success, with this library and this property of the value.
abbrev pub Passed : {A : Type 0} → Library → (A → Type 0) → Outcome A → Memory → Type 0
Passed lib Q (ok a) m = Q a × (m.world.lib ≡ lib)
Passed lib Q (err e) m = ⊥
Passed lib Q panic m = ⊥
Passed lib Q hang m = ⊥

pub record Total {A : Type 0} (lib : Library) (x : Exec Memory A) (Q : A → Type 0) : Type 0 where
  pub passes : (m : Memory) → m.world.lib ≡ lib → Passed lib Q (x m).0 (x m).1

abbrev pub Always : {A : Type 0} → A → Type 0
Always a = Unit

-- What a total action ends with.
pub reached :
    {A : Type 0} (lib : Library) (Q : A → Type 0) (x : Exec Memory A) (m : Memory)
    → Total lib x Q
    → m.world.lib ≡ lib
    → (a : A) × ((x m).0 ≡ ok a) × Q a × ((x m).1.world.lib ≡ lib)
reached {A} lib Q x m t p = go (x m).0 (x m).1 (t.passes m p)
  where
    go :
        (r : Outcome A) (m' : Memory)
        → Passed lib Q r m'
        → (a : A) × (r ≡ ok a) × Q a × (m'.world.lib ≡ lib)
    go (ok a) m' q = (a, refl, q.0, q.1)
    go (err e) m' q = absurd q
    go panic m' q = absurd q
    go hang m' q = absurd q

passed :
    {A : Type 0} (lib : Library) (Q : A → Type 0) (r : Outcome A) (m : Memory) (a : A)
    → r ≡ ok a
    → Q a
    → m.world.lib ≡ lib
    → Passed lib Q r m
passed lib Q r m a e q l = rw e (q, l)

module _ {A B : Type 0} (lib : Library) (Q : A → Type 0) (R : B → Type 0) where
  continues :
      (r : Outcome A) (m : Memory) (f : A → Exec Memory B)
      → ((a : A) → Q a → Total lib (f a) R)
      → Passed lib Q r m
      → Passed lib R (continue r f m).0 (continue r f m).1
  continues (ok a) m f t p = (t a p.0).passes m p.1
  continues (err e) m f t p = absurd p
  continues panic m f t p = absurd p
  continues hang m f t p = absurd p

  pub bind-Total :
      (x : Exec Memory A) (f : A → Exec Memory B)
      → Total lib x Q
      → ((a : A) → Q a → Total lib (f a) R)
      → Total lib (x >>= f) R
  unfolding ◌>>=◌
  bind-Total x f s t = record { passes = λ m p. continues (x m).0 (x m).1 f t (s.passes m p) }

module _ {A : Type 0} (lib : Library) (Q : A → Type 0) where
  pub pure-Total : (a : A) → Q a → Total lib (pure a) Q
  unfolding ◌>>=◌
  pure-Total a q = record { passes = λ m p. (q, p) }

  pub must-Total : (a : A) → Q a → Total lib (must (some a)) Q
  unfolding ◌>>=◌
  must-Total a q = record { passes = λ m p. (q, p) }

  pub wrap-Total : (text : String) (x : Exec Memory A) → Total lib x Q → Total lib (wrap text x) Q
  unfolding ◌>>=◌
  wrap-Total text x t = record { passes = λ m p. go (x m).0 (x m).1 (t.passes m p) }
    where
      go :
          (r : Outcome A) (m' : Memory)
          → Passed lib Q r m'
          → Passed lib Q (map_err (wrapf text) r) m'
      go (ok a) m' q = q
      go (err e) m' q = absurd q
      go panic m' q = absurd q
      go hang m' q = absurd q

  pub try-Total :
      (x : Exec Memory A) → Total lib x Q → Total lib (try x) (λ r. (a : A) × (r ≡ success a) × Q a)
  unfolding ◌>>=◌
  try-Total x t = record { passes = λ m p. go (x m).0 (x m).1 (t.passes m p) }
    where
      go :
          (r : Outcome A) (m' : Memory)
          → Passed lib Q r m'
          → Passed lib (λ r. (a : A) × (r ≡ success a) × Q a) (settled r m').0 (settled r m').1
      go (ok a) m' q = ((a, refl, q.0), q.1)
      go (err e) m' q = absurd q
      go panic m' q = absurd q
      go hang m' q = absurd q

has_docker :
    (lib : Library) (h : HostConfiguredContainer)
    → validate_hcc lib h ≡ none
    → (validate_container h.container ≡ none) × ((rc : ℕ) × (h.container.docker ≡ some rc))
unfolding validate_hcc validate_container
has_docker lib h v = elim (Option-cases h.container.docker) [
  | inl nil ↦ absurd (ground arith)
  | inr (rc, q) ↦ (ground arith, (rc, q))
]

module _ (lib : Library) where
  -- A container that may fail to be built, with the library kept.
  container_settles :
      (c : Container) (rc : ℕ) (m : Memory)
      → validate_container c ≡ none
      → c.docker ≡ some rc
      → m.world.lib ≡ lib
      → ((a : ℕ) × ((new_container c m).0 ≡ ok a) × ((new_container c m).1.world.lib ≡ lib))
        ⊎ ((e : Error) × ((new_container c m).0 ≡ err e) × ((new_container c m).1.world.lib ≡ lib))
  unfolding new_container select_runtime Docker.new perform on_world alloc_container ◌>>=◌
  container_settles c rc m v q p =
      elim (Result-cases
        (m.world.answer m.world.history (new_client (Docker.host_option (m.configs rc))))) [
          | inl (a, r) ↦
              inl (m.next, rw (new_container, v, q, r) refl, rw (new_container, v, q, r) p)
          | inr (e, r) ↦ inr (
            wrapf "determining container runtime"
                (wrapf "selecting container runtime" (wrapf "creating Docker client" e)),
            rw (new_container, v, q, r) refl,
            rw (new_container, v, q, r) p,
          )
        ]

  -- A valid host configured container is built, even where its container is not.
  pub new_hcc-Total :
      (h : HostConfiguredContainer) → validate_hcc lib h ≡ none → Total lib (new_hcc h) Always
  unfolding new_hcc alloc_hcc ◌>>=◌
  new_hcc-Total h v = record { passes = λ m p. built m p (rw p v) }
    where
      built :
          (m : Memory)
          → m.world.lib ≡ lib
          → validate_hcc m.world.lib h ≡ none
          → Passed lib Always (new_hcc h m).0 (new_hcc h m).1
      built m p v' =
          let (valid, (rc, q)) = has_docker lib h v in
          elim (container_settles h.container rc m valid q p) [
            | inl (a, r, l) ↦
                passed lib Always (new_hcc h m).0 (new_hcc h m).1
                  (new_container h.container m).1.next (cc) tt (cc)
            | inr (e, r, l) ↦
                passed lib Always (new_hcc h m).0 (new_hcc h m).1
                  (new_container h.container m).1.next (cc) tt (cc)
          ]

-- Every entry is a valid container.
abbrev pub ValidState : Library → ContainersState → Type 0
ValidState lib s =
    All (λ e. (h : HostConfiguredContainer) × (e.1 ≡ some h) × (validate_hcc lib h ≡ none)) s

pub new_state-Total :
    (lib : Library) (c : ContainersState) (s : StateMap)
    → ValidState lib c
    → Total lib (new_state_from s c) Always
unfolding new_state_from
new_state-Total lib [] s v = pure-Total lib Always s tt
new_state-Total lib ((name, entry) ∷ c) s v =
    let (h, q, valid) = v.0 in
    rw q (
      bind-Total lib (λ h'. validate_hcc lib h' ≡ none) Always (must (some h)) _
        (must-Total lib _ h valid)
        (λ h' valid'.
          bind-Total lib Always Always (wrap "creating new container object" (new_hcc h')) _
            (wrap-Total lib Always "creating new container object" (new_hcc h')
              (new_hcc-Total lib h' valid'))
            (λ a u. new_state-Total lib c (insert s name (some a)) v.1)))
