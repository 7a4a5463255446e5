-- ===== src/Resource/Accepted.antt =====
-- The states that Containers.New accepts (pkg/container/containers.go).
use libflexkube.Base.{
  ℕ, Bool, true, false, Option, none, some, [], ◌∷◌, ◌++◌, ◌≡◌, refl, ap, ◌∙◌, Option-cases, inl,
  inr, is_empty, ◌&&◌,
}
use libflexkube.Base.Map.{insert}
use libflexkube.Base.Fault.{Error, wrapf, error_if, error_of, Result, success, failure}
use libflexkube.Base.Exec.{Exec, Outcome, ok, err, pure, wrap, try, ◌>>=◌}
use libflexkube.Base.Exec.Success.{bind_ok, wrap_ok, try_ok}
use libflexkube.Util.{return_errors}
use libflexkube.World.{Library}
use libflexkube.Container.Configured.{HostConfiguredContainer, validate_hcc, new_hcc}
use libflexkube.Container.State.{ContainersState, StateMap, new_state_from, new_state}
use libflexkube.Container.Exported.{ContainersConfig}
use libflexkube.Container.Exported
use libflexkube.Memory.{Memory}
use libflexkube.Resource.Total.{
  Total, Always, reached, bind-Total, pure-Total, try-Total, new_hcc-Total, new_state-Total,
  ValidState,
}

-- Where a chain of two actions ends.
pub two_actions :
    {A B C : Type 0} (x : Exec Memory A) (y : A → Exec Memory B) (g : A → B → C) (m : Memory)
    (a : A) (b : B)
    → (x m).0 ≡ ok a
    → (y a (x m).1).0 ≡ ok b
    → ((x >>= λ a. y a >>= λ b. pure (g a b)) m).1 ≡ (y a (x m).1).1
unfolding ◌>>=◌
two_actions x y g m a b first second = rw (first, second) refl

new_hcc_fails :
    (h : HostConfiguredContainer) (m : Memory) (e : Error)
    → validate_hcc m.world.lib h ≡ some e
    → (a : ℕ) → (new_hcc h m).0 ≡ ok a
    → ⊥
unfolding new_hcc ◌>>=◌
new_hcc_fails h m e v a q =
    let failed : (new_hcc h m).0 ≡ err (wrapf "validating configuration" e) = cc in cc

module _ (lib : Library) where
  -- A state that could be built is valid.
  pub new_state-Valid :
      (c : ContainersState) (s t : StateMap) (m : Memory)
      → m.world.lib ≡ lib
      → (new_state_from s c m).0 ≡ ok t
      → ValidState lib c
  unfolding new_state_from ◌>>=◌
  new_state-Valid [] s t m p q = tt
  new_state-Valid ((name, none) ∷ c) s t m p q = cc
  new_state-Valid ((name, some h) ∷ c) s t m p q =
      let (a, made, rest) =
        bind_ok (λ a. new_state_from (insert s name (some a)) c) t
          (wrap "creating new container object" (new_hcc h)) m q in
      let built = wrap_ok "creating new container object" (new_hcc h) m a made in
      elim (Option-cases (validate_hcc lib h)) [
        | inr (e, invalid) ↦ absurd (new_hcc_fails h m e (rw p invalid) a built)
        | inl valid ↦ (
          (h, refl, valid),
          new_state-Valid c (insert s name (some a)) t (new_hcc h m).1
              (reached lib Always (new_hcc h) m (new_hcc-Total lib h valid) p).3 rest,
        )
      ]

  -- A pair of states that New accepts.
  abbrev pub Accepted : ContainersState → ContainersState → Type 0
  Accepted previous desired =
      ValidState lib previous
      × ValidState lib desired
      × ((is_empty previous && is_empty desired) ≡ false)

  validate-Total :
      (c : ContainersConfig)
      → Accepted c.previous_state c.desired_state
      → Total lib (Exported.validate (some c)) (λ e. e ≡ none)
  unfolding Exported.validate new_state
  validate-Total c h =
      bind-Total lib _ _ (try (new_state c.previous_state)) _
        (try-Total lib Always (new_state c.previous_state)
          (new_state-Total lib c.previous_state [] h.0))
        (λ r (s, q, u).
          bind-Total lib _ _ (try (new_state c.desired_state)) _
            (try-Total lib Always (new_state c.desired_state)
              (new_state-Total lib c.desired_state [] h.1))
            (λ r' (s', q', u'). pure-Total lib (λ e. e ≡ none) _ (rw (h.2, q, q') refl)))

  no_errors :
      (b : Bool) (e : Error) (f g : Error → Error) (r r' : Result StateMap)
      → ◌≡◌ {A = Outcome (Option Error)}
          (ok (return_errors (error_if b e ++ (error_of f r ++ error_of g r'))))
          (ok none)
      → (b ≡ false) × ((s : StateMap) × (r ≡ success s)) × ((s : StateMap) × (r' ≡ success s))
  unfolding return_errors
  no_errors true e f g r r' q = cc
  no_errors false e f g (failure x) r' q = cc
  no_errors false e f g (success s) (failure x) q = cc
  no_errors false e f g (success s) (success s') q = (refl, (s, refl), (s', refl))

  new_refused :
      (c : ContainersConfig) (m : Memory) (x : Error) (s : StateMap × StateMap)
      → (Exported.validate (some c) m).0 ≡ ok (some x)
      → (Exported.new c m).0 ≡ ok s
      → ⊥
  unfolding Exported.new ◌>>=◌
  new_refused c m x s v q =
      let failed : (Exported.new c m).0 ≡ err (wrapf "validating containers configuration" x) =
        cc in
      cc

  -- New of such states returns the containers.
  pub new-Total :
      (c : ContainersConfig)
      → Accepted c.previous_state c.desired_state
      → Total lib (Exported.new c) Always
  unfolding Exported.new new_state ◌>>=◌ Exported.built
  new-Total c h =
      bind-Total lib _ _ (Exported.validate (some c)) _ (validate-Total c h) (λ e none_found.
        rw none_found (
          bind-Total lib _ _ (try (new_state c.previous_state)) _
            (try-Total lib Always (new_state c.previous_state)
              (new_state-Total lib c.previous_state [] h.0))
            (λ r (s, q, u).
              bind-Total lib _ _ (try (new_state c.desired_state)) _
                (try-Total lib Always (new_state c.desired_state)
                  (new_state-Total lib c.desired_state [] h.1))
                (λ r' (s', q', u'). rw (q, q') (record { passes = λ m p. (tt, p) })))))

  -- States with which the validation finds no error are accepted.
  validate-Accepted :
      (c : ContainersConfig) (m : Memory)
      → m.world.lib ≡ lib
      → (Exported.validate (some c) m).0 ≡ ok none
      → Accepted c.previous_state c.desired_state
  unfolding Exported.validate new_state ◌>>=◌
  validate-Accepted c m p q =
      let (r, first, q1) = bind_ok _ none (try (new_state c.previous_state)) m q in
      let (r', second, q2) =
        bind_ok _ none (try (new_state c.desired_state)) (try (new_state c.previous_state) m).1
          q1 in
      let (some_defined, (s, built), (s', built')) = no_errors _ _ _ _ r r' q2 in
      let previous =
        new_state-Valid c.previous_state [] s m p
          (try_ok (new_state c.previous_state) m r first s built) in
      (
        previous,
        new_state-Valid c.desired_state [] s' (try (new_state c.previous_state) m).1
            (reached lib _ (try (new_state c.previous_state)) m
              (try-Total lib Always (new_state c.previous_state)
                (new_state-Total lib c.previous_state [] previous))
              p).3
            (try_ok (new_state c.desired_state) (try (new_state c.previous_state) m).1 r' second s'
              built'),
        some_defined,
      )

  pub new-Accepted :
      (c : ContainersConfig) (m : Memory) (s : StateMap × StateMap)
      → m.world.lib ≡ lib
      → (Exported.new c m).0 ≡ ok s
      → Accepted c.previous_state c.desired_state
  unfolding Exported.new ◌>>=◌
  new-Accepted c m s p q =
      let (e, checked, rest) = bind_ok _ s (Exported.validate (some c)) m q in
      elim (Option-cases e) [
        | inl nil ↦ validate-Accepted c m p (checked ∙ ap ok nil)
        | inr (x, found) ↦ absurd (new_refused c m x s (checked ∙ ap ok found) q)
      ]
