-- ===== src/Resource/Renewed.antt =====
-- What Validate has accepted, New builds (pkg/etcd/cluster.go, pkg/kubelet/pool.go,
-- pkg/apiloadbalancer/api-loadbalancers.go).
use libflexkube.Base.{
  ℕ, String, Option, none, some, List, [], ◌∷◌, ◌≡◌, refl, sym, ap, ◌∙◌, Option-cases, inl, inr,
}
use libflexkube.Base.Map.{Map, insert}
use libflexkube.Base.Fault.{Error}
use libflexkube.Base.Exec.{ok, must, try}
use libflexkube.Base.Exec.Success.{bind_ok}
use libflexkube.Util.Errors.{not_longer}
use libflexkube.World.{Library}
use libflexkube.Container.Configured.{validate_hcc}
use libflexkube.Container.State.{ContainersState, StateMap}
use libflexkube.Container.Exported.{ContainersConfig}
use libflexkube.Container.Exported
use libflexkube.Memory.{Memory}
use libflexkube.Resource.{Kind, convert, check_all, build_all, new_all}
use libflexkube.Resource.Total.{Total, Always, bind-Total, pure-Total, try-Total}
use libflexkube.Resource.Accepted.{Accepted, new-Total}
use libflexkube.Resource.Rebuilt.{
  must_ok, Alike, Alike-insert, left_out, taken_in, built_in, convert_keeps, same_state,
  check_all_clean, Alike-Valid, Alike-empty,
}

-- New with a validation of instances that may visit maps in another order.
module _ {A : Type 0} (k : Kind A) (lib : Library) (check' : A → Option Error)
    (agree : (a : A) → k.check a ≡ none → check' a ≡ none) where
  -- The same instances with the other validation.
  abbrev pub again : Kind A
  again = record { propagate = k.propagate; check = check'; template = k.template }

  -- New builds what the loop of Validate built, at other addresses.
  build_all-Alike :
      (text : String) (items : List (String × A)) (errors : List Error) (filled : Map A)
      (s t u : ContainersState) (m : Memory)
      → m.world.lib ≡ lib
      → (check_all k text errors s items m).0 ≡ ok ([], u)
      → Alike k s t
      → Total lib (build_all again filled t items) (λ made. Alike k u made.1)
  unfolding check_all build_all
  build_all-Alike text [] errors filled s t u m p q h =
      pure-Total lib (λ made. Alike k u made.1) (filled, t)
        (rw⁻¹ (same_state k lib errors s u m q) h)
  build_all-Alike text ((n, item) ∷ items) errors filled s t u m p q h =
      let (a, found, rest) = bind_ok _ ([], u) (must (k.propagate n item)) m q in
      let found' = must_ok (k.propagate n item) m a found in
      elim (Option-cases (k.check a)) [
        | inr (e, invalid) ↦ absurd (
            not_longer errors _
              (check_all_clean k lib text items _ s u m p (
                ap (λ r. r.0) (sym (left_out k text errors s n item a items m e found' invalid))
                ∙ q)).0)
        | inl valid ↦ record {
          passes = λ m' p'. rw (built_in again filled t n item a items m' found' (agree a valid)) (
              (build_all-Alike text items errors (insert filled n a) _ _ u (convert k a m).1
                  (rw (convert_keeps k a m) p)
                  (ap (λ r. r.0) (sym (taken_in k text errors s n item a items m found' valid)) ∙ q)
                  (Alike-insert k s t n a m.next m'.next h)).passes
                (convert again a m').1 (rw (convert_keeps again a m') p'));
        }
      ]

  -- New after a Validate that found no error.
  pub new_all-Total :
      (text : String) (first : List Error) (previous desired : ContainersState)
      (items : List (String × A)) (m : Memory)
      → ((a : A) (d d' : ℕ)
          → validate_hcc lib (k.template a d) ≡ validate_hcc lib (k.template a d'))
      → m.world.lib ≡ lib
      → (check_all k text first [] items m).0 ≡ ok ([], desired)
      → Accepted lib previous desired
      → Total lib
          (new_all again previous items)
          (λ made. (states : StateMap × StateMap) × (made.1 ≡ some states))
  unfolding new_all
  new_all-Total text first previous desired items m law p checked accepted =
      bind-Total lib (λ made. Alike k desired made.1) _ (build_all again [] [] items) _
        (build_all-Alike text items first [] [] [] desired m p checked tt)
        (λ made alike.
          bind-Total lib _ _
            (try (Exported.new (record { previous_state = previous; desired_state = made.1 }))) _
            (try-Total lib Always _ (
              new-Total lib (record { previous_state = previous; desired_state = made.1 })
                (
                  accepted.0,
                  Alike-Valid k lib law desired made.1 alike accepted.1,
                  rw⁻¹ (Alike-empty k lib desired made.1 alike) accepted.2,
                )))
            (λ r (built, r_is, u). rw r_is (pure-Total lib _ (made.0, some built) (built, refl))))
