-- ===== src/Resource/Rebuilt.antt =====
-- The loops of Validate and New (pkg/etcd/cluster.go, pkg/kubelet/pool.go,
-- pkg/apiloadbalancer/api-loadbalancers.go).
use libflexkube.Base.{
  ℕ, String, Option, none, some, List, [], ◌∷◌, ◌++◌, ◌≡◌, refl, sym, ap, ◌∙◌, Bool-cases,
  Option-cases, inl, inr, is_empty, ◌==◌, if◌then◌else◌,
}
use libflexkube.Base.Map.{Map, insert}
use libflexkube.Base.Fault.{Error, wrapf, wrapf_arg, error_of, Result, success, failure}
use libflexkube.Base.Exec.{ok, pure, must, try, ◌>>=◌}
use libflexkube.Base.Exec.Success.{bind_ok, try_ok}
use libflexkube.Util.{return_errors}
use libflexkube.Util.Errors.{not_longer}
use libflexkube.World.{Library}
use libflexkube.Container.Configured.{validate_hcc}
use libflexkube.Container.State.{ContainersState, StateMap}
use libflexkube.Container.Exported.{ContainersConfig}
use libflexkube.Container.Exported
use libflexkube.Memory.{Memory, alloc_config}
use libflexkube.Resource.{Kind, default_config, convert, check_all, validate_all, build_all}
use libflexkube.Resource.Total.{Always, reached, try-Total, ValidState}
use libflexkube.Resource.Accepted.{Accepted, two_actions, new-Accepted, new-Total}

pub must_ok : {A : Type 0} (o : Option A) (m : Memory) (a : A) → (must o m).0 ≡ ok a → o ≡ some a
unfolding ◌>>=◌
must_ok none m a q = cc
must_ok (some b) m a q = cc

must_stays : {A : Type 0} (o : Option A) (m : Memory) → (must o m).1 ≡ m
unfolding ◌>>=◌
must_stays none m = refl
must_stays (some b) m = refl

module _ {A : Type 0} (k : Kind A) where
  -- The same names, with containers of the same instances at other addresses.
  abbrev pub Alike : ContainersState → ContainersState → Type 0
  Alike [] [] = Unit
  Alike [] (y ∷ t) = ⊥
  Alike (x ∷ s) [] = ⊥
  Alike (x ∷ s) (y ∷ t) =
      ((x.0 ≡ y.0)
        × ((a : A) × (d : ℕ) × (d' : ℕ) × (x.1 ≡ some (k.template a d))
            × (y.1 ≡ some (k.template a d'))))
      × Alike s t

  pub Alike-insert :
      (s t : ContainersState) (n : String) (a : A) (d d' : ℕ)
      → Alike s t
      → Alike (insert s n (some (k.template a d))) (insert t n (some (k.template a d')))
  unfolding insert
  Alike-insert [] [] n a d d' h = ((refl, (a, d, d', refl, refl)), tt)
  Alike-insert [] (y ∷ t) n a d d' h = absurd h
  Alike-insert (x ∷ s) [] n a d d' h = absurd h
  Alike-insert ((i, x) ∷ s) ((j, y) ∷ t) n a d d' h = elim (Bool-cases (j == n)) [
    | inl same ↦ rw (h.0.0, same) ((refl, (a, d, d', refl, refl)), h.1)
    | inr other ↦ rw (h.0.0, other) ((refl, h.0.1), Alike-insert s t n a d d' h.1)
  ]

  -- One round of the loop of Validate.
  pub left_out :
      (text : String) (errors : List Error) (s : ContainersState) (n : String) (item a : A)
      (items : List (String × A)) (m : Memory) (e : Error)
      → k.propagate n item ≡ some a
      → k.check a ≡ some e
      → check_all k text errors s ((n, item) ∷ items) m
        ≡ check_all k text (errors ++ wrapf_arg text n e ∷ []) s items m
  unfolding check_all ◌>>=◌
  left_out text errors s n item a items m e filled checked = rw (filled, checked) refl

  pub taken_in :
      (text : String) (errors : List Error) (s : ContainersState) (n : String) (item a : A)
      (items : List (String × A)) (m : Memory)
      → k.propagate n item ≡ some a
      → k.check a ≡ none
      → check_all k text errors s ((n, item) ∷ items) m
        ≡ check_all k text errors (insert s n (some (k.template a m.next))) items (convert k a m).1
  unfolding check_all convert default_config alloc_config ◌>>=◌
  taken_in text errors s n item a items m filled checked = rw (filled, checked) refl

  -- One round of the loop of New.
  pub built_in :
      (filled : Map A) (t : ContainersState) (n : String) (item a : A) (items : List (String × A))
      (m : Memory)
      → k.propagate n item ≡ some a
      → k.check a ≡ none
      → build_all k filled t ((n, item) ∷ items) m
        ≡ build_all k
            (insert filled n a)
            (insert t n (some (k.template a m.next)))
            items
            (convert k a m).1
  unfolding build_all convert default_config alloc_config ◌>>=◌
  built_in filled t n item a items m found checked = rw (found, checked) refl

  pub convert_keeps : (a : A) (m : Memory) → (convert k a m).1.world ≡ m.world
  unfolding convert default_config alloc_config ◌>>=◌
  convert_keeps a m = refl

  module _ (lib : Library) where
    cleared :
        (errors : List Error) (s t : ContainersState) (m : Memory)
        → m.world.lib ≡ lib
        → (pure {S = Memory} {A = List Error × ContainersState} (errors, s) m).0 ≡ ok ([], t)
        → (errors ≡ [])
          × ((pure {S = Memory} {A = List Error × ContainersState} (errors, s) m).1.world.lib ≡ lib)
    unfolding ◌>>=◌
    cleared errors s t m p q = (cc, p)

    pub same_state :
        (errors : List Error) (s t : ContainersState) (m : Memory)
        → (pure {S = Memory} {A = List Error × ContainersState} (errors, s) m).0 ≡ ok ([], t)
        → s ≡ t
    unfolding ◌>>=◌
    same_state errors s t m q = cc

    -- A loop that ends without errors began without.
    pub check_all_clean :
        (text : String) (items : List (String × A)) (errors : List Error) (s t : ContainersState)
        (m : Memory)
        → m.world.lib ≡ lib
        → (check_all k text errors s items m).0 ≡ ok ([], t)
        → (errors ≡ []) × ((check_all k text errors s items m).1.world.lib ≡ lib)
    unfolding check_all
    check_all_clean text [] errors s t m p q = cleared errors s t m p q
    check_all_clean text ((n, item) ∷ items) errors s t m p q =
        let (a, filled, rest) = bind_ok _ ([], t) (must (k.propagate n item)) m q in
        let filled' = must_ok (k.propagate n item) m a filled in
        elim (Option-cases (k.check a)) [
          | inl valid ↦
              let step = taken_in text errors s n item a items m filled' valid in
              rw step (
                check_all_clean text items errors _ t (convert k a m).1 (rw (convert_keeps a m) p)
                  (ap (λ r. r.0) (sym step) ∙ q))
          | inr (e, invalid) ↦
              let step = left_out text errors s n item a items m e filled' invalid in
              absurd (
                not_longer errors _
                  (check_all_clean text items _ s t m p (ap (λ r. r.0) (sym step) ∙ q)).0)
        ]

    pub Alike-Valid :
        ((a : A) (d d' : ℕ)
          → validate_hcc lib (k.template a d) ≡ validate_hcc lib (k.template a d'))
        → (s t : ContainersState) → Alike s t
        → ValidState lib s
        → ValidState lib t
    Alike-Valid law [] [] h v = tt
    Alike-Valid law [] (y ∷ t) h v = absurd h
    Alike-Valid law (x ∷ s) [] h v = absurd h
    Alike-Valid law ((i, x) ∷ s) ((j, y) ∷ t) h v =
        let ((names, (a, d, d', here, there)), rest) = h in
        let ((c, held, valid), others) = v in
        (
          (
            k.template a d',
            there,
            law a d' d
                ∙ (ap
                    (λ o. elim o [
                      | none ↦ validate_hcc lib (k.template a d)
                      | some h ↦ validate_hcc lib h
                    ])
                    (sym here ∙ held))
                ∙ valid,
          ),
          Alike-Valid law s t rest others,
        )

    pub Alike-empty : (s t : ContainersState) → Alike s t → is_empty s ≡ is_empty t
    Alike-empty [] [] h = refl
    Alike-empty [] (y ∷ t) h = absurd h
    Alike-empty (x ∷ s) [] h = absurd h
    Alike-empty (x ∷ s) (y ∷ t) h = refl

    clean :
        (xs missing : List Error) (f : Error → Error) (r : Result (StateMap × StateMap))
        (m : Memory)
        → (pure
            (return_errors (xs ++ (missing ++ (if is_empty missing then error_of f r else []))))
            m).0
          ≡ ok none
        → (xs ≡ []) × ((states : StateMap × StateMap) × (r ≡ success states))
    unfolding return_errors ◌>>=◌
    clean (x ∷ xs) missing f r m q = cc
    clean [] (x ∷ missing) f r m q = cc
    clean [] [] f (failure e) m q = cc
    clean [] [] f (success states) m q = (refl, (states, refl))

    -- What a Validate that found no error tells of its loop, its states and the library.
    pub validated :
        (text containers_text : String) (first missing : List Error) (previous : ContainersState)
        (items : List (String × A)) (m : Memory)
        → m.world.lib ≡ lib
        → (validate_all k text containers_text first missing previous items m).0 ≡ ok none
        → (desired : ContainersState) × ((check_all k text first [] items m).0 ≡ ok ([], desired))
          × Accepted lib previous desired
          × ((validate_all k text containers_text first missing previous items m).1.world.lib ≡ lib)
    unfolding validate_all
    validated text containers_text first missing previous items m p q =
        let (found, checked, q1) = bind_ok _ none (check_all k text first [] items) m q in
        let config : ContainersConfig = record {
          previous_state = previous;
          desired_state = found.1;
        } in
        let m1 = (check_all k text first [] items m).1 in
        let (r, tried, q2) = bind_ok _ none (try (Exported.new config)) m1 q1 in
        let (no_error, (states, made)) = clean found.0 missing (wrapf containers_text) r _ q2 in
        let checked' : (check_all k text first [] items m).0 ≡ ok ([], found.1) =
          checked ∙ ap (λ es. ok (es, found.1)) no_error in
        let kept = (check_all_clean text items first [] found.1 m p checked').1 in
        let accepted =
          new-Accepted lib config m1 states kept
            (try_ok (Exported.new config) m1 r tried states made) in
        let ended =
          two_actions (check_all k text first [] items)
            (λ found.
              try (Exported.new (record { previous_state = previous; desired_state = found.1 })))
            (λ found r. return_errors (
              found.0
              ++ (missing
                  ++ (if is_empty missing then error_of (wrapf containers_text) r else []))))
            m found r checked tried in
        (
          found.1,
          checked',
          accepted,
          rw ended
              (reached lib _ (try (Exported.new config)) m1
                (try-Total lib Always (Exported.new config) (new-Total lib config accepted))
                kept).3,
        )
