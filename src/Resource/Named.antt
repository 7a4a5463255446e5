-- ===== src/Resource/Named.antt =====
-- What New makes of its instances and states, name by name (pkg/container/containers.go,
-- pkg/container/containersstate.go, and New of pkg/etcd/cluster.go, pkg/kubelet/pool.go and
-- pkg/apiloadbalancer/api-loadbalancers.go).
use libflexkube.Base.{
  ℕ, String, true, Option, none, some, Option-cases, inl, inr, List, [], ◌∷◌, ◌==◌, ◌≡◌, refl, sym,
  ap, ◌∙◌, arith, eq_iff, is_some, ◌||◌, All, Any, Bool-cases,
}
use mathlib.Core.Path.{subst}
use libflexkube.Base.Map.{Map, lookup, insert, has, has-insert}
use libflexkube.Base.Fault.{Error, Result, success, failure, wrapf}
use libflexkube.Base.Exec.{Exec, ok, pure, fail, panic, must, try, wrap, ◌>>=◌}
use libflexkube.Base.Exec.Ensures.{ok-injective}
use libflexkube.Base.Exec.Success.{bind_ok, try_ok, failed_ok}
use libflexkube.Container.Configured.{new_hcc}
use libflexkube.Container.State.{ContainersState, StateMap, new_state_from, new_state}
use libflexkube.Container.Exported.{ContainersConfig, built}
use libflexkube.Container.Exported
use libflexkube.Memory.{Memory}
use libflexkube.Resource.{Kind, convert, build_all, new_all}
use libflexkube.Resource.Rebuilt.{must_ok, built_in}

abbrev IsThere : String × Option ℕ → Type 0
IsThere e = is_some e.1 ≡ true

-- The containers have exactly these names, and none is nil.
abbrev pub Shown : {V : Type 0} → Map V → StateMap → Type 0
Shown c t = ((n : String) → has t n ≡ has c n) × All (λ e. is_some e.1 ≡ true) t

module _ {V : Type 0} (P : String × V → Type 0) where
  All-insert : (m : Map V) (k : String) (v : V) → P (k, v) → All P m → All P (insert m k v)
  unfolding insert
  All-insert [] k v p h = (p, tt)
  All-insert ((j, w) ∷ m) k v p h = elim (Bool-cases (j == k)) [
    | inl same ↦ rw (same, insert) (subst (λ i. P (i, v)) (sym ((eq_iff j k).0 same)) p, h.1)
    | inr other ↦ rw (other, insert) (h.0, All-insert m k v p h.1)
  ]

-- Names that are taken one after the other.
has_next :
    {V W : Type 0} (s t : Map V) (n : String) (v : V) (w : W) (rest : Map W)
    → ((k : String) → has t k ≡ (has (insert s n v) k || has rest k))
    → (k : String) → has t k ≡ (has s k || has ((n, w) ∷ rest) k)
unfolding lookup
has_next s t n v w rest h k = ground (arith, h k, has-insert s n k v)

state_names :
    (c : ContainersState) (s t : StateMap) (m : Memory)
    → (new_state_from s c m).0 ≡ ok t
    → ((k : String) → has t k ≡ (has s k || has c k))
      × (All (λ e. is_some e.1 ≡ true) s → All (λ e. is_some e.1 ≡ true) t)
unfolding new_state_from ◌>>=◌ lookup
state_names [] s t m q =
    let same = ok-injective s t q in
    (
      λ k. ap (λ (x : StateMap). has x k) (sym same) ∙ ground arith,
      λ h. subst (All (λ e. is_some e.1 ≡ true)) same h,
    )
state_names ((name, none) ∷ c) s t m q = cc
state_names ((name, some h) ∷ c) s t m q =
    let (a, made, rest) =
      bind_ok (λ a. new_state_from (insert s name (some a)) c) t
        (wrap "creating new container object" (new_hcc h)) m q in
    let (names, there) = state_names c (insert s name (some a)) t _ rest in
    (
      has_next s t name (some a) (some h) c names,
      λ all. there (All-insert (λ e. is_some e.1 ≡ true) s name (some a) refl all),
    )

new_state-Shown :
    (c : ContainersState) (t : StateMap) (m : Memory) → (new_state c m).0 ≡ ok t → Shown c t
unfolding new_state lookup
new_state-Shown c t m q = let (names, there) = state_names c [] t m q in (names, there tt)

built_success :
    (r : Result StateMap) (s : StateMap) (m : Memory) → (built r m).0 ≡ ok s → r ≡ success s
unfolding built ◌>>=◌
built_success (success t) s m q = cc
built_success (failure e) s m q = cc

-- The states that New returns have the names of those that it was given, and no nil.
new-Shown :
    (c : ContainersConfig) (states : StateMap × StateMap) (m : Memory)
    → (Exported.new c m).0 ≡ ok states
    → Shown c.previous_state states.0 × Shown c.desired_state states.1
unfolding Exported.new ◌>>=◌
new-Shown c states m q =
    let (e, _, q1) = bind_ok _ states (Exported.validate (some c)) m q in
    finished e (Exported.validate (some c) m).1 q1
  where
    finished :
        (e : Option Error) (m1 : Memory)
        → ((elim e as (λ e. Exec Memory (StateMap × StateMap)) [
          | some e ↦ fail (wrapf "validating containers configuration" e)
          | none ↦ try (new_state c.previous_state) >>= λ r.
              try (new_state c.desired_state) >>= λ r'.
              built r >>= λ previous. built r' >>= λ desired. pure (previous, desired)
        ])
            m1).0
          ≡ ok states
        → Shown c.previous_state states.0 × Shown c.desired_state states.1
    finished (some e) m1 q = absurd (failed_ok _ m1 states q)
    finished none m1 q =
        let (r, got, q1) = bind_ok _ states (try (new_state c.previous_state)) m1 q in
        let m2 = (try (new_state c.previous_state) m1).1 in
        let (r', got', q2) = bind_ok _ states (try (new_state c.desired_state)) m2 q1 in
        let m3 = (try (new_state c.desired_state) m2).1 in
        let (previous, b, q3) = bind_ok _ states (built r) m3 q2 in
        let (desired, b', q4) = bind_ok _ states (built r') (built r m3).1 q3 in
        let same = ok-injective (previous, desired) states q4 in
        subst (λ (x : StateMap × StateMap). Shown c.previous_state x.0 × Shown c.desired_state x.1)
          same
          (
            new_state-Shown c.previous_state previous m1 (
                try_ok (new_state c.previous_state) m1 r got previous
                  (built_success r previous m3 b)),
            new_state-Shown c.desired_state desired m2 (
                try_ok (new_state c.desired_state) m2 r' got' desired
                  (built_success r' desired (built r m3).1 b')),
          )

module _ {A : Type 0} (k : Kind A) (all : List (String × A)) where
  -- Each is one of these, filled.
  abbrev pub Filled : Map A → Type 0
  Filled made =
      All (λ e. (item : A) × Any (λ x. x ≡ (e.0, item)) all × (k.propagate e.0 item ≡ some e.1))
        made

  -- What New returns of these and of a previous state: the filled instances under the same names, and
  -- the containers.
  abbrev pub Tied : ContainersState → Map A → StateMap × StateMap → Type 0
  Tied previous made states =
      ((n : String) → has made n ≡ has all n)
      × Filled made
      × Shown previous states.0
      × Shown all states.1

  refused :
      (filled : Map A) (t : ContainersState) (n : String) (item a : A) (items : List (String × A))
      (m : Memory) (e : Error)
      → k.propagate n item ≡ some a
      → k.check a ≡ some e
      → (build_all k filled t ((n, item) ∷ items) m).0 ≡ panic
  unfolding build_all ◌>>=◌
  refused filled t n item a items m e found invalid = rw (found, invalid) refl

  build_all-Filled :
      (items : List (String × A)) (filled : Map A) (t : ContainersState) (m : Memory)
      (made : Map A × ContainersState)
      → ((x : String × A) → Any (λ y. y ≡ x) items → Any (λ y. y ≡ x) all)
      → Filled filled
      → (build_all k filled t items m).0 ≡ ok made
      → ((n : String) → has made.0 n ≡ (has filled n || has items n))
        × ((n : String) → has made.1 n ≡ (has t n || has items n))
        × Filled made.0
  unfolding build_all lookup ◌>>=◌
  build_all-Filled [] filled t m made sub h q =
      let same = ok-injective (filled, t) made q in
      (
        λ n. ap (λ (x : Map A × ContainersState). has x.0 n) (sym same) ∙ ground arith,
        λ n. ap (λ (x : Map A × ContainersState). has x.1 n) (sym same) ∙ ground arith,
        subst (λ (x : Map A × ContainersState). Filled x.0) same h,
      )
  build_all-Filled ((n, item) ∷ items) filled t m made sub h q =
      let (a, found, _) = bind_ok _ made (must (k.propagate n item)) m q in
      let found' = must_ok (k.propagate n item) m a found in
      elim (Option-cases (k.check a)) [
        | inr (e, invalid) ↦ let crashed = refused filled t n item a items m e found' invalid in cc
        | inl valid ↦
            let (names, shown, later) =
              build_all-Filled items (insert filled n a) _ (convert k a m).1 made
                (λ x there. sub x (inr there))
                (All-insert _ filled n a (item, sub (n, item) (inl refl), found') h)
                (ap (λ r. r.0) (sym (built_in k filled t n item a items m found' valid)) ∙ q) in
            (
              has_next filled made.0 n a item items names,
              has_next t made.1 n (some (k.template a m.next)) item items shown,
              later,
            )
      ]

  -- A New that returns containers returns those of its instances.
  pub new_all-Tied :
      (previous : ContainersState) (m : Memory) (made : Map A) (states : StateMap × StateMap)
      → (new_all k previous all m).0 ≡ ok (made, some states)
      → Tied previous made states
  unfolding new_all lookup ◌>>=◌
  new_all-Tied previous m made states q =
      let (x, done, q1) = bind_ok _ (made, some states) (build_all k [] [] all) m q in
      let (names, shown, filled) = build_all-Filled all [] [] m x (λ y there. there) tt done in
      let config : ContainersConfig = record { previous_state = previous; desired_state = x.1 } in
      let m1 = (build_all k [] [] all m).1 in
      let (r, got, q2) = bind_ok _ (made, some states) (try (Exported.new config)) m1 q1 in
      let (same, success_of) = ended r (try (Exported.new config) m1).1 x.0 q2 in
      let (before, after) =
        new-Shown config states m1 (try_ok (Exported.new config) m1 r got states success_of) in
      (
        subst (λ (y : Map A). (n : String) → has y n ≡ has all n) same names,
        subst Filled same filled,
        before,
        (λ n. after.0 n ∙ shown n, after.1),
      )
    where
      ended :
          (r : Result (StateMap × StateMap)) (m2 : Memory) (y : Map A)
          → ((elim r as (λ r. Exec Memory (Map A × Option (StateMap × StateMap))) [
            | success states ↦ pure (y, some states)
            | failure e ↦ pure (y, none)
          ])
              m2).0
            ≡ ok (made, some states)
          → (y ≡ made) × (r ≡ success states)
      ended (success s) m2 y q = (cc, cc)
      ended (failure e) m2 y q = cc

-- The containers alone.
pub containers_taken :
    {A : Type 0} (x : Exec Memory (Map A × Option (StateMap × StateMap))) (m : Memory)
    (made : Map A × Option (StateMap × StateMap))
    → (x m).0 ≡ ok made
    → ((x >>= λ made. pure made.1) m).0 ≡ ok made.1
unfolding ◌>>=◌
containers_taken x m made q = rw q refl
