-- ===== src/Etcd/Renewed.antt =====
-- Etcd clusters that Validate accepts (pkg/etcd/cluster.go, pkg/etcd/member.go).
use libflexkube.Base.{
  ℕ, String, true, false, Option, none, some, List, [], ◌∷◌, ◌++◌, ◌≡◌, refl, sym, ap, ◌∙◌, arith,
  Bool-cases, inl, inr, Option-cases, eq_iff, ◌==◌, is_some, is_empty, ◌&&◌, All, Any,
}
use libflexkube.Base.Map.{Map, lookup, keys, contains, has, has-keys}
use libflexkube.Base.Fault.{Error, errorf}
use libflexkube.Base.Exec.{ok, ◌>>=◌}
use libflexkube.Util.Errors.{parts_empty, nothing_returned, all_returned}
use libflexkube.World.{Library, World}
use libflexkube.Container.Configured.{validate_hcc}
use libflexkube.Container.Single.{validate_container}
use libflexkube.Container.State.{StateMap}
use libflexkube.Memory.{Memory}
use libflexkube.Resource.{new_all, validate_all}
use libflexkube.Resource.Total.{reached}
use libflexkube.Resource.Rebuilt.{validated}
use libflexkube.Resource.Renewed.{new_all-Total}
use libflexkube.Resource.Named.{Shown, new_all-Tied}
use libflexkube.Etcd.{MemberConfig}
use libflexkube.Etcd.Member.{
  errors_in, empty_error, certificate_error, key_error, host_error, non_empty_fields, certificates,
  private_keys, validate_member, new_member_error, to_host_configured_container,
}
use libflexkube.Etcd.Cluster.{ClusterConfig, ca_errors, members_of, propagate_member, validate, new}

-- An order of visiting a map that leaves no key out.
abbrev pub VisitsAll : (List String → List String) → Type 0
VisitsAll order =
    (ks : List String) (k : String) → contains ks k ≡ true → contains (order ks) k ≡ true

abbrev entry_errors : (String → String → List Error) → Map String → String → List Error
entry_errors f m k = elim (lookup m k) [ none ↦ [] | some v ↦ f k v ]

module _ (f : String → String → List Error) (m : Map String) where
  each_clear :
      (ks : List String) (k : String)
      → errors_in f m ks ≡ []
      → contains ks k ≡ true
      → entry_errors f m k ≡ []
  unfolding errors_in contains
  each_clear [] k q h = cc
  each_clear (j ∷ ks) k q h =
      let (here, later) = parts_empty (entry_errors f m j) (errors_in f m ks) q in
      elim (Bool-cases (j == k)) [
        | inl same ↦ rw⁻¹ ((eq_iff j k).0 same) here
        | inr other ↦ each_clear ks k later (ground arith)
      ]

  all_clear : (ks : List String) → ((k : String) → entry_errors f m k ≡ []) → errors_in f m ks ≡ []
  unfolding errors_in
  all_clear [] h = refl
  all_clear (k ∷ ks) h = rw (h k, all_clear ks h) refl

  absent_clear :
      (k : String) (o : Option String)
      → is_some o ≡ false
      → ◌≡◌ {A = List Error} (elim o [ none ↦ [] | some v ↦ f k v ]) []
  absent_clear k none h = refl
  absent_clear k (some v) h = cc

  -- What finds no error in one order finds none in another.
  in_any_order :
      (order : List String → List String) (ks : List String)
      → VisitsAll order
      → errors_in f m (order (keys m)) ≡ []
      → errors_in f m ks ≡ []
  in_any_order order ks visits q = all_clear ks (λ k. elim (Bool-cases (has m k)) [
    | inl there ↦ each_clear (order (keys m)) k q (visits (keys m) k (has-keys m k ∙ there))
    | inr missing ↦ absent_clear k (lookup m k) missing
  ])

member_again :
    (lib : Library) (order order' : List String → List String) (m : MemberConfig)
    → VisitsAll order
    → validate_member lib order m ≡ none
    → validate_member lib order' m ≡ none
unfolding validate_member
member_again lib order order' m visits h =
    let fields = errors_in empty_error (non_empty_fields m) (order (keys (non_empty_fields m))) in
    let certs =
      errors_in (certificate_error lib) (certificates m) (order (keys (certificates m))) in
    let ks = errors_in (key_error lib) (private_keys m) (order (keys (private_keys m))) in
    let (e1, r1) =
      parts_empty fields (certs ++ (ks ++ host_error lib m))
        (nothing_returned (fields ++ (certs ++ (ks ++ host_error lib m))) h) in
    let (e2, r2) = parts_empty certs (ks ++ host_error lib m) r1 in
    let (e3, e4) = parts_empty ks (host_error lib m) r2 in
    rw
      (
        in_any_order empty_error (non_empty_fields m) order (order' (keys (non_empty_fields m)))
            visits e1,
        in_any_order (certificate_error lib) (certificates m) order (order' (keys (certificates m)))
            visits e2,
        in_any_order (key_error lib) (private_keys m) order (order' (keys (private_keys m))) visits
            e3,
        e4,
      )
      (all_returned [] refl)

new_member_again :
    (lib : Library) (order order' : List String → List String) (m : MemberConfig)
    → VisitsAll order
    → new_member_error lib order m ≡ none
    → new_member_error lib order' m ≡ none
unfolding new_member_error
new_member_again lib order order' m visits h = elim (Option-cases (validate_member lib order m)) [
  | inl valid ↦ rw (new_member_error, member_again lib order order' m visits valid) refl
  | inr (e, invalid) ↦ absurd (refused lib order m e invalid h)
]
  where
    refused :
        (lib : Library) (order : List String → List String) (m : MemberConfig) (e : Error)
        → validate_member lib order m ≡ some e
        → new_member_error lib order m ≡ none
        → ⊥
    refused lib order m e invalid h = cc

same_container :
    (lib : Library) (m : MemberConfig) (d d' : ℕ)
    → validate_hcc lib (to_host_configured_container m d)
      ≡ validate_hcc lib (to_host_configured_container m d')
unfolding validate_hcc validate_container to_host_configured_container
same_container lib m d d' = refl

abbrev order_of : World → List String → List String
order_of w = w.range_order w.history

new_from :
    (c : ClusterConfig) (m : Memory)
    → (validate c m).0 ≡ ok none
    → (new c m).0
      ≡ (new_all
          (members_of c (validate c m).1.world.lib (order_of (validate c m).1.world))
          c.state
          c.members
          (validate c m).1).0
unfolding new ◌>>=◌
new_from c m h = rw h refl

nothing_defined :
    (c : ClusterConfig) (m : Memory)
    → (is_empty c.members && is_empty c.state) ≡ true
    → (validate c m).0 ≡ ok none
    → ⊥
unfolding validate ◌>>=◌
nothing_defined c m nothing h =
    let refused : (validate c m).0
        ≡ ok (some (errorf "at least one member must be defined when state is empty")) =
      rw (validate, nothing) refl in
    cc

loop_reached :
    (c : ClusterConfig) (m : Memory)
    → (validate c m).0 ≡ ok none
    → (first : List Error) × (validate c m
        ≡ validate_all
            (members_of c m.world.lib (order_of m.world))
            "validating member"
            "validating containers object"
            first
            []
            c.state
            c.members
            m)
unfolding validate ◌>>=◌
loop_reached c m h = elim (Bool-cases (is_empty c.members && is_empty c.state)) [
  | inl nothing ↦ absurd (nothing_defined c m nothing h)
  | inr something ↦ (ca_errors m.world.lib c.ca_certificate, rw (validate, something) refl)
]

-- The members are those of the cluster, each filled by propagateMember under its own name; the previous
-- containers have the names of the state and the desired ones those of the members, and none is nil.
abbrev pub IsBuiltOf : ClusterConfig → Map MemberConfig → StateMap × StateMap → Type 0
IsBuiltOf c members states =
    ((n : String) → has members n ≡ has c.members n)
    × All
        (λ e.
          (m : MemberConfig) × Any (λ x. x ≡ (e.0, m)) c.members
          × (propagate_member c e.0 m ≡ some e.1))
        members
    × Shown c.state states.0
    × Shown c.members states.1

-- Where Validate of an etcd cluster finds no error, New returns members and containers: the members
-- are those of the cluster, each filled by propagateMember, under exactly the names of the cluster,
-- the desired containers have exactly these names, the previous ones those of the state, and no
-- entry is nil. Neither the addresses of new objects nor the orders in which the maps are visited
-- make a difference, as long as those of Validate leave no key out.
pub new-validate :
    (c : ClusterConfig) (m : Memory)
    → VisitsAll (m.world.range_order m.world.history)
    → (validate c m).0 ≡ ok none
    → (members : Map MemberConfig) × (states : StateMap × StateMap) × ((new c m).0
        ≡ ok (members, some states))
      × IsBuiltOf c members states
new-validate c m visits h =
    let (first, looped) = loop_reached c m h in
    let lib = m.world.lib in
    let kind = members_of c lib (order_of m.world) in
    let order' = order_of (validate c m).1.world in
    let (desired, checked, accepted, kept) =
      validated kind lib "validating member" "validating containers object" first [] c.state
        c.members m refl (ap (λ r. r.0) (sym looped) ∙ h) in
    let total =
      new_all-Total kind lib (new_member_error lib order')
        (λ a v. new_member_again lib (order_of m.world) order' a visits v) "validating member" first
        c.state desired c.members m (same_container lib) refl checked accepted in
    let kept' : (validate c m).1.world.lib ≡ lib = ap (λ r. r.1.world.lib) looped ∙ kept in
    let (made, done, (states, there), k) =
      reached lib _ (new_all (members_of c lib order') c.state c.members) (validate c m).1 total
        kept' in
    (
      made.0,
      states,
      new_from c m h
          ∙ ap (λ l. (new_all (members_of c l order') c.state c.members (validate c m).1).0) kept'
          ∙ done
          ∙ ap (λ s. ok (made.0, s)) there,
      new_all-Tied (members_of c lib order') c.members c.state (validate c m).1 made.0 states
          (done ∙ ap (λ s. ok (made.0, s)) there),
    )
