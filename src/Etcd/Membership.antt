-- ===== src/Etcd/Membership.antt =====
-- Who is removed and added (pkg/etcd/cluster.go, pkg/etcd/member.go).
use libflexkube.Base.{
  ℕ, nat_eq, String, Bool, true, false, not, List, [], ◌∷◌, ◌==◌, ◌≡◌, refl, arith, eq_iff, ◌&&◌,
  if◌then◌else◌, ◌⊎◌, inl, inr, Bool-cases, ◌||◌, All, Any, ap, sym, ◌∙◌,
}
use mathlib.Core.Path.{subst}
use libflexkube.Base.Map.{lookup, has, contains}
use libflexkube.Base.Fault.{success}
use libflexkube.Base.Exec.{◌>>=◌}
use libflexkube.Container.State.{ContainersState}
use libflexkube.Etcd.{
  shares_url, MemberConfig, EtcdMember, EtcdClient, EtcdCall, member_list, member_add,
  member_remove, ask, peer_urls, find_id, get_id, add, remove, missing_from, members_to_remove,
  members_to_add,
}

contains-missing_from :
    (s other : ContainersState) (name : String)
    → contains (missing_from s other) name ≡ (has s name && not (has other name))
unfolding missing_from contains lookup
contains-missing_from [] other name = refl
contains-missing_from ((n, c) ∷ s) other name =
    ground (arith, contains-missing_from s other name, eq_iff n name)

-- The members to remove are those of the previous state that are not desired, and the members to
-- add are those desired that the previous state does not have.
pub contains-members :
    (previous desired : ContainersState) (name : String)
    → (contains (members_to_remove previous desired) name
        ≡ (has previous name && not (has desired name)))
      × (contains (members_to_add previous desired) name
          ≡ (has desired name && not (has previous name)))
unfolding members_to_remove members_to_add
contains-members previous desired name =
    (contains-missing_from previous desired name, contains-missing_from desired previous name)

-- Whether a listed member has the name of the member, or one of its peer URLs.
abbrev pub matches : MemberConfig → List String → EtcdMember → Bool
matches m own e = (e.name == m.name) || shares_url e.peer_urls own

abbrev pub HasIds : List EtcdMember → Type 0
HasIds es = All (λ e. nat_eq e.id 0 ≡ false) es

-- The search finds the id of a listed member that matches, or 0 where none does.
find_id_cases :
    (m : MemberConfig) (own : List String) (es : List EtcdMember)
    → HasIds es
    → (Any (λ e. (matches m own e ≡ true) × (find_id m own es ≡ e.id)) es
        × (nat_eq (find_id m own es) 0 ≡ false))
      ⊎ (All (λ e. matches m own e ≡ false) es × (find_id m own es ≡ 0))
unfolding find_id
find_id_cases m own [] h = inr (tt, refl)
find_id_cases m own (e ∷ es) (has_id, h) = elim (Bool-cases (matches m own e)) [
  | inl matching ↦ inl (inl (matching, ground arith), ground arith)
  | inr other ↦
      let passed : find_id m own (e ∷ es) ≡ find_id m own es = ground arith in
      elim (find_id_cases m own es h) [
        | inl (there, found) ↦ inl (
          inr (subst (λ i. Any (λ e. (matches m own e ≡ true) × (i ≡ e.id)) es) (sym passed) there),
          rw passed found,
        )
        | inr (none_here, zero) ↦ inr ((other, none_here), passed ∙ zero)
      ]
]

-- The calls of add and remove, by the id that is found.
pub calls_by_id :
    (m : MemberConfig) (w : EtcdClient) (members : List EtcdMember)
    → w.answer w.history member_list ≡ success members
    → ((add m w).1.history ≡ (
        if nat_eq (find_id m (peer_urls w.join_host_port m) members) 0
        then member_add (peer_urls w.join_host_port m) ∷ member_list ∷ w.history
        else member_list ∷ w.history))
      × ((remove m w).1.history ≡ (
          if nat_eq (find_id m (peer_urls w.join_host_port m) members) 0
          then member_list ∷ w.history
          else member_remove (find_id m (peer_urls w.join_host_port m) members)
            ∷ member_list
            ∷ w.history))
unfolding add remove get_id ask ◌>>=◌
calls_by_id m w members h = (ground arith, ground arith)

removes :
    (m : MemberConfig) (own : List String) (id : ℕ) (h : List EtcdCall) (calls : List EtcdCall)
    (es : List EtcdMember)
    → calls ≡ member_remove id ∷ h
    → Any (λ e. (matches m own e ≡ true) × (id ≡ e.id)) es
    → Any (λ e. (matches m own e ≡ true) × (calls ≡ member_remove e.id ∷ h)) es
removes m own id h calls [] q there = absurd there
removes m own id h calls (e ∷ es) q (inl (matching, same)) =
    inl (matching, q ∙ ap (λ i. member_remove i ∷ h) same)
removes m own id h calls (e ∷ es) q (inr there) = inr (removes m own id h calls es q there)

-- With the list of members that the cluster returns, all of which have ids other than 0, either a
-- listed member has the name of the member or one of its peer URLs, and then add makes no call but
-- the listing and remove makes one more, with the id of such a listed member, or no listed member
-- has, and then add makes one call more, with the peer URLs of the member, and remove makes none
-- but the listing.
pub known_members :
    (m : MemberConfig) (w : EtcdClient) (members : List EtcdMember)
    → w.answer w.history member_list ≡ success members
    → HasIds members
    → (Any
          (λ e.
            (matches m (peer_urls w.join_host_port m) e ≡ true)
            × ((remove m w).1.history ≡ member_remove e.id ∷ member_list ∷ w.history))
          members
        × ((add m w).1.history ≡ member_list ∷ w.history))
      ⊎ (All (λ e. matches m (peer_urls w.join_host_port m) e ≡ false) members
          × ((remove m w).1.history ≡ member_list ∷ w.history)
          × ((add m w).1.history
              ≡ member_add (peer_urls w.join_host_port m) ∷ member_list ∷ w.history))
known_members m w members h ids =
    let own = peer_urls w.join_host_port m in
    let (added, removed) = calls_by_id m w members h in
    elim (find_id_cases m own members ids) [
      | inl (there, found) ↦ inl (
        removes m own (find_id m own members) (member_list ∷ w.history) (remove m w).1.history
            members (ground (arith, removed, found)) there,
        ground (arith, added, found),
      )
      | inr (nobody, zero) ↦
          inr (nobody, ground (arith, removed, zero), ground (arith, added, zero))
    ]
