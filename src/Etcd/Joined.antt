-- ===== src/Etcd/Joined.antt =====
-- What etcd lists after its members have been updated (pkg/etcd/cluster.go, pkg/etcd/member.go).
use libflexkube.Base.{
  nat_eq, String, true, none, some, List, [], ◌∷◌, ◌≡◌, refl, sym, ap, ◌∙◌, arith, eq_refl, append,
  inl, inr, Bool-cases, Option-cases, All, Any, some_of_Any, Any-of_some,
}
use mathlib.Core.Path.{subst}
use libflexkube.Base.Map.{Map, lookup, contains}
use libflexkube.Base.Fault.{Result-cases, Error, Result, success, failure}
use libflexkube.Base.Exec.{Action, ok, panic, wrap, ◌>>=◌}
use libflexkube.Base.Exec.Success.{bind_ok, wrap_ok}
use libflexkube.Container.State.{ContainersState}
use libflexkube.Etcd.{
  shares_url, MemberConfig, EtcdMember, EtcdClient, EtcdCall, EtcdReply, member_list, member_add,
  ask, peer_urls, find_id, get_id, add, add_all, remove_all, update_members, members_to_add,
  members_to_remove,
}
use libflexkube.Etcd.Membership.{matches, HasIds, calls_by_id, known_members}
use libflexkube.Etcd.Serving.{add-Keeps, remove_all-Keeps}

-- Every member that is listed after these calls is listed after those, as it was.
abbrev Stays : (List EtcdCall → List EtcdMember) → List EtcdCall → List EtcdCall → Type 0
Stays listed h h' = (e : EtcdMember) → Any (λ x. x ≡ e) (listed h) → Any (λ x. x ≡ e) (listed h')

-- A cluster that answers a listing by the members that the calls so far leave, which have ids other
-- than 0. Listing keeps the members, in any order, and so does adding, after which one with the peer
-- URLs that it was given is listed, wherever.
pub record Serves (answer : List EtcdCall → (c : EtcdCall) → Result (EtcdReply c))
    (listed : List EtcdCall → List EtcdMember) : Type 0 where
  pub lists :
      (h : List EtcdCall) (ms : List EtcdMember)
      → answer h member_list ≡ success ms
      → (ms ≡ listed h) × Stays listed h (member_list ∷ h)
  pub numbers : (h : List EtcdCall) → HasIds (listed h)
  pub adds :
      (h : List EtcdCall) (urls : List String) (u : Unit {0})
      → answer h (member_add urls) ≡ success u
      → Any (λ e. e.peer_urls ≡ urls) (listed (member_add urls ∷ h))
        × Stays listed h (member_add urls ∷ h)

-- A listed member has the name of the member or one of its peer URLs.
abbrev pub IsFound : (String → String → String) → MemberConfig → List EtcdMember → Type 0
IsFound join m es = Any (λ e. matches m (peer_urls join m) e ≡ true) es

own_shared :
    (join : String → String → String) (m : MemberConfig)
    → shares_url (peer_urls join m) (peer_urls join m) ≡ true
unfolding shares_url peer_urls contains
own_shared join m = rw (eq_refl (append "https://" (join m.peer_address "2380"))) refl

url_matches :
    (join : String → String → String) (m : MemberConfig) (es : List EtcdMember)
    → Any (λ e. e.peer_urls ≡ peer_urls join m) es
    → IsFound join m es
url_matches join m [] h = absurd h
url_matches join m (e ∷ es) (inl same) =
    let shared : shares_url e.peer_urls (peer_urls join m) ≡ true =
      ap (λ urls. shares_url urls (peer_urls join m)) same ∙ own_shared join m in
    inl (ground (arith, shared))
url_matches join m (e ∷ es) (inr there) = inr (url_matches join m es there)

Any-known :
    (m : MemberConfig) (own : List String) (P : EtcdMember → Type 0) (es : List EtcdMember)
    → Any (λ e. (matches m own e ≡ true) × P e) es
    → Any (λ e. matches m own e ≡ true) es
Any-known m own P [] h = absurd h
Any-known m own P (e ∷ es) (inl here) = inl here.0
Any-known m own P (e ∷ es) (inr there) = inr (Any-known m own P es there)

abbrev urls_of : MemberConfig → EtcdClient → List String
urls_of m w = peer_urls w.join_host_port m

unlisted :
    (m : MemberConfig) (w : EtcdClient) (e : Error)
    → w.answer w.history member_list ≡ failure e
    → (add m w).0 ≡ ok tt
    → ⊥
unfolding add get_id ask ◌>>=◌
unlisted m w e r q = ground arith

not_added :
    (m : MemberConfig) (w : EtcdClient) (ms : List EtcdMember) (e : Error)
    → w.answer w.history member_list ≡ success ms
    → (add m w).1.history ≡ member_add (urls_of m w) ∷ member_list ∷ w.history
    → w.answer (member_list ∷ w.history) (member_add (urls_of m w)) ≡ failure e
    → (add m w).0 ≡ ok tt
    → ⊥
unfolding add get_id ask ◌>>=◌
not_added m w ms e r calls f q = elim (Bool-cases (nat_eq (find_id m (urls_of m w) ms) 0)) [
  | inl absent ↦ ground arith
  | inr found ↦
      let listed_only : (add m w).1.history ≡ member_list ∷ w.history =
        ground (arith, (calls_by_id m w ms r).0, found) in
      let clash : ◌≡◌ {A = List EtcdCall} (member_list ∷ w.history)
          (member_add (urls_of m w) ∷ member_list ∷ w.history) =
        sym listed_only ∙ calls in
      cc
]

module _ (listed : List EtcdCall → List EtcdMember) where
  IsFound-Stays :
      (join : String → String → String) (m : MemberConfig) (h h' : List EtcdCall)
      → Stays listed h h'
      → IsFound join m (listed h)
      → IsFound join m (listed h')
  IsFound-Stays join m h h' stays found =
      let (e, matching, there) = some_of_Any _ (listed h) found in
      Any-of_some _ e (listed h') matching (stays e there)

  -- A successful add leaves the member found, and keeps the members.
  add-IsFound :
      (m : MemberConfig) (w : EtcdClient)
      → Serves w.answer listed
      → (add m w).0 ≡ ok tt
      → IsFound w.join_host_port m (listed (add m w).1.history)
        × Stays listed w.history (add m w).1.history
  add-IsFound m w s q = elim (Result-cases (w.answer w.history member_list)) [
    | inr (e, r) ↦ absurd (unlisted m w e r q)
    | inl (ms, r) ↦
        let (whole, stays) = s.lists w.history ms r in
        let ids = subst HasIds (sym whole) (s.numbers w.history) in
        let join = w.join_host_port in
        elim (known_members m w ms r ids) [
          | inl (known, calls) ↦
              let found : IsFound join m (listed w.history) =
                subst (IsFound join m) whole (Any-known m (urls_of m w) _ ms known) in
              (
                rw calls (IsFound-Stays join m w.history (member_list ∷ w.history) stays found),
                rw calls stays,
              )
          | inr (unknown, _, calls) ↦
              elim (Result-cases (w.answer (member_list ∷ w.history) (member_add (urls_of m w)))) [
                | inr (e, f) ↦ absurd (not_added m w ms e r calls f q)
                | inl (u, f) ↦
                    let (there, kept) = s.adds (member_list ∷ w.history) (urls_of m w) u f in
                    (
                      rw calls (url_matches join m _ there),
                      rw calls (λ e here. kept e (stays e here)),
                    )
              ]
        ]
  ]

  -- A member that is found stays found.
  add_stays :
      (m other : MemberConfig) (join : String → String → String) (w : EtcdClient)
      → Serves w.answer listed
      → (add m w).0 ≡ ok tt
      → IsFound join other (listed w.history)
      → IsFound join other (listed (add m w).1.history)
  add_stays m other join w s q found =
      IsFound-Stays join other w.history (add m w).1.history (add-IsFound m w s q).1 found

  two_steps :
      (x y : Action EtcdClient) (w : EtcdClient) → (x w).0 ≡ ok tt → (x >>= λ u. y) w ≡ y (x w).1
  unfolding ◌>>=◌
  two_steps x y w q = rw q refl

  -- The names are those of members that are found.
  abbrev AllFound :
      Map MemberConfig → (String → String → String) → List String → List EtcdMember → Type 0
  AllFound members join names es =
      All (λ name. (m : MemberConfig) × (lookup members name ≡ some m) × IsFound join m es) names

  with_member :
      (members : Map MemberConfig) (name : String) (names : List String) (m : MemberConfig)
      (w : EtcdClient)
      → lookup members name ≡ some m
      → add_all members (name ∷ names) w
        ≡ (wrap "adding member" (add m) >>= λ u. add_all members names) w
  unfolding add_all ◌>>=◌
  with_member members name names m w there = rw (add_all, there) refl

  without_member :
      (members : Map MemberConfig) (name : String) (names : List String) (w : EtcdClient)
      → lookup members name ≡ none
      → (add_all members (name ∷ names) w).0 ≡ ok tt
      → ⊥
  unfolding add_all ◌>>=◌
  without_member members name names w missing q =
      let crashed : (add_all members (name ∷ names) w).0 ≡ panic = rw (add_all, missing) refl in cc

  ends_later :
      (m : MemberConfig) (rest : Action EtcdClient) (w : EtcdClient)
      → (add m w).0 ≡ ok tt
      → (wrap "adding member" (add m) >>= λ u. rest) w ≡ rest (add m w).1
  unfolding ◌>>=◌
  ends_later m rest w q = rw q refl

  nothing_added :
      (other : MemberConfig) (w : EtcdClient) (members : Map MemberConfig)
      → (add_all members [] w).1 ≡ w
  unfolding add_all ◌>>=◌
  nothing_added other w members = refl

  add_all-AllFound :
      (members : Map MemberConfig) (names : List String) (join : String → String → String)
      (w : EtcdClient)
      → w.join_host_port ≡ join
      → Serves w.answer listed
      → (add_all members names w).0 ≡ ok tt
      → AllFound members join names (listed (add_all members names w).1.history)
        × ((other : MemberConfig)
            → IsFound join other (listed w.history)
            → IsFound join other (listed (add_all members names w).1.history))
  add_all-AllFound members [] join w j s q = (tt, λ other h. rw (nothing_added other w members) h)
  add_all-AllFound members (name ∷ names) join w j s q = elim (Option-cases (lookup members name)) [
    | inl missing ↦ absurd (without_member members name names w missing q)
    | inr (m, there) ↦
        let step = with_member members name names m w there in
        let (u, added, more) =
          bind_ok (λ u. add_all members names) tt (wrap "adding member" (add m)) w
            (ap (λ r. r.0) (sym step) ∙ q) in
        let added' = wrap_ok "adding member" (add m) w tt added in
        let same = step ∙ ends_later m (add_all members names) w added' in
        let kept = (add-Keeps {answer = w.answer} {join = join} m).at w (refl, j) in
        let s' : Serves (add m w).1.answer listed = subst (λ a. Serves a listed) (sym kept.0) s in
        let (found, stays) =
          add_all-AllFound members names join (add m w).1 kept.1 s'
            (ap (λ r. r.0) (sym same) ∙ q) in
        let now : IsFound join m (listed (add m w).1.history) =
          subst (λ k. IsFound k m (listed (add m w).1.history)) j (add-IsFound m w s added').0 in
        (
          (
            (m, there, subst (λ r. IsFound join m (listed r.1.history)) (sym same) (stays m now)),
            subst (λ r. AllFound members join names (listed r.1.history)) (sym same) found,
          ),
          λ other h. rw same (stays other (add_stays m other join w s added' h)),
        )
  ]

  -- With an etcd that answers a listing by the members which the calls so far leave, gives them ids
  -- other than 0, keeps its members as they are in a listing and in an addition, and after an
  -- addition lists, wherever, a member with the peer URLs it was given, a successful updateMembers
  -- leaves every member to add known to the cluster: the list that etcd then has holds a member
  -- with its name or one of its peer URLs.
  pub update_members-AllFound :
      (members : Map MemberConfig) (previous desired : ContainersState) (w : EtcdClient)
      → Serves w.answer listed
      → (update_members members previous desired w).0 ≡ ok tt
      → All
          (λ name.
            (m : MemberConfig) × (lookup members name ≡ some m)
            × IsFound w.join_host_port m
                (listed (update_members members previous desired w).1.history))
          (members_to_add previous desired)
  unfolding update_members
  update_members-AllFound members previous desired w s q =
      let removal = remove_all (members_to_remove previous desired) in
      let (u, removed, added) =
        bind_ok (λ u. add_all members (members_to_add previous desired)) tt removal w q in
      let kept =
        (remove_all-Keeps {answer = w.answer} {join = w.join_host_port}
            (members_to_remove previous desired)).at
          w (refl, refl) in
      let s' : Serves (removal w).1.answer listed = subst (λ a. Serves a listed) (sym kept.0) s in
      rw (two_steps removal (add_all members (members_to_add previous desired)) w removed)
        (add_all-AllFound members (members_to_add previous desired) w.join_host_port (removal w).1
          kept.1 s' added).0
