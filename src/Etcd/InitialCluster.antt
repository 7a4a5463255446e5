-- ===== src/Etcd/InitialCluster.antt =====
-- The initial cluster of a member with a name of its own (pkg/etcd/cluster.go).
use libflexkube.Base.{
  String, true, false, Option, none, some, List, [], ◌∷◌, ◌==◌, ◌≡◌, refl, eq_iff, append, arith,
  Option-cases, Bool-cases, inl, inr, ap, ◌∙◌, sym,
}
use libflexkube.Base.Map.{Map}
use libflexkube.Util.{join_commas, pick_string, sort_strings}
use libflexkube.Pki.{Pki}
use libflexkube.Etcd.{MemberConfig}
use libflexkube.Etcd.Member.{around}
use libflexkube.Etcd.Cluster.{
  ClusterConfig, initial_members, certificate_of, with_etcd_pki, with_pki, with_settings,
  with_addresses, propagate_member,
}

-- The entry of a member under this name.
abbrev pub entry_of : String → MemberConfig → String
entry_of name m = append name (around "=https://" m.peer_address ":2380")

-- One entry for each member, in their order, all under this name.
abbrev pub entries_under : String → Map MemberConfig → List String
entries_under name [] = []
entries_under name ((n, m) ∷ members) = entry_of name m ∷ entries_under name members

initial_members_lem :
    (own : String) (members : Map MemberConfig)
    → (own == "") ≡ false
    → initial_members own members ≡ entries_under own members
unfolding initial_members pick_string
initial_members_lem own [] h = refl
initial_members_lem own ((n, m) ∷ members) h = rw (initial_members_lem own members h, h) refl

pki_stays :
    (c : ClusterConfig) (p : Option Pki) (m m' : MemberConfig)
    → c.pki ≡ p
    → with_pki c m ≡ some m'
    → m'.initial_cluster ≡ m.initial_cluster
unfolding with_pki with_etcd_pki certificate_of
pki_stays c p m m' e h = ground arith

second_picked : (s t : String) → (s == "") ≡ true → pick_string (s ∷ t ∷ []) ≡ t
unfolding pick_string
second_picked s t h = elim (Bool-cases (t == "")) [
  | inl e ↦ rw (h, e) (sym ((eq_iff t "").0 e))
  | inr e ↦ rw (h, e) refl
]

fails :
    (c : ClusterConfig) (name : String) (m m' : MemberConfig)
    → with_pki c (with_settings c name m) ≡ none
    → propagate_member c name m ≡ some m'
    → ⊥
unfolding propagate_member
fails c name m m' crashed h = cc

filled_in :
    (c : ClusterConfig) (name : String) (m m' filled : MemberConfig)
    → with_pki c (with_settings c name m) ≡ some filled
    → propagate_member c name m ≡ some m'
    → (m.initial_cluster == "") ≡ true
    → m'.initial_cluster ≡ join_commas (sort_strings (initial_members m.name c.members))
unfolding propagate_member with_addresses with_settings pick_string
filled_in c name m m' filled q h empty =
    let kept = pki_stays c c.pki (with_settings c name m) filled refl q in
    let same : with_addresses c filled ≡ m' = cc in
    ap (λ x. x.initial_cluster) (sym same)
    ∙ kept
    ∙ second_picked m.initial_cluster
        (join_commas (sort_strings (initial_members m.name c.members))) empty

-- Where a member of an etcd cluster has a Name field and no initial cluster of its own, the initial
-- cluster that it gets is the sorted list of one entry for each member of the cluster, with the
-- peer address of that member under the name of the member that is filled, and not under its own
-- name, whatever the PKI is.
pub propagate_member-entries_under :
    (c : ClusterConfig) (name : String) (m m' : MemberConfig)
    → propagate_member c name m ≡ some m'
    → (m.initial_cluster == "") ≡ true
    → (m.name == "") ≡ false
    → m'.initial_cluster ≡ join_commas (sort_strings (entries_under m.name c.members))
unfolding propagate_member
propagate_member-entries_under c name m m' h empty named =
    elim (Option-cases (with_pki c (with_settings c name m))) [
      | inl crashed ↦ absurd (fails c name m m' crashed h)
      | inr (filled, q) ↦
          filled_in c name m m' filled q h empty
          ∙ ap (λ es. join_commas (sort_strings es)) (initial_members_lem m.name c.members named)
    ]
