-- ===== src/Etcd/Serving.antt =====
-- What the operations on members leave alone (pkg/etcd/cluster.go, pkg/etcd/member.go).
use libflexkube.Base.{String, List, [], ◌∷◌, ◌≡◌}
use libflexkube.Base.Fault.{Result}
use libflexkube.Base.Exec.{◌>>=◌}
use libflexkube.Base.Exec.Keeps.{Keeps, keeps_rules}
use libflexkube.Etcd.{
  MemberConfig, EtcdClient, EtcdCall, EtcdReply, ask, get_id, add, remove, remove_all,
}

-- The calls of a client change neither the cluster that answers nor how addresses are joined.
abbrev pub Serving :
    (List EtcdCall → (c : EtcdCall) → Result (EtcdReply c))
    → (String → String → String)
    → EtcdClient
    → Type 0
Serving answer join w = (w.answer ≡ answer) × (w.join_host_port ≡ join)

module _ {answer : List EtcdCall → (c : EtcdCall) → Result (EtcdReply c)}
    {join : String → String → String} where
  ask-Keeps : (c : EtcdCall) → Keeps (Serving answer join) (ask c)
  unfolding ask
  ask-Keeps c = record { at = λ w p. p }

  get_id-Keeps : (m : MemberConfig) → Keeps (Serving answer join) (get_id m)
  unfolding get_id
  get_id-Keeps m = search (keeps_rules, ask-Keeps) depth 10

  pub add-Keeps : (m : MemberConfig) → Keeps (Serving answer join) (add m)
  unfolding add ◌>>=◌ get_id ask
  add-Keeps m = search (keeps_rules, get_id-Keeps) depth 12

  remove-Keeps : (m : MemberConfig) → Keeps (Serving answer join) (remove m)
  unfolding remove ◌>>=◌ get_id ask
  remove-Keeps m = search (keeps_rules, get_id-Keeps) depth 12

  pub remove_all-Keeps : (names : List String) → Keeps (Serving answer join) (remove_all names)
  unfolding remove_all
  remove_all-Keeps [] = search keeps_rules
  remove_all-Keeps (name ∷ names) =
      let rest = remove_all-Keeps names in search (keeps_rules, remove-Keeps) depth 10
