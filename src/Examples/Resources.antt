-- ===== src/Examples/Resources.antt =====
-- The theorems on etcd clusters and load balancers at concrete inputs.
use libflexkube.Base.{
  Option, ◌==◌, nat_eq, String, false, none, some, List, [], ◌∷◌, ◌++◌, ◌≡◌, refl, All, Any, inl,
  inr, ℕ, append,
}
use libflexkube.Base.Map.{Map, lookup}
use libflexkube.Base.Fault.{Result, success}
use libflexkube.Base.Exec.{ok, ◌>>=◌, zoom}
use libflexkube.Container.State.{ContainersState, StateMap}
use libflexkube.Examples.Inputs.{library, memory, direct_host}
use libflexkube.Examples.Opened.{
  open_util, open_host, open_docker, open_single, open_hcc, open_deploy, open_resources, open_etcd,
}
use libflexkube.LoadBalancer.{LoadBalancer, LoadBalancers}
use libflexkube.LoadBalancer
use libflexkube.Etcd.InitialCluster.{entries_under, propagate_member-entries_under}
use libflexkube.Util.{join_commas, sort_strings}
use libflexkube.Etcd.Cluster.{propagate_member}
use libflexkube.Kubeconfig.{ClientConfig}
use libflexkube.Kubeconfig.Auth.{HasOneAuth, validate_config-HasOneAuth}
use libflexkube.Examples.Opened.{open_kubeconfig}
use libflexkube.Examples.Inputs.{library}
use libflexkube.LoadBalancer.Renewed.{new_after_validate}
use libflexkube.Etcd.{
  MemberConfig, EtcdMember, EtcdClient, EtcdCall, EtcdReply, named, member_list, member_add,
  member_remove, new_client, close, update_members, members_to_add,
}
use libflexkube.Etcd.Cluster.{ClusterConfig}
use libflexkube.Etcd.Cluster
use libflexkube.Etcd.Renewed.{IsBuiltOf, new-validate}
use libflexkube.Resource.Named.{Shown}
use libflexkube.Resource.{numbered}
use libflexkube.Etcd.Joined.{Serves, IsFound, update_members-AllFound}

abbrev balancers : LoadBalancers
balancers = record {
  image = "";
  ssh = none;
  servers = "10.0.0.1:6443" ∷ "10.0.0.2:6443" ∷ [];
  load_balancers =
      record {
        image = "";
        host = direct_host;
        servers = [];
        name = "";
        host_config_path = "";
        bind_address = "0.0.0.0:6443";
      }
      ∷ [];
  name = "lb";
  host_config_path = "";
  bind_address = "";
  state = [];
}

new_after_validate_example :
    (states : StateMap × StateMap) × ((LoadBalancer.new balancers memory).0 ≡ ok (some states))
    × Shown balancers.state states.0
    × Shown (numbered library 0 balancers.load_balancers) states.1
unfolding open_util open_host open_docker open_single open_hcc open_deploy open_resources ◌>>=◌ zoom
new_after_validate_example = new_after_validate balancers memory refl

abbrev infra : MemberConfig
infra = record (named "infra") {
  host = direct_host;
  ca_certificate = "ca";
  peer_certificate = "peer";
  peer_key = "key";
  peer_address = "10.0.0.1";
  server_certificate = "server";
  server_key = "key";
}

abbrev cluster : ClusterConfig
cluster = record {
  image = "";
  ssh = none;
  ca_certificate = "ca";
  peer_cert_allowed_cn = "";
  members = ("infra", infra) ∷ [];
  pki = none;
  state = [];
  extra_mounts = [];
}

new-validate_example :
    (members : Map MemberConfig) × (states : StateMap × StateMap) × ((Cluster.new cluster memory).0
      ≡ ok (members, some states))
    × IsBuiltOf cluster members states
unfolding open_util open_host open_docker open_single open_hcc open_deploy open_resources ◌>>=◌ zoom
new-validate_example = new-validate cluster memory (λ ks k h. h) refl

-- A listed member that has not started: it has no name yet.
abbrev joined : ℕ → List String → EtcdMember
joined id urls = record { id = id; name = ""; peer_urls = urls }

-- A cluster that lists the members added, the newest last.
abbrev members_after : List EtcdCall → List EtcdMember
members_after [] = record { id = 7; name = "infra"; peer_urls = "https://10.0.0.1:2380" ∷ [] } ∷ []
members_after (member_add urls ∷ h) = members_after h ++ joined 8 urls ∷ []
members_after (member_list ∷ h) = members_after h
members_after (c ∷ h) = members_after h

abbrev serving : List EtcdCall → (c : EtcdCall) → Result (EtcdReply c)
serving h member_list = success (members_after h)
serving h (member_add urls) = success tt
serving h (member_remove id) = success tt
serving h (new_client endpoints certificate key ca) = success tt
serving h close = success tt

HasId : List EtcdMember → Type 0
HasId es = All (λ e. nat_eq e.id 0 ≡ false) es

HasId-joined :
    (es : List EtcdMember) (urls : List String) → HasId es → HasId (es ++ joined 8 urls ∷ [])
unfolding HasId
HasId-joined [] urls h = (refl, tt)
HasId-joined (e ∷ es) urls h = (h.0, HasId-joined es urls h.1)

HasId-members_after : (h : List EtcdCall) → HasId (members_after h)
unfolding HasId
HasId-members_after [] = (refl, tt)
HasId-members_after (member_add urls ∷ h) =
    HasId-joined (members_after h) urls (HasId-members_after h)
HasId-members_after (member_list ∷ h) = HasId-members_after h
HasId-members_after (member_remove id ∷ h) = HasId-members_after h
HasId-members_after (new_client endpoints certificate key ca ∷ h) = HasId-members_after h
HasId-members_after (close ∷ h) = HasId-members_after h

kept_in :
    (e x : EtcdMember) (es : List EtcdMember)
    → Any (λ y. y ≡ e) es
    → Any (λ y. y ≡ e) (es ++ x ∷ [])
kept_in e x [] h = absurd h
kept_in e x (y ∷ es) (inl here) = inl here
kept_in e x (y ∷ es) (inr there) = inr (kept_in e x es there)

there_last :
    (urls : List String) (es : List EtcdMember)
    → Any (λ e. e.peer_urls ≡ urls) (es ++ joined 8 urls ∷ [])
there_last urls [] = inl refl
there_last urls (e ∷ es) = inr (there_last urls es)

serves : Serves serving members_after
unfolding HasId
serves = record {
  lists = λ h ms q. (cc, λ e there. there);
  numbers = HasId-members_after;
  adds = λ h urls u q. (
    there_last urls (members_after h),
    λ e there. kept_in e (joined 8 urls) (members_after h) there,
  );
}

abbrev etcd : EtcdClient
etcd = record { join_host_port = λ h p. append h (append ":" p); answer = serving; history = [] }

abbrev grown : Map MemberConfig
grown = ("infra", infra) ∷ ("more", record infra { name = "more"; peer_address = "10.0.0.2" }) ∷ []

abbrev one : ContainersState
one = ("infra", none) ∷ []

abbrev two : ContainersState
two = ("infra", none) ∷ ("more", none) ∷ []

update_members-AllFound_example :
    All
      (λ name.
        (m : MemberConfig) × (lookup grown name ≡ some m)
        × IsFound etcd.join_host_port m
            (members_after (update_members grown one two etcd).1.history))
      (members_to_add one two)
unfolding open_util open_etcd ◌>>=◌
update_members-AllFound_example =
    update_members-AllFound members_after grown one two etcd serves refl

abbrev by_token : ClientConfig
by_token = record {
  server = "10.0.0.1:6443";
  ca_certificate = "ca";
  client_certificate = "";
  client_key = "";
  token = "abcdef.0123456789abcdef";
}

validate_config-HasOneAuth_example :
    ((by_token.server == "") ≡ false)
    × ((by_token.ca_certificate == "") ≡ false)
    × HasOneAuth by_token
unfolding open_util open_resources open_kubeconfig
validate_config-HasOneAuth_example = validate_config-HasOneAuth library by_token refl

-- A member whose key is not its name, beside another one.
abbrev renamed : ClusterConfig
renamed = record cluster {
  members = ("a", infra) ∷ ("b", record infra { name = ""; peer_address = "10.0.0.2" }) ∷ [];
}

abbrev filled : Option MemberConfig → MemberConfig
filled none = infra
filled (some m) = m

propagate_member-entries_under_example :
    (filled (propagate_member renamed "a" infra)).initial_cluster
    ≡ join_commas (sort_strings (entries_under "infra" renamed.members))
unfolding open_util open_resources
propagate_member-entries_under_example =
    propagate_member-entries_under renamed "a" infra (filled (propagate_member renamed "a" infra))
      refl refl refl
