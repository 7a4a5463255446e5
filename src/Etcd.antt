-- ===== src/Etcd.antt =====
-- Membership of an etcd cluster (pkg/etcd/cluster.go, pkg/etcd/member.go): which members are removed
-- and added before containers are deployed. The etcd client is a parameter: each call is recorded,
-- and its reply may depend on all the calls before it.
pub mod Member
pub mod Cluster
pub mod Deployment
pub mod Renewed
pub mod Serving
pub mod Joined
pub mod InitialCluster
pub mod Membership
use libflexkube.Base.{
  ℕ, nat_eq, String, Bool, true, false, not, Option, none, some, List, [], ◌∷◌, ◌++◌, ◌==◌,
  if◌then◌else◌, append, ◌||◌,
}
use libflexkube.Base.Map.{Map, lookup, has, contains}
use libflexkube.Base.Fault.{Error, Result}
use libflexkube.Base.Exec.{Exec, Action, of_result, pure, must, wrap, gets, ◌>>=◌, ◌>>◌}
use libflexkube.Host.Config.{Host}
use libflexkube.Container.Types.{Mount}
use libflexkube.Container.State.{ContainersState}

-- etcdserverpb.Member, as far as the code reads it.
pub record EtcdMember : Type 0 where
  pub id : ℕ
  pub name : String
  pub peer_urls : List String

-- The calls of the interface etcdClient, and the one that makes a client.
pub data EtcdCall : Type 0 where
  member_list : EtcdCall
  member_add : List String → EtcdCall
  member_remove : ℕ → EtcdCall
  -- clientv3.New of endpoints, peer certificate, peer key and CA certificate; client.Close
  new_client : List String → String → String → String → EtcdCall
  close : EtcdCall

abbrev pub EtcdReply : EtcdCall → Type 0
EtcdReply member_list = List EtcdMember
EtcdReply (member_add urls) = Unit
EtcdReply (member_remove id) = Unit
EtcdReply (new_client endpoints certificate key ca) = Unit
EtcdReply close = Unit

-- An etcd client, with net.JoinHostPort.
pub record EtcdClient : Type 0 where
  pub join_host_port : String → String → String
  pub answer : List EtcdCall → (c : EtcdCall) → Result (EtcdReply c)
  pub history : List EtcdCall

unfoldable pub ask : (c : EtcdCall) → Exec EtcdClient (EtcdReply c)
ask c w = (of_result (w.answer w.history c), record w { history = c ∷ w.history })

pub record MemberConfig : Type 0 where
  pub name : String
  pub image : String
  pub host : Host
  pub ca_certificate : String
  pub peer_certificate : String
  pub peer_key : String
  pub peer_address : String
  pub initial_cluster : String
  pub peer_cert_allowed_cn : String
  pub server_certificate : String
  pub server_key : String
  pub server_address : String
  pub new_cluster : Bool
  pub extra_mounts : List Mount

-- &MemberConfig{Name: name}
abbrev pub named : String → MemberConfig
named name = record {
  name = name;
  image = "";
  host = record { direct_config = none; ssh_config = none };
  ca_certificate = "";
  peer_certificate = "";
  peer_key = "";
  peer_address = "";
  initial_cluster = "";
  peer_cert_allowed_cn = "";
  server_certificate = "";
  server_key = "";
  server_address = "";
  new_cluster = false;
  extra_mounts = [];
}

-- member.peerURLs
unfoldable pub peer_urls : (String → String → String) → MemberConfig → List String
peer_urls join m = append "https://" (join m.peer_address "2380") ∷ []

-- The two inner loops of getID.
unfoldable pub shares_url : List String → List String → Bool
shares_url [] own = false
shares_url (p ∷ ps) own = contains own p || shares_url ps own

-- The loop of getID: 0 where no member matches.
unfoldable pub find_id : MemberConfig → List String → List EtcdMember → ℕ
find_id m own [] = 0
find_id m own (e ∷ es) =
    if e.name == m.name then e.id else if shares_url e.peer_urls own then e.id else find_id m own es

-- member.getID
unfoldable pub get_id : MemberConfig → Exec EtcdClient ℕ
get_id m = do
  members ← wrap "listing existing cluster members" (ask member_list)
  join ← gets (λ w. w.join_host_port)
  pure (find_id m (peer_urls join m) members)

-- member.add
unfoldable pub add : MemberConfig → Action EtcdClient
add m = do
  id ← wrap "getting member ID" (get_id m)
  join ← gets (λ w. w.join_host_port)
  if not (nat_eq id 0)
      then pure tt
      else wrap "adding new member to the cluster" (ask (member_add (peer_urls join m)))

-- member.remove
unfoldable pub remove : MemberConfig → Action EtcdClient
remove m = do
  id ← wrap "getting member ID" (get_id m)
  if nat_eq id 0 then pure tt else wrap "removing member" (ask (member_remove id))

-- The names of the first state that the second does not have, in the order of the first.
unfoldable pub missing_from : ContainersState → ContainersState → List String
missing_from [] other = []
missing_from ((name, c) ∷ s) other =
    let rest = missing_from s other in if has other name then rest else name ∷ rest

-- cluster.membersToRemove, membersToAdd, of the exported states
unfoldable pub members_to_remove : ContainersState → ContainersState → List String
members_to_remove previous desired = missing_from previous desired

unfoldable pub members_to_add : ContainersState → ContainersState → List String
members_to_add previous desired = missing_from desired previous

-- The first loop of updateMembers, of members that have a name only.
unfoldable pub remove_all : List String → Action EtcdClient
remove_all [] = pure tt
remove_all (name ∷ names) = do wrap "removing member" (remove (named name)); remove_all names

-- The second loop; a name without a member panics.
unfoldable pub add_all : Map MemberConfig → List String → Action EtcdClient
add_all members [] = pure tt
add_all members (name ∷ names) = do
  m ← must (lookup members name)
  wrap "adding member" (add m)
  add_all members names

-- cluster.updateMembers
unfoldable pub update_members :
    Map MemberConfig → ContainersState → ContainersState → Action EtcdClient
update_members members previous desired = do
  remove_all (members_to_remove previous desired)
  add_all members (members_to_add previous desired)
