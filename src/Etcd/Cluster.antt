-- ===== src/Etcd/Cluster.antt =====
-- The user's side of an etcd cluster: the settings that its members take over, its validation and
-- its construction (pkg/etcd/cluster.go).
use libflexkube.Base.{
  String, true, Option, none, some, List, [], ◌∷◌, ◌==◌, if◌then◌else◌, append, is_empty, ◌&&◌,
}
use libflexkube.Base.Map.{Map, lookup}
use libflexkube.Base.Fault.{Error, errorf, wrapf, error_of}
use libflexkube.Base.Exec.{Exec, pure, fail, gets, ◌>>=◌}
use libflexkube.Util.{join_commas, pick_string, sort_strings}
use libflexkube.World.{Library}
use libflexkube.Host.Config.{SshConfig, build_config}
use libflexkube.Container.Types.{Mount}
use libflexkube.Container.State.{ContainersState, StateMap}
use libflexkube.Memory.{Memory}
use libflexkube.Pki.{Certificate, EtcdPki, Pki, decode_x509_certificate}
use libflexkube.Resource.{Kind, validate_all, new_all}
use libflexkube.Etcd.{MemberConfig}
use libflexkube.Etcd.Member.{around, to_host_configured_container, new_member_error}

-- etcd.Cluster
pub record ClusterConfig : Type 0 where
  pub image : String
  pub ssh : Option SshConfig
  pub ca_certificate : String
  pub peer_cert_allowed_cn : String
  pub members : Map MemberConfig
  pub pki : Option Pki
  pub state : ContainersState
  pub extra_mounts : List Mount

abbrev pub etcd_image : String
etcd_image = "quay.io/coreos/etcd:v3.5.4"

-- The loop of propagateMember, for a member with this Name field.
unfoldable pub initial_members : String → Map MemberConfig → List String
initial_members own [] = []
initial_members own ((n, m) ∷ members) =
    append (pick_string (own ∷ n ∷ [])) (around "=https://" m.peer_address ":2380")
    ∷ initial_members own members

-- The certificate of a name, where a nil pointer panics.
unfoldable pub certificate_of : Map (Option Certificate) → String → Option (Option Certificate)
certificate_of certificates name = elim (lookup certificates name) [
  | none ↦ some none
  | some none ↦ none
  | some (some c) ↦ some (some c)
]

-- The two values of a certificate, if there is one.
x509_of : Option Certificate → String
x509_of none = ""
x509_of (some c) = c.x509_certificate

key_of : Option Certificate → String
key_of none = ""
key_of (some c) = c.private_key

-- The fields that the PKI fills, and a panic where one of its pointers is nil.
unfoldable pub with_etcd_pki : ClusterConfig → EtcdPki → MemberConfig → Option MemberConfig
unfolding x509_of key_of
with_etcd_pki c pki m = elim pki.ca [
  | none ↦ none
  | some ca ↦ elim (certificate_of pki.peer_certificates m.name) [
    | none ↦ none
    | some peer ↦ elim (certificate_of pki.server_certificates m.name) [
      | none ↦ none
      | some server ↦ some (record m {
        ca_certificate =
            pick_string (m.ca_certificate ∷ c.ca_certificate ∷ ca.x509_certificate ∷ []);
        peer_certificate = pick_string (m.peer_certificate ∷ x509_of peer ∷ []);
        peer_key = pick_string (m.peer_key ∷ key_of peer ∷ []);
        server_certificate = pick_string (m.server_certificate ∷ x509_of server ∷ []);
        server_key = pick_string (m.server_key ∷ key_of server ∷ []);
      })
    ]
  ]
]

unfoldable pub with_pki : ClusterConfig → MemberConfig → Option MemberConfig
with_pki c m = elim c.pki [
  | none ↦ some m
  | some pki ↦ elim pki.etcd [ none ↦ some m | some etcd ↦ with_etcd_pki c etcd m ]
]

-- The fields that are filled before the PKI is read.
unfoldable pub with_settings : ClusterConfig → String → MemberConfig → MemberConfig
with_settings c name m = record m {
  name = pick_string (m.name ∷ name ∷ []);
  image = pick_string (m.image ∷ c.image ∷ etcd_image ∷ []);
  initial_cluster =
      pick_string
        (m.initial_cluster ∷ join_commas (sort_strings (initial_members m.name c.members)) ∷ []);
  peer_cert_allowed_cn = pick_string (m.peer_cert_allowed_cn ∷ c.peer_cert_allowed_cn ∷ []);
  ca_certificate = pick_string (m.ca_certificate ∷ c.ca_certificate ∷ []);
  extra_mounts = if is_empty m.extra_mounts then c.extra_mounts else m.extra_mounts;
}

-- Those that are filled after it.
unfoldable pub with_addresses : ClusterConfig → MemberConfig → MemberConfig
with_addresses c m = record m {
  server_address = pick_string (m.server_address ∷ m.peer_address ∷ []);
  host = build_config m.host (record { direct_config = none; ssh_config = c.ssh });
  new_cluster = if is_empty c.state then true else m.new_cluster;
}

-- Cluster.propagateMember, where none is a panic.
unfoldable pub propagate_member : ClusterConfig → String → MemberConfig → Option MemberConfig
propagate_member c name m = elim (with_pki c (with_settings c name m)) [
  | none ↦ none
  | some m' ↦ some (with_addresses c m')
]

-- The members as instances, for a library and an order of visiting literal maps.
abbrev pub members_of : ClusterConfig → Library → (List String → List String) → Kind MemberConfig
members_of c lib order = record {
  propagate = propagate_member c;
  check = new_member_error lib order;
  template = to_host_configured_container;
}

-- The check of the common CA certificate.
unfoldable pub ca_errors : Library → String → List Error
ca_errors lib text =
    if text == ""
    then []
    else error_of (wrapf "parsing CA certificate") (decode_x509_certificate lib text)

-- Cluster.Validate. Merging SSH settings into a member writes to the settings that the copy of the
-- member shares with the cluster; a second merge changes nothing, so the copy stands for both.
unfoldable pub validate : ClusterConfig → Exec Memory (Option Error)
validate c =
    if is_empty c.members && is_empty c.state
    then pure (some (errorf "at least one member must be defined when state is empty"))
    else do
      w ← gets (λ m. m.world)
      validate_all (members_of c w.lib (w.range_order w.history)) "validating member"
          "validating containers object" (ca_errors w.lib c.ca_certificate) [] c.state c.members

-- Cluster.New: the members, and the containers or nil.
unfoldable pub new : ClusterConfig → Exec Memory (Map MemberConfig × Option (StateMap × StateMap))
new c = do
  e ← validate c
  elim e [
    | some e ↦ fail (wrapf "validating cluster configuration" e)
    | none ↦ do
      w ← gets (λ m. m.world)
      new_all (members_of c w.lib (w.range_order w.history)) c.state c.members
  ]
