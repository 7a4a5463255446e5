-- ===== src/Etcd/Member.antt =====
-- One etcd member: its container, its validation, and its client (pkg/etcd/member.go).
use libflexkube.Base.{
  ℕ, String, false, Option, none, some, List, [], ◌∷◌, ◌++◌, ◌==◌, if◌then◌else◌, append,
}
use libflexkube.Base.Map.{Map, lookup, keys}
use libflexkube.Base.Fault.{
  option_error, Error, errorf_arg, wrapf, wrapf_arg, error_of, Result, success, failure, error_if,
}
use libflexkube.Base.Exec.{Exec, Action, pure, abort, must, wrap, try, ◌>>=◌}
use libflexkube.Util.{return_errors}
use libflexkube.World.{World, Library}
use libflexkube.Host.Transport.{Transport, Connected, validate_host, new_host, connect, forward_tcp}
use libflexkube.Container.Configured.{HostConfiguredContainer}
use libflexkube.Pki.{decode_x509_certificate, validate_private_key}
use libflexkube.Etcd.{MemberConfig, EtcdClient, new_client, ask}

-- member.configFiles
unfoldable pub config_files : MemberConfig → Map String
config_files m =
    ("/etc/kubernetes/etcd/ca.crt", m.ca_certificate)
    ∷ ("/etc/kubernetes/etcd/peer.crt", m.peer_certificate)
    ∷ ("/etc/kubernetes/etcd/peer.key", m.peer_key)
    ∷ ("/etc/kubernetes/etcd/server.crt", m.server_certificate)
    ∷ ("/etc/kubernetes/etcd/server.key", m.server_key)
    ∷ []

abbrev auth_token : String
auth_token =
    "jwt,pub-key=/etc/kubernetes/pki/etcd/peer.crt,priv-key=/etc/kubernetes/pki/etcd/peer.key,sign-method=RS512,ttl=10m"

-- fmt.Sprintf(prefix + "%s" + suffix, text)
abbrev pub around : String → String → String → String
around prefix text suffix = append prefix (append text suffix)

-- member.args
unfoldable pub args : MemberConfig → List String
args m =
    ("--logger=zap"
      ∷ around "--listen-client-urls=https://" m.server_address ":2379"
      ∷ around "--listen-peer-urls=https://" m.peer_address ":2380"
      ∷ around "--advertise-client-urls=https://" m.server_address ":2379"
      ∷ around "--initial-advertise-peer-urls=https://" m.peer_address ":2380"
      ∷ append "--initial-cluster=" m.initial_cluster
      ∷ append "--name=" m.name
      ∷ "--peer-trusted-ca-file=/etc/kubernetes/pki/etcd/ca.crt"
      ∷ "--peer-cert-file=/etc/kubernetes/pki/etcd/peer.crt"
      ∷ "--peer-key-file=/etc/kubernetes/pki/etcd/peer.key"
      ∷ "--peer-client-cert-auth"
      ∷ "--trusted-ca-file=/etc/kubernetes/pki/etcd/ca.crt"
      ∷ "--cert-file=/etc/kubernetes/pki/etcd/server.crt"
      ∷ "--key-file=/etc/kubernetes/pki/etcd/server.key"
      ∷ around "--data-dir=/" m.name ".etcd"
      ∷ append "--auth-token=" auth_token
      ∷ "--strict-reconfig-check"
      ∷ "--client-cert-auth=true"
      ∷ [])
    ++ (if m.peer_cert_allowed_cn == ""
        then []
        else append "--peer-cert-allowed-cn=" m.peer_cert_allowed_cn ∷ [])

-- member.ToHostConfiguredContainer, with the address of docker.DefaultConfig()
unfoldable pub to_host_configured_container : MemberConfig → ℕ → HostConfiguredContainer
to_host_configured_container m docker = record {
  host = m.host;
  config_files = config_files m;
  container = record {
    config = record {
      name = append "etcd-" m.name;
      image = m.image;
      args =
          args m
          ++ (if m.new_cluster
              then "--initial-cluster-token=etcd-cluster-2"
              else "--initial-cluster-state=existing")
            ∷ [];
      entrypoint = "/usr/local/bin/etcd" ∷ [];
      ports = [];
      mounts =
          record {
            source = around "/var/lib/etcd/" m.name ".etcd/";
            target = around "/" m.name ".etcd";
            propagation = "";
          }
          ∷ record {
            source = "/etc/kubernetes/etcd/";
            target = "/etc/kubernetes/pki/etcd";
            propagation = "";
          }
          ∷ m.extra_mounts;
      privileged = false;
      network_mode = "host";
      pid_mode = "";
      ipc_mode = "";
      user = "";
      group = "";
      env = [];
    };
    status = none;
    docker = some docker;
  };
  post_start = none;
}

-- The errors of the values of a map, in the order in which its keys are visited.
unfoldable pub errors_in : (String → String → List Error) → Map String → List String → List Error
errors_in f m [] = []
errors_in f m (k ∷ ks) = elim (lookup m k) [ none ↦ [] | some v ↦ f k v ] ++ errors_in f m ks

-- fmt.Errorf("%s can't be empty", k)
pub empty_error : String → String → List Error
empty_error k v = error_if (v == "") (errorf_arg "%s can't be empty" k)

pub certificate_error : Library → String → String → List Error
certificate_error lib k v =
    error_of (wrapf_arg "parsing %s as X.509 certificate" k) (decode_x509_certificate lib v)

pub key_error : Library → String → String → List Error
key_error lib k v =
    option_error (wrapf_arg "parsing %s as private key" k) (validate_private_key lib v)

pub host_error : Library → MemberConfig → List Error
host_error lib m = option_error (wrapf "validating host configuration") (validate_host lib m.host)

-- nonEmptyFields, certificates and keys of MemberConfig.Validate
abbrev pub non_empty_fields : MemberConfig → Map String
non_empty_fields m = ("peer address", m.peer_address) ∷ ("member name", m.name) ∷ []

abbrev pub certificates : MemberConfig → Map String
certificates m =
    ("CA certificate", m.ca_certificate)
    ∷ ("peer certificate", m.peer_certificate)
    ∷ ("server certificate", m.server_certificate)
    ∷ []

abbrev pub private_keys : MemberConfig → Map String
private_keys m = ("peer key", m.peer_key) ∷ ("server key", m.server_key) ∷ []

-- MemberConfig.Validate, whose loops over maps visit them in the given order.
unfoldable pub validate_member : Library → (List String → List String) → MemberConfig → Option Error
unfolding empty_error certificate_error key_error host_error
validate_member lib order m = return_errors (
    errors_in empty_error (non_empty_fields m) (order (keys (non_empty_fields m)))
    ++ (errors_in (certificate_error lib) (certificates m) (order (keys (certificates m)))
        ++ (errors_in (key_error lib) (private_keys m) (order (keys (private_keys m)))
            ++ host_error lib m)))

-- The error of MemberConfig.New
unfoldable pub new_member_error :
    Library → (List String → List String) → MemberConfig → Option Error
new_member_error lib order m = elim (validate_member lib order m) [
  | none ↦ none
  | some e ↦ some (wrapf "validating member configuration" e)
]

-- The loop of forwardEndpoints.
unfoldable pub forward_all : Option Connected → List String → Exec World (List String)
forward_all host [] = pure []
forward_all host (endpoint ∷ endpoints) = do
  forwarded ← wrap "opening forwarding to member" (forward_tcp host endpoint)
  rest ← forward_all host endpoints
  pure (append "https://" forwarded ∷ rest)

-- `h, _ := m.config.Host.New()`, of which a nil value panics when it connects.
host_or_panic : Result (Option Transport) → Exec World (Option Transport)
host_or_panic (success h) = pure h
host_or_panic (failure e) = abort

-- member.forwardEndpoints
unfoldable pub forward_endpoints : MemberConfig → List String → Exec World (List String)
unfolding host_or_panic
forward_endpoints m endpoints = do
  made ← try (new_host m.host)
  h ← host_or_panic made
  connected ← wrap "opening forwarding connection to host" (connect h)
  forward_all connected endpoints

-- member.getEtcdClient; a CA certificate that cannot be decoded is a nil pointer, and AddCert
-- panics on one that cannot be parsed.
unfoldable pub get_etcd_client : Library → MemberConfig → List String → Action EtcdClient
get_etcd_client lib m endpoints = do
  der ← must (lib.pem_decode m.ca_certificate)
  elim (lib.certificate_error der) [
    | some e ↦ abort
    | none ↦
        wrap "creating etcd client"
          (ask (new_client endpoints m.peer_certificate m.peer_key m.ca_certificate))
  ]
