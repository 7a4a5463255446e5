-- ===== src/World.antt =====
-- What the program talks to and does not implement: the Docker client, the SSH agent and
-- connections, hooks of the user, and the functions of Go's standard library and of go-cmp whose
-- results the code only passes on. Every call is recorded, and its reply may depend on all the calls
-- before it, so a theorem for every `World` holds whatever the outside does.
use libflexkube.Base.{ℕ, String, Bool, Option, List, ◌∷◌}
use libflexkube.Base.Fault.{Error, Result}
use libflexkube.Base.Map.{Map}
use libflexkube.Base.Exec.{Exec, Outcome, of_result}
use libflexkube.Util.{ℤ}
use libflexkube.Host.Config.{Host}
use libflexkube.Container.Types.{ContainerConfig}

-- A Docker client, with the host option that it was made with.
pub record Client : Type 0 where
  pub host : Option String

-- containertypes.Config, as far as the code fills it.
pub record CreateConfig : Type 0 where
  pub image : String
  pub cmd : List String
  pub entrypoint : List String
  pub exposed_ports : Map (Unit {0})
  pub user : String
  pub env : List String

pub record PortBinding : Type 0 where
  pub host_ip : String
  pub host_port : String

pub record BindMount : Type 0 where
  pub kind : String
  pub source : String
  pub target : String
  pub propagation : String

-- containertypes.HostConfig, as far as the code fills it.
pub record HostConfig : Type 0 where
  pub mounts : List BindMount
  pub port_bindings : Map (List PortBinding)
  pub privileged : Bool
  pub network_mode : String
  pub pid_mode : String
  pub ipc_mode : String
  pub restart_policy : String

-- tar.Header without the modification time. The numeric owner is 0 unless it is set.
pub record TarHeader : Type 0 where
  pub name : String
  pub regular : Bool
  pub mode : ℕ
  pub uname : String
  pub gname : String
  pub uid : ℤ
  pub gid : ℤ

pub record TarEntry : Type 0 where
  pub header : TarHeader
  pub content : Result String

-- What reading an archive meets: entries, and perhaps a header that cannot be read.
pub data TarStream : Type 0 where
  eof : TarStream
  broken : Error → TarStream
  entry : TarEntry → TarStream → TarStream

pub record ImageSummary : Type 0 where
  pub id : String
  pub repo_tags : List String

pub record PathStat : Type 0 where
  pub name : String
  pub mode : ℕ

pub data AuthMethod : Type 0 where
  password : String → AuthMethod
  private_key : String → AuthMethod
  agent : String → AuthMethod

-- The ssh transport that ssh.Config.New returns; durations are in nanoseconds.
pub record Ssh : Type 0 where
  pub address : String
  pub user : String
  pub connection_timeout : ℤ
  pub retry_timeout : ℤ
  pub retry_interval : ℤ
  pub auth : List AuthMethod

-- url.URL, as far as the code reads it.
pub record Url : Type 0 where
  pub scheme : String
  pub path : String

-- x509.Certificate as far as the code fills it; the two times are nanoseconds of the clock, the
-- second with the duration that is added to it, and an address is the text that net.IP prints.
pub record Template : Type 0 where
  pub serial_number : String
  pub organization : List String
  pub common_name : String
  pub not_before : ℕ
  pub not_after : ℕ × ℤ
  pub key_usage : ℕ
  pub ext_key_usage : List ℕ
  pub basic_constraints_valid : Bool
  pub is_ca : Bool
  pub dns_names : List String
  pub ip_addresses : List String
  pub subject_key_id : String

-- Who issues a certificate: the certificate itself, or one that was parsed from these bytes.
pub data Issuer : Type 0 where
  itself : Issuer
  parsed : String → Issuer

pub data Call : Type 0 where
  -- github.com/docker/docker/client
  new_client : Option String → Call
  image_list : Client → Call
  image_pull discard_pull close_pull : Client → String → Call
  container_create : Client → CreateConfig → HostConfig → String → Call
  container_start container_stop container_inspect container_remove : Client → String → Call
  copy_to_container : Client → String → String → List TarEntry → Call
  copy_from_container close_copy stat_path : Client → String → String → Call
  -- net.Dial of the agent's socket, and the agent's Signers
  dial_agent agent_signers : String → Call
  -- dialer("tcp", address, config) of golang.org/x/crypto/ssh, and time.Sleep
  ssh_dial : Ssh → Call
  sleep : ℤ → Call
  -- uuid.NewRandom, net.Listen(network, address), which is answered with the listener's address
  random_uuid : Call
  listen : String → String → Call
  -- go forwardConnection(listener, client, remote, network), of the listener's and the client's address
  start_forwarding : String → String → String → String → Call
  -- rsa.GenerateKey(rand.Reader, bits), answered with the PKCS #1 bytes of the key, by which the key
  -- is known; rand.Int below 2^128; x509.CreateCertificate(template, parent, public key, signing key)
  generate_key : ℤ → Call
  random_serial : Call
  create_certificate : Template → Issuer → String → String → Call
  -- A hook that the user gave, by its number.
  run_hook : ℕ → Call

abbrev pub Reply : Call → Type 0
Reply (new_client host) = Unit
Reply (image_list c) = List ImageSummary
Reply (image_pull c ref) = Unit
Reply (discard_pull c ref) = Unit
Reply (close_pull c ref) = Unit
Reply (container_create c config host_config name) = String
Reply (container_start c id) = Unit
Reply (container_stop c id) = Unit
Reply (container_inspect c id) = String
Reply (container_remove c id) = Unit
Reply (copy_to_container c id path archive) = Unit
Reply (copy_from_container c id path) = Option TarStream
Reply (close_copy c id path) = Unit
Reply (stat_path c id path) = PathStat
Reply (dial_agent sock) = Unit
Reply (agent_signers sock) = Unit
Reply (ssh_dial s) = Unit
Reply (sleep d) = Unit
Reply random_uuid = String
Reply (listen network address) = String
Reply (start_forwarding listener client remote network) = Unit
Reply (generate_key bits) = String
Reply random_serial = String
Reply (create_certificate template issuer key signer) = String
Reply (run_hook n) = Unit

-- Pure functions that the code calls and that are not in the repository.
pub record Library : Type 0 where
  -- err.Error(), through fmt
  pub error_text : Error → String
  -- path.Join(a, b)
  pub join_path : String → String → String
  -- strconv.Itoa, strconv.Atoi
  pub itoa : ℤ → String
  pub atoi : String → Option ℤ
  -- nat.NewPort(protocol, port)
  pub new_port : String → String → Result String
  -- tar.Writer.WriteHeader
  pub header_error : TarHeader → Option Error
  -- gossh.ParsePrivateKey
  pub private_key_error : String → Option Error
  -- time.ParseDuration, in nanoseconds
  pub parse_duration : String → Result ℤ
  -- url.Parse, net.SplitHostPort
  pub parse_url : String → Result Url
  pub host_port_error : String → Option Error
  -- pem.Decode, which gives the bytes of a block; x509.ParseCertificate, ParsePKCS8PrivateKey,
  -- ParsePKCS1PrivateKey and ParseECPrivateKey of such bytes
  pub pem_decode : String → Option String
  pub certificate_error : String → Option Error
  pub pkcs8_error : String → Option Error
  pub pkcs1_error : String → Option Error
  pub ec_error : String → Option Error
  -- The addresses of a parsed certificate, by IP.String; net.ParseIP and IP.String
  pub certificate_ips : String → List String
  pub parse_ip : String → Option String
  -- pem.Encode with a header; x509.MarshalPKIXPublicKey of a key's public half; the bytes of its
  -- modulus, and SHA-1
  pub pem_encode : String → String → Result String
  pub marshal_public_key : String → Result String
  pub modulus : String → String
  pub sha1 : String → Result String
  -- The error that yaml.Unmarshal makes of that of a field; base64.StdEncoding.EncodeToString
  pub yaml_error : Error → Error
  pub base64 : String → String
  -- clientcmd.NewClientConfigFromBytes, ClientConfig of its result, and kubernetes.NewForConfig of
  -- that, of the bytes of a kubeconfig
  pub client_config_error : String → Option Error
  pub rest_config_error : String → Option Error
  pub clientset_error : String → Option Error
  -- os.Getenv("SSH_AUTH_SOCK")
  pub ssh_auth_sock : String
  -- client.DefaultDockerHost
  pub default_docker_host : String
  -- cmp.Diff at the types that the code compares
  pub diff_host : Host → Host → String
  pub diff_config : ContainerConfig → ContainerConfig → String
  pub diff_runtime : String → String → String

pub record World : Type 0 where
  pub lib : Library
  pub answer : List Call → (c : Call) → Result (Reply c)
  -- The order in which a `range` over a map with these keys visits them.
  pub range_order : List Call → List String → List String
  -- The nanoseconds that have passed when these calls have been made, as time.Now reads them.
  pub clock : List Call → ℕ
  -- The calls made, the newest first.
  pub history : List Call

unfoldable pub perform : (c : Call) → Exec World (Reply c)
perform c w = (of_result (w.answer w.history c), record w { history = c ∷ w.history })

-- The reply and the error as a value, for a caller that looks at both.
unfoldable pub attempt : (c : Call) → Exec World (Result (Reply c))
attempt c w = (Outcome.ok (w.answer w.history c), record w { history = c ∷ w.history })
