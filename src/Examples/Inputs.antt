-- ===== src/Examples/Inputs.antt =====
-- A world in which every call succeeds, and containers in it.
use libflexkube.Base.{ℕ, ◌+◌, true, false, none, some, List, [], ◌∷◌, ◌==◌, if◌then◌else◌, append}
use libflexkube.Base.Fault.{Result, success, failure, external}
use libflexkube.Host.Config.{Host}
use libflexkube.Container.Types.{ContainerConfig, ContainerStatus}
use libflexkube.Container.Containers.{Containers}
use libflexkube.Memory.{Memory}
use libflexkube.Util.{pos}
use libflexkube.World.{
  World, Library, Client, Call, Reply, eof, new_client, image_list, image_pull, discard_pull,
  close_pull, container_create, container_start, container_stop, container_inspect,
  container_remove, copy_to_container, copy_from_container, close_copy, stat_path, dial_agent,
  agent_signers, ssh_dial, sleep, random_uuid, listen, start_forwarding, generate_key,
  random_serial, create_certificate, run_hook,
}

abbrev pub library : Library
library = record {
  error_text = λ e. "failed";
  join_path = λ a b. append a b;
  itoa = λ n. "0";
  atoi = λ s. none;
  new_port = λ protocol port. success (append port protocol);
  header_error = λ h. none;
  private_key_error = λ k. none;
  parse_duration = λ d. success (pos 100);
  parse_url = λ u. success (record { scheme = "unix"; path = u });
  host_port_error = λ a. none;
  pem_decode = λ t. if t == "" then none else some t;
  certificate_error = λ der. none;
  pkcs8_error = λ der. none;
  pkcs1_error = λ der. none;
  ec_error = λ der. none;
  certificate_ips = λ der. if der == "kube-apiserver's certificate" then "127.0.0.1" ∷ [] else [];
  parse_ip = λ t. if t == "" then none else some t;
  pem_encode = λ header bytes. if bytes == "" then failure (external "empty") else success bytes;
  marshal_public_key = λ key. success (append "public " key);
  modulus = λ key. key;
  sha1 = λ bytes. success bytes;
  yaml_error = λ e. e;
  base64 = λ t. t;
  client_config_error = λ t. none;
  rest_config_error = λ t. none;
  clientset_error = λ t. none;
  ssh_auth_sock = "";
  default_docker_host = "unix:///var/run/docker.sock";
  diff_host = λ a b. "";
  diff_config = λ a b. if a.image == b.image then "" else "image";
  diff_runtime = λ a b. if a == b then "" else "host";
}

-- Every call succeeds; the container "1" is created and runs, and helper containers are gone when
-- asked for.
unfoldable pub reply : List Call → (c : Call) → Result (Reply c)
reply h (new_client host) = success tt
reply h (image_list c) = success []
reply h (image_pull c ref) = success tt
reply h (discard_pull c ref) = success tt
reply h (close_pull c ref) = success tt
reply h (container_create c config host_config name) = success "1"
reply h (container_start c id) = success tt
reply h (container_stop c id) = success tt
reply h (container_inspect c id) = success "running"
reply h (container_remove c id) = success tt
reply h (copy_to_container c id path archive) = success tt
reply h (copy_from_container c id path) = success (some eof)
reply h (close_copy c id path) = success tt
reply h (stat_path c id path) = success (record { name = ""; mode = 0 })
reply h (dial_agent sock) = success tt
reply h (agent_signers sock) = success tt
reply h (ssh_dial s) = success tt
reply h (sleep d) = success tt
reply h random_uuid = success "id"
reply h (listen network address) = success address
reply h (start_forwarding listener client remote network) = success tt
reply h (generate_key bits) = success "key"
reply h random_serial = success "serial"
reply h (create_certificate template issuer key signer) =
    success (append template.common_name "'s certificate")
reply h (run_hook n) = success tt

-- One nanosecond for each call.
unfoldable pub ticks : List Call → ℕ
ticks [] = 0
ticks (c ∷ h) = 1 + ticks h

abbrev pub world : World
world = record {
  lib = library;
  answer = reply;
  range_order = λ h keys. keys;
  clock = ticks;
  history = [];
}

abbrev pub config : ContainerConfig
config = record {
  name = "etcd";
  image = "etcd:v3";
  args = [];
  entrypoint = [];
  ports = [];
  mounts = record { source = "/var/lib/etcd/"; target = "/data"; propagation = "" } ∷ [];
  privileged = false;
  network_mode = "host";
  pid_mode = "";
  ipc_mode = "";
  user = "";
  group = "";
  env = [];
}

abbrev pub direct_host : Host
direct_host = record { direct_config = some (record { dummy = "" }); ssh_config = none }

abbrev pub client : Client
client = record { host = some "unix:///run/docker.sock" }

abbrev pub runs : ContainerStatus
runs = record { id = "7"; status = "running" }

-- Container 0 is desired and does not exist yet; container 1 is an old one that runs.
abbrev pub memory : Memory
memory = record {
  world = world;
  configs = λ a. record { host = "unix:///run/docker.sock" };
  containers = λ a. elim a [
    | ℕ.zero ↦ record {
      config = config;
      runtime = client;
      runtime_config = 0;
      status = record { id = ""; status = "" };
    }
    | ℕ.suc n ↦ record { config = config; runtime = client; runtime_config = 1; status = runs }
  ];
  hccs = λ a. record {
    container = some a;
    host = direct_host;
    config_files = ("/etc/etcd.conf", "a") ∷ [];
    config_container = none;
    post_start = none;
  };
  next = 2;
}

abbrev pub containers : Containers
containers = record {
  memory = memory;
  current_state = ("old", some 1) ∷ [];
  refreshed = true;
  desired_state = ("new", some 0) ∷ [];
}
