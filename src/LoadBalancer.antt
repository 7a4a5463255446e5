-- ===== src/LoadBalancer.antt =====
-- Load balancers of the Kubernetes API (pkg/apiloadbalancer/api-loadbalancer.go and
-- pkg/apiloadbalancer/api-loadbalancers.go).
pub mod Renewed
use libflexkube.Base.{
  ℕ, suc, String, false, Option, none, some, List, [], ◌∷◌, ◌==◌, if◌then◌else◌, append, is_empty,
  ◌&&◌,
}
use libflexkube.Base.Map.{Map}
use libflexkube.Base.Fault.{Error, errorf, wrapf, error_if}
use libflexkube.Base.Exec.{Exec, pure, fail, gets, ◌>>=◌}
use libflexkube.Util.{ℤ, pos, pick_string, pick_string_slice}
use libflexkube.World.{Library}
use libflexkube.Host.Config.{Host, SshConfig, build_config}
use libflexkube.Container.Configured.{HostConfiguredContainer}
use libflexkube.Container.State.{ContainersState, StateMap}
use libflexkube.Memory.{Memory}
use libflexkube.Resource.{numbered, Kind, validate_all, new_all}

-- apiloadbalancer.APILoadBalancer, and apiLoadBalancer, which has the same fields.
pub record LoadBalancer : Type 0 where
  pub image : String
  pub host : Host
  pub servers : List String
  pub name : String
  pub host_config_path : String
  pub bind_address : String

-- One line for each server, by its position.
unfoldable pub server_lines : Library → ℕ → List String → String
server_lines lib i [] = ""
server_lines lib i (s ∷ servers) = append "\n  server " (
    append (lib.itoa (pos i)) (
      append " "
        (append s (append " verify none check check-ssl" (server_lines lib (suc i) servers)))))

-- apiLoadBalancer.config: the filled template. Both its ends are constant text, so trimming takes the
-- line breaks of the template only.
unfoldable pub config : Library → LoadBalancer → String
config lib a =
    append
      "defaults\n  # Do TLS passthrough\n  mode tcp\n  # Required values for both frontend and backend\n  timeout connect 5s\n  timeout client 30s\n  timeout client-fin 30s\n  timeout server 30s\n  timeout tunnel 21d\n\nfrontend kube-apiserver\n  bind "
      (append a.bind_address (
        append
          "\n  default_backend kube-apiserver\n\nbackend kube-apiserver\n  option httpchk GET /healthz HTTP/1.1\\r\\nHost:\\ kube-apiserver"
          (append (server_lines lib 0 a.servers) "\n")))

-- APILoadBalancer.Validate
unfoldable pub validate_instance : LoadBalancer → Option Error
validate_instance a =
    if is_empty a.servers
    then some (errorf "at least one server must be set")
    else if a.bind_address == ""
    then some (errorf "bindAddress can't be empty")
    else none

-- The error of APILoadBalancer.New
unfoldable pub new_instance_error : LoadBalancer → Option Error
new_instance_error a = elim (validate_instance a) [
  | none ↦ none
  | some e ↦ some (wrapf "validating API Load balancer configuration" e)
]

-- The value of APILoadBalancer.New
unfoldable pub new_instance : LoadBalancer → LoadBalancer
new_instance a = record a {
  name = pick_string (a.name ∷ "api-loadbalancer-haproxy" ∷ []);
  host_config_path = pick_string (a.host_config_path ∷ "/etc/haproxy/haproxy.cfg" ∷ []);
  image = if a.image == "" then "haproxy:2.6.1-alpine" else a.image;
}

-- apiLoadBalancer.ToHostConfiguredContainer, with the address of docker.DefaultConfig()
unfoldable pub to_host_configured_container : Library → LoadBalancer → ℕ → HostConfiguredContainer
to_host_configured_container lib a docker = record {
  host = a.host;
  config_files = (a.host_config_path, config lib a) ∷ [];
  container = record {
    config = record {
      name = a.name;
      image = a.image;
      args = [];
      entrypoint = [];
      ports = [];
      mounts =
          record {
            source = a.host_config_path;
            target = "/usr/local/etc/haproxy/haproxy.cfg";
            propagation = "";
          }
          ∷ [];
      privileged = false;
      network_mode = "host";
      pid_mode = "";
      ipc_mode = "";
      user = "65534";
      group = "";
      env = [];
    };
    status = none;
    docker = some docker;
  };
  post_start = none;
}

-- apiloadbalancer.APILoadBalancers
pub record LoadBalancers : Type 0 where
  pub image : String
  pub ssh : Option SshConfig
  pub servers : List String
  pub load_balancers : List LoadBalancer
  pub name : String
  pub host_config_path : String
  pub bind_address : String
  pub state : ContainersState

-- APILoadBalancers.propagateInstance
unfoldable pub propagate_instance : LoadBalancers → LoadBalancer → LoadBalancer
propagate_instance a i = record {
  image = pick_string (i.image ∷ a.image ∷ []);
  servers = pick_string_slice (i.servers ∷ a.servers ∷ []);
  host = build_config i.host (record { direct_config = none; ssh_config = a.ssh });
  name = pick_string (i.name ∷ a.name ∷ []);
  host_config_path = pick_string (i.host_config_path ∷ a.host_config_path ∷ []);
  bind_address = pick_string (i.bind_address ∷ a.bind_address ∷ []);
}

abbrev pub instances_of : LoadBalancers → Library → Kind LoadBalancer
instances_of a lib = record {
  propagate = λ name i. some (propagate_instance a i);
  check = new_instance_error;
  template = λ i docker. to_host_configured_container lib (new_instance i) docker;
}

-- APILoadBalancers.Validate
unfoldable pub validate : LoadBalancers → Exec Memory (Option Error)
validate a = do
  lib ← gets (λ m. m.world.lib)
  validate_all (instances_of a lib) "creating load balancer instance" "creating containers object"
      []
      (error_if (is_empty a.state && is_empty a.load_balancers)
        (errorf "at least one load balancer must be defined if state is empty"))
      a.state (numbered lib 0 a.load_balancers)

-- APILoadBalancers.New: the containers or nil.
unfoldable pub new : LoadBalancers → Exec Memory (Option (StateMap × StateMap))
new a = do
  e ← validate a
  elim e [
    | some e ↦ fail (wrapf "validating API Load balancers configuration" e)
    | none ↦ do
      lib ← gets (λ m. m.world.lib)
      made ← new_all (instances_of a lib) a.state (numbered lib 0 a.load_balancers)
      pure made.1
  ]
