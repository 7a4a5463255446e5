-- ===== src/Docker/Convert.antt =====
-- Conversion of a container configuration to Docker's (pkg/container/runtime/docker/docker.go).
pub mod Ports
use text.Mathlib.Text.{find?}
use libflexkube.Base.{
  String, none, some, List, [], ◌∷◌, ◌++◌, ◌==◌, not, if◌then◌else◌, is_some, append,
}
use libflexkube.Base.Map.{Map, lookup, insert}
use libflexkube.Base.Fault.{wrapf, Result, success, failure}
use libflexkube.Container.Types.{ContainerConfig, PortMap, Mount}
use libflexkube.World.{Library, CreateConfig, HostConfig, PortBinding, BindMount}

abbrev pub Ports : Type 0
Ports = Map (List PortBinding) × Map (Unit {0})

-- The bindings of a port, or an empty list for a new one.
unfoldable pub bindings : Map (List PortBinding) → String → List PortBinding
bindings m port = elim (lookup m port) [ none ↦ [] | some bs ↦ bs ]

unfoldable pub add_port : Library → Ports → PortMap → String → Ports
unfolding bindings
add_port lib (port_bindings, exposed_ports) p port = (
  insert port_bindings port
      (bindings port_bindings port ++ record { host_ip = p.ip; host_port = lib.itoa p.port } ∷ []),
  insert exposed_ports port tt,
)

-- The loop of buildPorts, with the maps so far.
unfoldable pub build_ports : Library → Ports → List PortMap → Result Ports
unfolding add_port
build_ports lib result [] = success result
build_ports lib result (p ∷ ports) = elim (lib.new_port p.protocol (lib.itoa p.port)) [
  | success port ↦ build_ports lib (add_port lib result p port) ports
  | failure e ↦ failure (wrapf "mapping ports" e)
]

unfoldable pub mounts : List Mount → List BindMount
mounts [] = []
mounts (m ∷ ms) =
    record { kind = "bind"; source = m.source; target = m.target; propagation = m.propagation }
    ∷ mounts ms

env_list : Map String → List String
env_list [] = []
env_list ((k, v) ∷ env) = append k (append "=" v) ∷ env_list env

user_and_group : ContainerConfig → String
user_and_group c = if not (c.group == "") then append c.user (append ":" c.group) else c.user

docker_config : ContainerConfig → Ports → CreateConfig
unfolding user_and_group env_list
docker_config c ports = record {
  image = c.image;
  cmd = c.args;
  entrypoint = c.entrypoint;
  exposed_ports = ports.1;
  user = user_and_group c;
  env = env_list c.env;
}

host_config : ContainerConfig → Ports → HostConfig
unfolding mounts
host_config c ports = record {
  mounts = mounts c.mounts;
  port_bindings = ports.0;
  privileged = c.privileged;
  network_mode = c.network_mode;
  pid_mode = c.pid_mode;
  ipc_mode = c.ipc_mode;
  restart_policy = "unless-stopped";
}

unfoldable pub convert_container_config :
    Library → ContainerConfig → Result (CreateConfig × HostConfig)
unfolding build_ports docker_config host_config
convert_container_config lib c = elim (build_ports lib ([], []) c.ports) [
  | success ports ↦ success (docker_config c ports, host_config c ports)
  | failure e ↦ failure (wrapf "building ports" e)
]

-- A name without ":" gets the tag ":latest".
unfoldable pub sanitize_image_name : String → String
sanitize_image_name image =
    if not (is_some (find? image ":")) then append image ":latest" else image
