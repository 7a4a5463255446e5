-- ===== src/Examples/Checks.antt =====
-- The theorems on hosts, archives, mounts, ports and updates at concrete inputs.
use libflexkube.Base.{
  String, true, false, Option, none, some, List, [], ◌∷◌, ◌==◌, ◌≡◌, refl, is_some, not, arith, ◌⊎◌,
  All, ◌||◌,
}
use libflexkube.Base.Fault.{Error, errorf, Result, success, failure}
use libflexkube.Base.Map.{keys, has, lookup}
use libflexkube.Base.Exec.{Outcome, ok, err, panic, hang, pure, ◌>>=◌, zoom}
use libflexkube.Examples.Opened.{
  open_util, open_host, open_docker, open_single, open_hcc, open_deploy,
}
use libflexkube.Examples.Inputs.{containers, reply, memory, world, library, config, client}
use libflexkube.Util.{is_zero, pos}
use libflexkube.Host.Config.{Host, SshConfig, DirectConfig, build_ssh, empty_ssh}
use libflexkube.Host.Ssh.{validate_ssh}
use libflexkube.Host.Transport.{new_host, connect}
use libflexkube.Host.Valid.{validate_host_one, validate_ssh_fields}
use libflexkube.Host.Agent.{connect_without_agent}
use libflexkube.World.{World, Call, Reply, TarEntry, dial_agent}
use libflexkube.Docker.Archive.{files_to_tar, is_directory}
use libflexkube.Docker.Convert.{Ports}
use libflexkube.Docker.Convert.{bindings}
use libflexkube.Docker.Convert.Ports.{wanted, Bound, build_ports-Bound}
use libflexkube.Container.Types.{File, Mount, PortMap}
use libflexkube.Container.Mounts.{Covered, missing_mounts-Covered}
use libflexkube.Container.Containers.{Containers}
use libflexkube.Container.State.{ContainersState}
use libflexkube.Container.Exported.{desired_state, show_all, show_running, known_id}
use libflexkube.Container.Exported.Desired.{ShowsRunning, desired_state-ShowsRunning}
use libflexkube.Container.Deploy.{ensure_up_to_date}
use libflexkube.Container.Deploy.Idle.{Pair, ensure_up_to_date_idle}
use libflexkube.Container.Containers.Drift.{differs, unequal}
use libflexkube.Container.Forwarding.{create_configuration_container, with_configuration_container}
use libflexkube.Container.Forwarding.Cleanup.{
  Removed, body_of, with_configuration_container-Removed,
}
use libflexkube.Memory.{Memory, ContainerInstance}

abbrev server : SshConfig
server = build_ssh (some (record empty_ssh { address = "10.0.0.1"; password = "secret" })) none

abbrev ssh_host : Host
ssh_host = record { direct_config = none; ssh_config = some server }

validate_host_one_example :
    ((is_some {A = DirectConfig} none ≡ true) × (some server ≡ none))
    ⊎ ((c : SshConfig) × (some server ≡ some c)
        × (◌≡◌ {A = Option DirectConfig} none none)
        × (validate_ssh library c ≡ none))
unfolding open_util open_host build_ssh
validate_host_one_example = validate_host_one library none (some server) refl

validate_ssh_fields_example :
    ((server.address == "") ≡ false)
    × ((server.user == "") ≡ false)
    × (is_zero server.port ≡ false)
    × ((not (server.password == "")
          || (not (server.private_key == "") || not (library.ssh_auth_sock == "")))
        ≡ true)
unfolding open_util open_host build_ssh
validate_ssh_fields_example = validate_ssh_fields library server refl

abbrev refused : Error
refused = errorf "connection refused"

unfoldable no_agent : List Call → (c : Call) → Result (Reply c)
no_agent h (dial_agent sock) = failure refused
no_agent h c = reply h c

abbrev agentless : World
agentless = record world {
  lib = record library { ssh_auth_sock = "/run/agent" };
  answer = no_agent;
}

connect_without_agent_example :
    ((new_host ssh_host agentless).0 ≡ ok none)
    × (((new_host ssh_host >>= connect) agentless).0 ≡ panic)
unfolding open_util open_host build_ssh no_agent
connect_without_agent_example =
    connect_without_agent ssh_host server agentless refused refl refl refl refl refl

abbrev first : File
first = record { path = "/a"; content = "one"; mode = 420; user = "0"; group = "0" }

abbrev second : File
second = record { path = "/b"; content = "two"; mode = 384; user = "0"; group = "0" }

abbrev directory : File
directory = record { path = "/c/"; content = ""; mode = 448; user = "0"; group = "0" }

abbrev entries_of : Result (List TarEntry) → List TarEntry
entries_of (success ts) = ts
entries_of (failure e) = []

abbrev two_entries : List TarEntry
unfolding files_to_tar is_directory
two_entries = entries_of (files_to_tar library (first ∷ directory ∷ second ∷ []))

abbrev data_mount : Mount
data_mount = record { source = "/data/"; target = "/data"; propagation = "" }

abbrev made : File
made = record { path = "/mnt/host/data//"; content = ""; mode = 448; user = ""; group = "" }

missing_mounts-Covered_example : All (Covered library [] (made ∷ [])) (data_mount ∷ [])
unfolding open_util open_hcc
missing_mounts-Covered_example =
    missing_mounts-Covered library [] (data_mount ∷ []) (made ∷ []) refl

abbrev etcd_port : PortMap
etcd_port = record { ip = "10.0.0.1"; protocol = "tcp"; port = pos 2379 }

abbrev bound : Ports
bound = (("0tcp", record { host_ip = "10.0.0.1"; host_port = "0" } ∷ []) ∷ [], ("0tcp", tt) ∷ [])

build_ports-Bound_example :
    ((k : String) → has bound.0 k ≡ has bound.1 k)
    × All (Bound library bound) (etcd_port ∷ [])
    × ((k : String) → bindings bound.0 k ≡ wanted library (etcd_port ∷ []) k)
unfolding open_util open_docker
build_ports-Bound_example = build_ports-Bound library (etcd_port ∷ []) bound refl

abbrev settled : Containers
settled = record containers { current_state = ("new", some 1) ∷ [] }

abbrev settled_pair : Pair settled "new"
unfolding lookup
settled_pair = record {
  current = 1;
  desired = 0;
  current_container = 1;
  desired_container = 0;
  is_current = refl;
  is_desired = refl;
  has_current = refl;
  has_desired = refl;
}

same_files :
    (path : String) → differs (memory.hccs 0).config_files (memory.hccs 1).config_files path ≡ false
unfolding differs unequal lookup
same_files path = ground arith

ensure_up_to_date_idle_example :
    ((ensure_up_to_date "new" settled).0 ≡ ok tt)
    × ((ensure_up_to_date "new" settled).1.memory.world ≡ settled.memory.world)
    × ((ensure_up_to_date "new" settled).1.memory.containers ≡ settled.memory.containers)
    × ((ensure_up_to_date "new" settled).1.memory.configs ≡ settled.memory.configs)
    × ((ensure_up_to_date "new" settled).1.current_state ≡ settled.current_state)
unfolding settled_pair
ensure_up_to_date_idle_example =
    ensure_up_to_date_idle settled "new" settled_pair refl refl refl same_files

abbrev helper : ContainerInstance
helper = record {
  config = record config {
    name = "etcd-config";
    ports = [];
    mounts = record { source = "/"; target = "/mnt/host"; propagation = "" } ∷ [];
    network_mode = "";
  };
  runtime = client;
  status = record { id = "1"; status = "" };
}

abbrev with_helper : Memory
with_helper = (create_configuration_container 1 memory).1

with_configuration_container-Removed_example :
    Removed helper
      (body_of 1 (pure tt) with_helper).1.world
      (with_configuration_container 1 (pure tt) memory).1.world
unfolding open_util open_host open_docker open_single open_hcc ◌>>=◌
with_configuration_container-Removed_example =
    with_configuration_container-Removed 1 memory with_helper helper (pure tt) (λ t. refl) refl refl

abbrev state_or_empty : Outcome ContainersState → ContainersState
state_or_empty (ok s) = s
state_or_empty (err e) = []
state_or_empty panic = []
state_or_empty hang = []

unfoldable open_desired : Unit {0}
unfolding desired_state show_all show_running known_id open_deploy open_hcc open_single open_util
    ◌>>=◌ zoom
open_desired = tt

abbrev shown : ContainersState
unfolding open_desired
shown = state_or_empty (desired_state containers).0

desired_state-ShowsRunning_example :
    (keys shown ≡ keys containers.desired_state) × All ShowsRunning shown
unfolding open_desired
desired_state-ShowsRunning_example = desired_state-ShowsRunning containers shown refl
