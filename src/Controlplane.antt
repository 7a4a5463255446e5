-- ===== src/Controlplane.antt =====
-- The static Kubernetes controlplane (pkg/controlplane): its configuration, and what its three
-- components share. The children have one component each, the settings that a controlplane gives
-- them, and its Validate and New.
pub mod Validator
pub mod ApiServer
pub mod ControllerManager
pub mod Scheduler
pub mod Build
pub mod Deployment
use libflexkube.Base.{ℕ, String, Bool, false, Option, none, some, List, [], ◌∷◌}
use libflexkube.Base.Map.{Map}
use libflexkube.Base.Fault.{Error, Result}
use libflexkube.Util.{ℤ}
use libflexkube.World.{Library, Call}
use libflexkube.Host.Config.{Host, SshConfig}
use libflexkube.Container.Types.{Mount}
use libflexkube.Container.Configured.{HostConfiguredContainer}
use libflexkube.Container.State.{ContainersState}
use libflexkube.Kubeconfig.{ClientConfig}
use libflexkube.Pki.{Pki}

-- controlplane.Common
pub record Common : Type 0 where
  pub image : String
  pub kubernetes_ca_certificate : String
  pub front_proxy_ca_certificate : String

-- &Common{}
abbrev pub empty_common : Common
empty_common = record {
  image = "";
  kubernetes_ca_certificate = "";
  front_proxy_ca_certificate = "";
}

-- controlplane.KubeAPIServer, and kubeAPIServer, whose fields are those of the checked one.
pub record KubeApiServer : Type 0 where
  pub common : Option Common
  pub host : Option Host
  pub api_server_certificate : String
  pub api_server_key : String
  pub service_account_private_key : String
  pub bind_address : String
  pub advertise_address : String
  pub etcd_servers : List String
  pub service_cidr : String
  pub secure_port : ℤ
  pub front_proxy_certificate : String
  pub front_proxy_key : String
  pub kubelet_client_certificate : String
  pub kubelet_client_key : String
  pub etcd_ca_certificate : String
  pub etcd_client_certificate : String
  pub etcd_client_key : String

-- controlplane.KubeControllerManager
pub record KubeControllerManager : Type 0 where
  pub common : Option Common
  pub host : Option Host
  pub kubeconfig : ClientConfig
  pub kubernetes_ca_key : String
  pub service_account_private_key : String
  pub root_ca_certificate : String
  pub flex_volume_plugin_dir : String

-- controlplane.KubeScheduler
pub record KubeScheduler : Type 0 where
  pub common : Option Common
  pub host : Option Host
  pub kubeconfig : ClientConfig

-- controlplane.Controlplane; a nil state and an empty one are handled alike.
pub record Controlplane : Type 0 where
  pub common : Option Common
  pub ssh : Option SshConfig
  pub api_server_address : String
  pub api_server_port : ℤ
  pub kube_api_server : KubeApiServer
  pub kube_controller_manager : KubeControllerManager
  pub kube_scheduler : KubeScheduler
  pub destroy : Bool
  pub pki : Option Pki
  pub state : ContainersState

-- What the code calls and is not modelled: the key and the certificate of utiltest.GeneratePKIErr,
-- which may fail, after these calls; and the YAML of the scheduler's configuration, a constant.
pub record ControlplaneLibrary : Type 0 where
  pub base : Library
  pub fake_pki : List Call → Result (String × String)
  pub scheduler_config : Result String

-- `if k.Common == nil { k.Common = &Common{} }`, `if k.Host == nil { k.Host = &host.Host{} }`
abbrev pub common_or_empty : Option Common → Common
common_or_empty none = empty_common
common_or_empty (some c) = c

abbrev pub host_or_empty : Option Host → Host
host_or_empty none = record { direct_config = none; ssh_config = none }
host_or_empty (some h) = h

-- A container of a component, with the address of docker.DefaultConfig().
abbrev pub component_container :
    Host
    → Map String
    → String
    → String
    → String
    → List Mount
    → List String
    → ℕ
    → HostConfiguredContainer
component_container host config_files name image network_mode mounts args docker = record {
  host = host;
  config_files = config_files;
  container = record {
    config = record {
      name = name;
      image = image;
      args = args;
      entrypoint = [];
      ports = [];
      mounts = mounts;
      privileged = false;
      network_mode = network_mode;
      pid_mode = "";
      ipc_mode = "";
      user = "";
      group = "";
      env = [];
    };
    status = none;
    docker = some docker;
  };
  post_start = none;
}
