-- ===== src/Examples/Controlplanes.antt =====
-- A controlplane with its PKI, and one that is to be destroyed (pkg/controlplane).
use libflexkube.Base.{true, false, none, some, [], ◌∷◌, ◌≡◌, ◌⊎◌, refl, append, is_empty}
use libflexkube.Base.Fault.{success}
use libflexkube.Base.Exec.{ok, zoom, ◌>>=◌}
use libflexkube.Util.{pos}
use libflexkube.World.{perform}
use libflexkube.Pki.{Certificate, Pki}
use libflexkube.Pki.Merge.{empty_certificate}
use libflexkube.Container.Configured.{HostConfiguredContainer}
use libflexkube.Container.State.{StateMap}
use libflexkube.Controlplane.{
  KubeApiServer, Controlplane, ControlplaneLibrary, empty_common, component_container,
}
use libflexkube.Controlplane.ApiServer.{validate_api_server}
use libflexkube.Controlplane.ApiServer.Valid.{IsServing, validate_api_server-IsServing}
use libflexkube.Controlplane.Build.{build_components}
use libflexkube.Controlplane.Build.Again.{build_components_again}
use libflexkube.Controlplane.Deployment.{Built, new}
use libflexkube.Controlplane.Deployment.Destroyed.{new_destroyed}
use libflexkube.Examples.Inputs.{library, memory, direct_host}
use libflexkube.Examples.Opened.{
  open_util, open_host, open_docker, open_single, open_hcc, open_deploy, open_resources,
  open_kubeconfig,
}
use libflexkube.Controlplane.Validator
use libflexkube.Controlplane.ApiServer
use libflexkube.Controlplane.Build
use libflexkube.Controlplane.Deployment

unfoldable open_controlplane : Unit {0}
unfolding Validator.reread_validator Validator.validate_component_host Validator.validate_chosen
    Validator.validate_component ApiServer.reread_api_server ApiServer.validate_api_server
    Build.propagate_kubeconfig Build.propagate_host Build.propagate_common Build.merge_etcd_client
    Build.merge_etcd_certificates Build.merge_api_server_certificates
    Build.kube_api_server_pki_integration Build.with_addresses Build.build_kube_api_server
    Build.build_kube_controller_manager Build.build_kube_scheduler Build.build_components
    Deployment.fill_components Deployment.containers_with_state Deployment.validate_filled
    Deployment.validate Deployment.new_validated Deployment.new
open_controlplane = tt

abbrev controlplane_library : ControlplaneLibrary
controlplane_library = record {
  base = library;
  fake_pki = λ calls. success ("certificate", "key");
  scheduler_config = success "yaml";
}

abbrev bare_api_server : KubeApiServer
bare_api_server = record {
  common = some empty_common;
  host = some direct_host;
  api_server_certificate = "";
  api_server_key = "";
  service_account_private_key = "";
  bind_address = "";
  advertise_address = "";
  etcd_servers = "https://10.0.0.1:2379" ∷ [];
  service_cidr = "11.0.0.0/24";
  secure_port = pos 0;
  front_proxy_certificate = "";
  front_proxy_key = "";
  kubelet_client_certificate = "";
  kubelet_client_key = "";
  etcd_ca_certificate = "";
  etcd_client_certificate = "";
  etcd_client_key = "";
}

abbrev own : Certificate
own = record empty_certificate { x509_certificate = "certificate"; private_key = "key" }

abbrev pki : Pki
pki = record {
  certificate = empty_certificate;
  root_ca = some own;
  etcd = some (record {
    certificate = empty_certificate;
    ca = some own;
    peers = [];
    servers = none;
    client_cns = [];
    peer_certificates = [];
    server_certificates = [];
    client_certificates = ("root", some own) ∷ [];
  });
  kubernetes = some (record {
    certificate = empty_certificate;
    ca = some own;
    front_proxy_ca = some own;
    kube_api_server = some (record {
      certificate = empty_certificate;
      external_names = [];
      server_ips = [];
      server_certificate = some own;
      kubelet_certificate = some own;
      front_proxy_client_certificate = some own;
    });
    admin_certificate = none;
    kube_controller_manager_certificate = some own;
    kube_scheduler_certificate = some own;
    service_account_certificate = some own;
  });
}

abbrev bare : Controlplane
bare = record {
  common = none;
  ssh = none;
  api_server_address = "10.0.0.2";
  api_server_port = pos 6443;
  kube_api_server = bare_api_server;
  kube_controller_manager = record {
    common = some empty_common;
    host = none;
    kubeconfig = record {
      server = "";
      ca_certificate = "";
      client_certificate = "";
      client_key = "";
      token = "";
    };
    kubernetes_ca_key = "";
    service_account_private_key = "";
    root_ca_certificate = "";
    flex_volume_plugin_dir = "";
  };
  kube_scheduler = record {
    common = none;
    host = none;
    kubeconfig = record {
      server = "";
      ca_certificate = "";
      client_certificate = "";
      client_key = "";
      token = "";
    };
  };
  destroy = false;
  pki = some pki;
  state = [];
}

abbrev filled_api_server : KubeApiServer
filled_api_server = record bare_api_server {
  common = some (record {
    image = "";
    kubernetes_ca_certificate = "certificate";
    front_proxy_ca_certificate = "certificate";
  });
  api_server_certificate = "certificate";
  api_server_key = "key";
  service_account_private_key = "key";
  bind_address = "10.0.0.2";
  advertise_address = "10.0.0.2";
  secure_port = pos 6443;
  front_proxy_certificate = "certificate";
  front_proxy_key = "key";
  kubelet_client_certificate = "certificate";
  kubelet_client_key = "key";
  etcd_ca_certificate = "certificate";
  etcd_client_certificate = "certificate";
  etcd_client_key = "key";
}

abbrev filled : Controlplane
filled = record bare {
  common = some empty_common;
  kube_api_server = filled_api_server;
  kube_controller_manager = record (bare.kube_controller_manager) {
    common = filled_api_server.common;
    host = some direct_host;
    kubeconfig = record {
      server = append "10.0.0.2" ":0";
      ca_certificate = "certificate";
      client_certificate = "certificate";
      client_key = "key";
      token = "";
    };
    kubernetes_ca_key = "key";
    service_account_private_key = "key";
    root_ca_certificate = "certificate";
    flex_volume_plugin_dir = "/usr/libexec/kubernetes/kubelet-plugins/volume/exec";
  };
  kube_scheduler = record (bare.kube_scheduler) {
    host = some direct_host;
    kubeconfig = record {
      server = append "10.0.0.2" ":0";
      ca_certificate = "certificate";
      client_certificate = "certificate";
      client_key = "key";
      token = "";
    };
  };
}

build_components_again_example : build_components library filled ≡ some filled
unfolding open_util open_resources open_controlplane
build_components_again_example = build_components_again library bare filled refl

validate_api_server-IsServing_example : IsServing library filled_api_server
unfolding open_util open_host open_resources open_kubeconfig open_controlplane
validate_api_server-IsServing_example =
    validate_api_server-IsServing controlplane_library [] filled_api_server refl

abbrev old_container : HostConfiguredContainer
old_container = component_container direct_host [] "kube-apiserver" "image" "host" [] [] 0

abbrev destroyed : Controlplane
destroyed = record bare { destroy = true; state = ("kube-apiserver", some old_container) ∷ [] }

abbrev previous : StateMap
previous = ("kube-apiserver", some 9) ∷ []

abbrev remaining : Built
remaining = some (previous, [])

destroyed_run : (new controlplane_library (memory, destroyed)).0 ≡ ok remaining
unfolding open_util open_host open_docker open_single open_hcc open_deploy open_resources
    open_kubeconfig open_controlplane ◌>>=◌ zoom perform
destroyed_run = refl

new_destroyed_example :
    (is_empty destroyed.state ≡ false)
    × ((remaining ≡ none) ⊎ ((state : StateMap) × (remaining ≡ some (state, []))))
new_destroyed_example =
    new_destroyed controlplane_library destroyed memory remaining refl destroyed_run
