-- ===== src/Examples/Kubelets.antt =====
-- The theorems on kubelets at concrete inputs.
use libflexkube.Base.{true, false, none, some, [], ◌∷◌, ◌≡◌, refl, is_some}
use libflexkube.Base.Exec.{ok, ◌>>=◌, zoom}
use libflexkube.Container.State.{StateMap}
use libflexkube.Kubeconfig.{ClientConfig}
use libflexkube.Resource.Named.{Shown}
use libflexkube.Resource.{numbered}
use libflexkube.Kubelet.{Kubelet, KubeletLibrary}
use libflexkube.Kubelet.Pool.{Pool}
use libflexkube.Kubelet.Pool
use libflexkube.Kubelet.Admin.{needs_admin, validate_kubelet-admin_config}
use libflexkube.Kubelet.Renewed.{new_pool_after_validate}
use libflexkube.Examples.Inputs.{library, memory, direct_host}
use libflexkube.Examples.Opened.{
  open_util, open_host, open_docker, open_single, open_hcc, open_deploy, open_resources,
  open_kubeconfig, open_kubelet,
}

abbrev kubelet_library : KubeletLibrary
kubelet_library = record {
  base = library;
  config_file = λ k. "kind: KubeletConfiguration";
  trim_slash = λ t. t;
  hook = λ k. 0;
}

abbrev access : ClientConfig
access = record {
  server = "10.0.0.1:6443";
  ca_certificate = "ca";
  client_certificate = "";
  client_key = "";
  token = "abcdef.0123456789abcdef";
}

abbrev worker : Kubelet
worker = record {
  address = "10.0.0.3";
  image = "";
  host = direct_host;
  bootstrap_config = some access;
  kubernetes_ca_certificate = "ca";
  cluster_dns_ips = [];
  name = "worker";
  taints = [];
  labels = [];
  privileged_labels = [];
  admin_config = some access;
  cgroup_driver = "systemd";
  system_reserved = [];
  kube_reserved = [];
  hairpin_mode = "";
  volume_plugin_dir = "/plugins";
  extra_mounts = [];
  wait_for_node_ready = true;
  extra_args = [];
}

validate_kubelet-admin_config_example : is_some worker.admin_config ≡ needs_admin worker
unfolding open_util open_host open_kubeconfig open_kubelet
validate_kubelet-admin_config_example = validate_kubelet-admin_config kubelet_library worker refl

abbrev pool : Pool
pool = record {
  image = "kubelet:v1";
  ssh = none;
  bootstrap_config = some access;
  kubelets = record worker { bootstrap_config = none } ∷ [];
  kubernetes_ca_certificate = "ca";
  cluster_dns_ips = [];
  taints = [];
  labels = ("zone", "a") ∷ [];
  privileged_labels = [];
  admin_config = none;
  cgroup_driver = "";
  system_reserved = [];
  kube_reserved = [];
  hairpin_mode = "";
  volume_plugin_dir = "";
  extra_mounts = [];
  pki = none;
  state = [];
  wait_for_node_ready = false;
  extra_args = [];
}

new_pool_after_validate_example :
    (states : StateMap × StateMap) × ((Pool.new kubelet_library pool memory).0 ≡ ok (some states))
    × Shown pool.state states.0
    × Shown (numbered kubelet_library.base 0 pool.kubelets) states.1
unfolding open_util open_host open_docker open_single open_hcc open_deploy open_resources
    open_kubeconfig open_kubelet ◌>>=◌ zoom
new_pool_after_validate_example = new_pool_after_validate kubelet_library pool memory refl
