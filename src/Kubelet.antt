-- ===== src/Kubelet.antt =====
-- One kubelet (pkg/kubelet/kubelet.go): its validation, its arguments and mounts, and its container.
pub mod Pool
pub mod Renewed
pub mod Admin
use libflexkube.Base.{
  ℕ, String, Bool, true, false, not, Option, none, some, List, [], ◌∷◌, ◌++◌, ◌==◌, if◌then◌else◌,
  append, is_empty, ◌&&◌,
}
use libflexkube.Base.Map.{Map, lookup}
use libflexkube.Base.Fault.{
  option_error, Error, errorf, wrapf, error_if, error_of, Result, success, failure,
}
use libflexkube.Util.{return_errors, join_sorted}
use libflexkube.World.{Library}
use libflexkube.Host.Config.{Host}
use libflexkube.Host.Transport.{validate_host}
use libflexkube.Container.Types.{Mount}
use libflexkube.Container.Configured.{HostConfiguredContainer}
use libflexkube.Kubeconfig.{
  reread_error, field_error, unmarshal_certificate, ClientConfig, validate_config, to_yaml_string,
}

-- kubelet.Kubelet
pub record Kubelet : Type 0 where
  pub address : String
  pub image : String
  pub host : Host
  pub bootstrap_config : Option ClientConfig
  pub kubernetes_ca_certificate : String
  pub cluster_dns_ips : List String
  pub name : String
  pub taints : Map String
  pub labels : Map String
  pub privileged_labels : Map String
  pub admin_config : Option ClientConfig
  pub cgroup_driver : String
  pub system_reserved : Map String
  pub kube_reserved : Map String
  pub hairpin_mode : String
  pub volume_plugin_dir : String
  pub extra_mounts : List Mount
  pub wait_for_node_ready : Bool
  pub extra_args : List String

-- What the code calls of third parties: yaml.Marshal of the KubeletConfiguration that a kubelet is put
-- into, and strings.TrimSuffix(text, "/"). Writing YAML of these texts, numbers and maps does not fail.
-- `hook` is the number under which the world runs a kubelet's hook.
pub record KubeletLibrary : Type 0 where
  pub base : Library
  pub config_file : Kubelet → String
  pub trim_slash : String → String
  pub hook : Kubelet → ℕ

reread_client : Library → Option ClientConfig → Option Error
reread_client lib none = none
reread_client lib (some c) = reread_error lib c

-- The first error of yaml.Unmarshal of what yaml.Marshal writes of a kubelet, whose keys are sorted.
unfoldable pub reread_kubelet : Library → Kubelet → Option Error
unfolding reread_client
reread_kubelet lib k = elim (reread_client lib k.admin_config) [
  | some e ↦ some e
  | none ↦ elim (reread_client lib k.bootstrap_config) [
    | some e ↦ some e
    | none ↦
        field_error k.kubernetes_ca_certificate
          (unmarshal_certificate lib k.kubernetes_ca_certificate) none
  ]
]

-- Kubelet.validateBootstrapConfig
unfoldable pub validate_bootstrap_config : Library → Kubelet → List Error
validate_bootstrap_config lib k = elim k.bootstrap_config [
  | none ↦ errorf "bootstrapConfig must be set" ∷ []
  | some c ↦ elim (validate_config lib c) [
    | some e ↦ wrapf "validating bootstrap config" e ∷ []
    | none ↦ error_of (wrapf "generating bootstrap kubeconfig") (to_yaml_string lib c)
  ]
]

-- Kubelet.adminConfigRequired
unfoldable pub admin_config_required : Kubelet → List Error
admin_config_required k =
    error_if (not (is_empty k.privileged_labels))
      (errorf "privilegedLabels requested, but adminConfig is not set")
    ++ error_if k.wait_for_node_ready
        (errorf "waitForNodeReady requested, but adminConfig is not set")

-- Kubelet.validateAdminConfig
unfoldable pub validate_admin_config : Library → Kubelet → Option Error
validate_admin_config lib k = elim k.admin_config [
  | none ↦ return_errors (admin_config_required k)
  | some c ↦ return_errors (
      error_if (not k.wait_for_node_ready && is_empty k.privileged_labels)
        (errorf "adminConfig set but not used")
      ++ (option_error (wrapf "validating admin config") (validate_config lib c)
          ++ error_of (wrapf "generating admin kubeconfig") (to_yaml_string lib c)))
]

-- Kubelet.Validate
unfoldable pub validate_kubelet : KubeletLibrary → Kubelet → Option Error
validate_kubelet lib k = return_errors (
    option_error (λ e. wrapf "deserializing configuration" (lib.base.yaml_error e))
      (reread_kubelet lib.base k)
    ++ (error_if (k.kubernetes_ca_certificate == "")
          (errorf "kubernetesCACertificate can't be empty")
        ++ (validate_bootstrap_config lib.base k
            ++ (error_if (k.volume_plugin_dir == "") (errorf "volumePluginDir can't be empty")
                ++ (option_error (λ e. e) (validate_admin_config lib.base k)
                    ++ (option_error (wrapf "validating host configuration")
                          (validate_host lib.base k.host)
                        ++ error_if (k.name == "") (errorf "name can't be empty")))))))

-- The error of Kubelet.New, and its value
unfoldable pub new_kubelet_error : KubeletLibrary → Kubelet → Option Error
new_kubelet_error lib k = elim (validate_kubelet lib k) [
  | none ↦ none
  | some e ↦ some (wrapf "validating kubelet configuration" e)
]

unfoldable pub new_kubelet : Kubelet → Kubelet
new_kubelet k = record k {
  image = if k.image == "" then "quay.io/flexkube/kubelet:v1.24.3" else k.image;
}

-- kubelet.args
unfoldable pub args : Kubelet → List String
args k =
    ("--config=/etc/kubernetes/kubelet.yaml"
      ∷ "--kubeconfig=/var/lib/kubelet/kubeconfig"
      ∷ "--bootstrap-kubeconfig=/etc/kubernetes/bootstrap-kubeconfig"
      ∷ append "--node-ip=" k.address
      ∷ append "--hostname-override=" k.name
      ∷ k.extra_args)
    ++ ((if is_empty k.labels
          then []
          else append "--node-labels=" (join_sorted k.labels "=" ",") ∷ [])
        ++ (if is_empty k.taints
            then []
            else append "--register-with-taints=" (join_sorted k.taints "=:" ",") ∷ []))

bind : String → String → Mount
bind source target = record { source = source; target = target; propagation = "" }

-- kubelet.mounts
unfoldable pub mounts : KubeletLibrary → Kubelet → List Mount
unfolding bind
mounts lib k =
    bind "/etc/os-release" "/etc/os-release"
    ∷ bind "/etc/kubernetes/kubelet/" "/etc/kubernetes/"
    ∷ bind "/run/docker.sock" "/var/run/docker.sock"
    ∷ bind "/etc/cni/net.d/" "/etc/cni/net.d"
    ∷ bind "/opt/cni/bin/" "/host/opt/cni/bin"
    ∷ bind "/var/lib/docker/" "/var/lib/docker"
    ∷ record { source = "/var/lib/kubelet/"; target = "/var/lib/kubelet"; propagation = "shared" }
    ∷ bind "/var/lib/cni/" "/var/lib/cni"
    ∷ bind "/var/log/pods/" "/var/log/pods"
    ∷ bind "/sys/" "/sys"
    ∷ bind (append (lib.trim_slash k.volume_plugin_dir) "/")
        "/usr/libexec/kubernetes/kubelet-plugins/volume/exec"
    ∷ k.extra_mounts

-- `kubeconfig, _ := config.ToYAMLString()`
text_or_empty : Result String → String
text_or_empty (success text) = text
text_or_empty (failure e) = ""

-- kubelet.configFiles, where a nil bootstrap configuration is not valid
unfoldable pub config_files : KubeletLibrary → Kubelet → Map String
unfolding text_or_empty
config_files lib k =
    ("/etc/kubernetes/kubelet/kubelet.yaml", lib.config_file k)
    ∷ (
      "/etc/kubernetes/kubelet/bootstrap-kubeconfig",
      elim k.bootstrap_config [ none ↦ "" | some c ↦ text_or_empty (to_yaml_string lib.base c) ],
    )
    ∷ ("/etc/kubernetes/kubelet/pki/ca.crt", k.kubernetes_ca_certificate)
    ∷ []

-- kubelet.ToHostConfiguredContainer, with the address of docker.DefaultConfig()
unfoldable pub to_host_configured_container : KubeletLibrary → Kubelet → ℕ → HostConfiguredContainer
to_host_configured_container lib k docker = record {
  host = k.host;
  config_files = config_files lib k;
  container = record {
    config = record {
      name = "kubelet";
      image = k.image;
      args = args k;
      entrypoint = [];
      ports = [];
      mounts = mounts lib k;
      privileged = true;
      network_mode = "host";
      pid_mode = "host";
      ipc_mode = "";
      user = "";
      group = "";
      env = [];
    };
    status = none;
    docker = some docker;
  };
  post_start = some (lib.hook k);
}
