-- ===== src/Controlplane/ControllerManager.antt =====
-- kube-controller-manager (pkg/controlplane/kube-controller-manager.go).
use libflexkube.Base.{ℕ, String, true, Option, none, some, List, [], ◌∷◌, append}
use libflexkube.Base.Map.{Map}
use libflexkube.Base.Fault.{Error, wrapf, success, failure}
use libflexkube.Util.{pick_string}
use libflexkube.World.{Library, Call}
use libflexkube.Container.Configured.{HostConfiguredContainer}
use libflexkube.Kubeconfig.{
  unmarshal_certificate, unmarshal_private_key, reread_error, to_yaml_string,
}
use libflexkube.Controlplane.{
  KubeControllerManager, ControlplaneLibrary, common_or_empty, host_or_empty, component_container,
}
use libflexkube.Controlplane.Validator.{first_of, reread_common, validate_component}

-- kubeControllerManager.args
unfoldable pub args : KubeControllerManager → List String
args k =
    "kube-controller-manager"
    ∷ "--use-service-account-credentials"
    ∷ "--cluster-signing-cert-file=/etc/kubernetes/pki/ca.crt"
    ∷ "--cluster-signing-key-file=/etc/kubernetes/pki/ca.key"
    ∷ "--service-account-private-key-file=/etc/kubernetes/pki/service-account.key"
    ∷ "--root-ca-file=/etc/kubernetes/pki/root.crt"
    ∷ "--kubeconfig=/etc/kubernetes/kubeconfig"
    ∷ "--authentication-kubeconfig=/etc/kubernetes/kubeconfig"
    ∷ "--authorization-kubeconfig=/etc/kubernetes/kubeconfig"
    ∷ "--requestheader-client-ca-file=/etc/kubernetes/pki/front-proxy-ca.crt"
    ∷ "--client-ca-file=/etc/kubernetes/pki/ca.crt"
    ∷ append "--flex-volume-plugin-dir=" k.flex_volume_plugin_dir
    ∷ []

-- The kubeconfig that New keeps, whose error it drops.
abbrev pub kubeconfig_text : Library → KubeControllerManager → String
kubeconfig_text lib k = elim (to_yaml_string lib k.kubeconfig) [
  | success text ↦ text
  | failure e ↦ ""
]

in_host : String → String
in_host file = append "/etc/kubernetes/kube-controller-manager/" file

-- The files of kubeControllerManager.ToHostConfiguredContainer
unfoldable pub config_files : Library → KubeControllerManager → Map String
unfolding in_host
config_files lib k =
    (in_host "kubeconfig", kubeconfig_text lib k)
    ∷ (in_host "pki/service-account.key", k.service_account_private_key)
    ∷ (in_host "pki/ca.crt", (common_or_empty k.common).kubernetes_ca_certificate)
    ∷ (in_host "pki/ca.key", k.kubernetes_ca_key)
    ∷ (
      in_host "pki/root.crt",
      append k.root_ca_certificate (common_or_empty k.common).kubernetes_ca_certificate,
    )
    ∷ (in_host "pki/front-proxy-ca.crt", (common_or_empty k.common).front_proxy_ca_certificate)
    ∷ []

-- kubeControllerManager.ToHostConfiguredContainer, with the address of docker.DefaultConfig()
unfoldable pub to_host_configured_container :
    Library → KubeControllerManager → ℕ → HostConfiguredContainer
to_host_configured_container lib k =
    component_container (host_or_empty k.host) (config_files lib k) "kube-controller-manager"
      (pick_string
        ((common_or_empty k.common).image ∷ "k8s.gcr.io/kube-controller-manager:v1.24.3" ∷ []))
      ""
      (record {
        source = "/etc/kubernetes/kube-controller-manager/";
        target = "/etc/kubernetes";
        propagation = "";
      }
        ∷ [])
      (args k)

-- The error of reading the component again, in the order of the sorted keys.
unfoldable pub reread_controller_manager : Library → KubeControllerManager → Option Error
reread_controller_manager lib k = first_of (
    reread_common lib k.common
    ∷ reread_error lib k.kubeconfig
    ∷ unmarshal_private_key lib k.kubernetes_ca_key
    ∷ unmarshal_certificate lib k.root_ca_certificate
    ∷ unmarshal_private_key lib k.service_account_private_key
    ∷ [])

-- KubeControllerManager.Validate
unfoldable pub validate_controller_manager :
    ControlplaneLibrary → List Call → KubeControllerManager → Option Error
validate_controller_manager lib calls k = validate_component lib calls true (record {
  common = k.common;
  host = k.host;
  kubeconfig = k.kubeconfig;
  yaml = reread_controller_manager lib.base k;
})

-- What KubeControllerManager.New writes to its receiver.
abbrev pub filled_controller_manager : KubeControllerManager → KubeControllerManager
filled_controller_manager k = record k {
  common = some (common_or_empty k.common);
  host = some (host_or_empty k.host);
}

-- The error of KubeControllerManager.New
unfoldable pub new_controller_manager_error :
    ControlplaneLibrary → List Call → KubeControllerManager → Option Error
new_controller_manager_error lib calls k =
    elim (validate_controller_manager lib calls (filled_controller_manager k)) [
      | none ↦ none
      | some e ↦ some (wrapf "validating Kubernetes Controller Manager configuration" e)
    ]
