-- ===== src/Controlplane/ApiServer.antt =====
-- kube-apiserver (pkg/controlplane/kube-apiserver.go).
pub mod Valid
use libflexkube.Base.{ℕ, String, false, Option, none, some, List, [], ◌∷◌, ◌++◌, append, is_empty}
use libflexkube.Base.Map.{Map}
use libflexkube.Base.Fault.{Error, errorf, wrapf, error_if, option_error}
use libflexkube.Util.{pick_string, return_errors, join_commas}
use libflexkube.World.{Library, Call}
use libflexkube.Container.Configured.{HostConfiguredContainer}
use libflexkube.Kubeconfig.{unmarshal_certificate, unmarshal_private_key}
use libflexkube.Controlplane.{
  KubeApiServer, ControlplaneLibrary, empty_common, common_or_empty, host_or_empty,
  component_container,
}
use libflexkube.Controlplane.Validator.{
  first_of, reread_common, fake_kubeconfig, validate_component,
}

in_host : String → String
in_host file = append "/etc/kubernetes/kube-apiserver/pki/" file

in_container : String → String
in_container file = append "/etc/kubernetes/pki/" file

-- kubeAPIServer.configFiles
unfoldable pub config_files : KubeApiServer → Map String
unfolding in_host
config_files k =
    (in_host "ca.crt", (common_or_empty k.common).kubernetes_ca_certificate)
    ∷ (in_host "apiserver.crt", k.api_server_certificate)
    ∷ (in_host "apiserver.key", k.api_server_key)
    ∷ (in_host "service-account.key", k.service_account_private_key)
    ∷ (in_host "front-proxy-ca.crt", (common_or_empty k.common).front_proxy_ca_certificate)
    ∷ (in_host "front-proxy-client.crt", k.front_proxy_certificate)
    ∷ (in_host "front-proxy-client.key", k.front_proxy_key)
    ∷ (in_host "apiserver-kubelet-client.crt", k.kubelet_client_certificate)
    ∷ (in_host "apiserver-kubelet-client.key", k.kubelet_client_key)
    ∷ (in_host "etcd/ca.crt", k.etcd_ca_certificate)
    ∷ (in_host "apiserver-etcd-client.crt", k.etcd_client_certificate)
    ∷ (in_host "apiserver-etcd-client.key", k.etcd_client_key)
    ∷ []

-- kubeAPIServer.args
unfoldable pub args : Library → KubeApiServer → List String
unfolding in_container
args lib k =
    "kube-apiserver"
    ∷ append "--etcd-servers=" (join_commas k.etcd_servers)
    ∷ append "--client-ca-file=" (in_container "ca.crt")
    ∷ append "--tls-cert-file=" (in_container "apiserver.crt")
    ∷ append "--tls-private-key-file=" (in_container "apiserver.key")
    ∷ "--enable-bootstrap-token-auth=true"
    ∷ append "--service-cluster-ip-range=" k.service_cidr
    ∷ "--allow-privileged=true"
    ∷ "--authorization-mode=RBAC,Node"
    ∷ append "--service-account-key-file=" (in_container "service-account.key")
    ∷ append "--advertise-address=" k.advertise_address
    ∷ append "--secure-port=" (lib.itoa k.secure_port)
    ∷ "--kubelet-preferred-address-types=InternalIP,Hostname,InternalDNS,ExternalDNS,ExternalIP"
    ∷ append "--requestheader-client-ca-file=" (in_container "front-proxy-ca.crt")
    ∷ append "--proxy-client-cert-file=" (in_container "front-proxy-client.crt")
    ∷ append "--proxy-client-key-file=" (in_container "front-proxy-client.key")
    ∷ "--requestheader-allowed-names="
    ∷ "--requestheader-extra-headers-prefix=X-Remote-Extra-"
    ∷ "--requestheader-group-headers=X-Remote-Group"
    ∷ "--requestheader-username-headers=X-Remote-User"
    ∷ append "--kubelet-client-certificate=" (in_container "apiserver-kubelet-client.crt")
    ∷ append "--kubelet-client-key=" (in_container "apiserver-kubelet-client.key")
    ∷ append "--kubelet-certificate-authority=" (in_container "ca.crt")
    ∷ append "--etcd-cafile=" (in_container "etcd/ca.crt")
    ∷ append "--etcd-certfile=" (in_container "apiserver-etcd-client.crt")
    ∷ append "--etcd-keyfile=" (in_container "apiserver-etcd-client.key")
    ∷ "--enable-admission-plugins=NodeRestriction,PodSecurityPolicy"
    ∷ "--permit-port-sharing=true"
    ∷ "--service-account-issuer=https://kubernetes.default.svc"
    ∷ append "--service-account-signing-key-file=" (in_container "service-account.key")
    ∷ []

-- kubeAPIServer.ToHostConfiguredContainer, with the address of docker.DefaultConfig()
unfoldable pub to_host_configured_container : Library → KubeApiServer → ℕ → HostConfiguredContainer
to_host_configured_container lib k =
    component_container (host_or_empty k.host) (config_files k) "kube-apiserver"
      (pick_string ((common_or_empty k.common).image ∷ "k8s.gcr.io/kube-apiserver:v1.24.3" ∷ []))
      "host"
      (record {
        source = "/etc/kubernetes/kube-apiserver/pki";
        target = "/etc/kubernetes/pki";
        propagation = "";
      }
        ∷ [])
      (args lib k)

-- The errors of reading the fields of the component again: none is left out, and the keys are sorted.
abbrev pub api_server_reads : Library → KubeApiServer → List (Option Error)
api_server_reads lib k =
    unmarshal_certificate lib k.api_server_certificate
    ∷ unmarshal_private_key lib k.api_server_key
    ∷ reread_common lib k.common
    ∷ unmarshal_certificate lib k.etcd_ca_certificate
    ∷ unmarshal_certificate lib k.etcd_client_certificate
    ∷ unmarshal_private_key lib k.etcd_client_key
    ∷ unmarshal_certificate lib k.front_proxy_certificate
    ∷ unmarshal_private_key lib k.front_proxy_key
    ∷ unmarshal_certificate lib k.kubelet_client_certificate
    ∷ unmarshal_private_key lib k.kubelet_client_key
    ∷ []

unfoldable pub reread_api_server : Library → KubeApiServer → Option Error
reread_api_server lib k = first_of (api_server_reads lib k)

-- KubeAPIServer.Validate, after these calls; the kubeconfig is made up.
unfoldable pub validate_api_server : ControlplaneLibrary → List Call → KubeApiServer → Option Error
validate_api_server lib calls k = return_errors (
    option_error (λ e. e)
      (validate_component lib calls false (record {
        common = k.common;
        host = k.host;
        kubeconfig = fake_kubeconfig "" "";
        yaml = reread_api_server lib.base k;
      }))
    ++ error_if (is_empty k.etcd_servers) (errorf "at least one etcd server must be defined"))

-- What KubeAPIServer.New writes to its receiver.
abbrev pub filled_api_server : KubeApiServer → KubeApiServer
filled_api_server k = record k {
  common = some (common_or_empty k.common);
  host = some (host_or_empty k.host);
}

-- The error of KubeAPIServer.New
unfoldable pub new_api_server_error : ControlplaneLibrary → List Call → KubeApiServer → Option Error
new_api_server_error lib calls k = elim (validate_api_server lib calls (filled_api_server k)) [
  | none ↦ none
  | some e ↦ some (wrapf "validating Kubernetes API server configuration" e)
]
