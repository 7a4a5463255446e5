-- ===== src/Controlplane/Build.antt =====
-- The settings that a controlplane gives its components (pkg/controlplane/controlplane.go).
pub mod Again
use libflexkube.Base.{
  ℕ, String, Bool, not, Option, none, some, List, [], ◌∷◌, ◌==◌, if◌then◌else◌, append, ◌&&◌,
}
use libflexkube.Util.{ℤ, is_zero, pick_string}
use libflexkube.World.{Library}
use libflexkube.Host.Config.{Host, build_config}
use libflexkube.Kubeconfig.{ClientConfig}
use libflexkube.Pki.{Certificate, EtcdPki, KubeApiServerPki, KubernetesPki, Pki}
use libflexkube.Etcd.Cluster.{certificate_of}
use libflexkube.Controlplane.{
  Common, KubeApiServer, KubeControllerManager, KubeScheduler, Controlplane, common_or_empty,
  host_or_empty,
}

-- The texts of a certificate, "" of nil.
abbrev pub x509_of : Option Certificate → String
x509_of none = ""
x509_of (some c) = c.x509_certificate

abbrev pub key_of : Option Certificate → String
key_of none = ""
key_of (some c) = c.private_key

-- c.PKI.Kubernetes, and a certificate of it, nil where anything on the way is nil.
abbrev pub kubernetes_of : Controlplane → Option KubernetesPki
kubernetes_of c = elim c.pki [ none ↦ none | some p ↦ p.kubernetes ]

abbrev pub of_kubernetes : (KubernetesPki → Option Certificate) → Controlplane → Option Certificate
of_kubernetes get c = elim (kubernetes_of c) [ none ↦ none | some k ↦ get k ]

abbrev pub pick_over : String → String → String
pick_over own other = pick_string (own ∷ other ∷ [])

-- Controlplane.propagateKubeconfig, where the Common has been made
unfoldable pub propagate_kubeconfig : Library → Controlplane → ClientConfig → ClientConfig
propagate_kubeconfig lib c config = record config {
  ca_certificate = pick_string (
      config.ca_certificate
      ∷ (common_or_empty c.common).kubernetes_ca_certificate
      ∷ x509_of (of_kubernetes (λ k. k.ca) c)
      ∷ []);
  server =
      if not (c.api_server_address == "") && not (is_zero c.api_server_port)
      then pick_over config.server
          (append c.api_server_address (append ":" (lib.itoa c.api_server_port)))
      else config.server;
}

-- Controlplane.propagateHost
unfoldable pub propagate_host : Controlplane → Option Host → Host
propagate_host c h =
    build_config (host_or_empty h) (record { direct_config = none; ssh_config = c.ssh })

-- Controlplane.propagateCommon, of a Common; nil stays nil, since what is made for it is dropped.
unfoldable pub propagate_common : Controlplane → Option Common → Option Common
propagate_common c none = none
propagate_common c (some common) = some (record {
  image = pick_over common.image (common_or_empty c.common).image;
  kubernetes_ca_certificate = pick_string (
      common.kubernetes_ca_certificate
      ∷ (common_or_empty c.common).kubernetes_ca_certificate
      ∷ x509_of (of_kubernetes (λ k. k.ca) c)
      ∷ []);
  front_proxy_ca_certificate = pick_string (
      common.front_proxy_ca_certificate
      ∷ (common_or_empty c.common).front_proxy_ca_certificate
      ∷ x509_of (of_kubernetes (λ k. k.front_proxy_ca) c)
      ∷ []);
})

-- The Common that propagateCommon makes where the controlplane has none.
abbrev pub with_common : Controlplane → Controlplane
with_common c = record c { common = some (common_or_empty c.common) }

-- One turn of the loop of mergeEtcdCertificatesFromPKI; a nil pointer in the map panics.
unfoldable pub merge_etcd_client : EtcdPki → String → KubeApiServer → Option KubeApiServer
merge_etcd_client pki cn a = elim (certificate_of pki.client_certificates cn) [
  | none ↦ none
  | some cert ↦ some (record a {
    etcd_client_certificate = pick_over a.etcd_client_certificate (x509_of cert);
    etcd_client_key = pick_over a.etcd_client_key (key_of cert);
  })
]

-- Controlplane.mergeEtcdCertificatesFromPKI
unfoldable pub merge_etcd_certificates : EtcdPki → KubeApiServer → Option KubeApiServer
merge_etcd_certificates pki a =
    let with_ca = record a {
      etcd_ca_certificate = pick_over a.etcd_ca_certificate (x509_of pki.ca);
    } in
    elim (merge_etcd_client pki "root" with_ca) [
      | none ↦ none
      | some b ↦ merge_etcd_client pki "kube-apiserver" b
    ]

-- Controlplane.mergeKubeAPIServerCertificatesFromPKI
unfoldable pub merge_api_server_certificates : KubeApiServerPki → KubeApiServer → KubeApiServer
merge_api_server_certificates pki a = record a {
  api_server_certificate = pick_over a.api_server_certificate (x509_of pki.server_certificate);
  api_server_key = pick_over a.api_server_key (key_of pki.server_certificate);
  front_proxy_certificate =
      pick_over a.front_proxy_certificate (x509_of pki.front_proxy_client_certificate);
  front_proxy_key = pick_over a.front_proxy_key (key_of pki.front_proxy_client_certificate);
  kubelet_client_certificate =
      pick_over a.kubelet_client_certificate (x509_of pki.kubelet_certificate);
  kubelet_client_key = pick_over a.kubelet_client_key (key_of pki.kubelet_certificate);
}

-- The part of kubeAPIServerPKIIntegration for etcd, if there is one.
abbrev pub merge_etcd_part : Option EtcdPki → KubeApiServer → Option KubeApiServer
merge_etcd_part none a = some a
merge_etcd_part (some e) a = merge_etcd_certificates e a

-- The part for Kubernetes.
abbrev pub merge_kubernetes_part : Option KubernetesPki → KubeApiServer → KubeApiServer
merge_kubernetes_part none a = a
merge_kubernetes_part (some k) a =
    let with_key = record a {
      service_account_private_key =
          pick_over a.service_account_private_key (key_of k.service_account_certificate);
    } in
    elim k.kube_api_server [ none ↦ with_key | some p ↦ merge_api_server_certificates p with_key ]

-- Controlplane.kubeAPIServerPKIIntegration
unfoldable pub kube_api_server_pki_integration : Option Pki → KubeApiServer → Option KubeApiServer
kube_api_server_pki_integration none a = some a
kube_api_server_pki_integration (some p) a = elim (merge_etcd_part p.etcd a) [
  | none ↦ none
  | some b ↦ some (merge_kubernetes_part p.kubernetes b)
]

-- What buildKubeAPIServer does before the PKI is looked at.
unfoldable pub with_addresses : Controlplane → KubeApiServer → KubeApiServer
with_addresses c a = record a {
  bind_address = pick_over a.bind_address c.api_server_address;
  advertise_address = pick_over a.advertise_address c.api_server_address;
  secure_port = if is_zero a.secure_port then c.api_server_port else a.secure_port;
  common = propagate_common c a.common;
}

-- Controlplane.buildKubeAPIServer: the new component
unfoldable pub build_kube_api_server : Controlplane → KubeApiServer → Option KubeApiServer
build_kube_api_server c a = elim (kube_api_server_pki_integration c.pki (with_addresses c a)) [
  | none ↦ none
  | some b ↦ some (record b { host = some (propagate_host c b.host) })
]

-- Controlplane.buildKubeControllerManager
unfoldable pub build_kube_controller_manager :
    Library → Controlplane → KubeControllerManager → KubeControllerManager
build_kube_controller_manager lib c k = record {
  common = propagate_common c k.common;
  host = some (propagate_host c k.host);
  kubeconfig =
      let config = propagate_kubeconfig lib c k.kubeconfig in
      record config {
        client_certificate =
            pick_over config.client_certificate
              (x509_of (of_kubernetes (λ p. p.kube_controller_manager_certificate) c));
        client_key =
            pick_over config.client_key
              (key_of (of_kubernetes (λ p. p.kube_controller_manager_certificate) c));
      };
  kubernetes_ca_key = pick_over k.kubernetes_ca_key (key_of (of_kubernetes (λ p. p.ca) c));
  root_ca_certificate = pick_over k.root_ca_certificate (elim (kubernetes_of c) [
    | none ↦ ""
    | some p ↦ x509_of (elim c.pki [ none ↦ none | some q ↦ q.root_ca ])
  ]);
  service_account_private_key =
      pick_over k.service_account_private_key
        (key_of (of_kubernetes (λ p. p.service_account_certificate) c));
  flex_volume_plugin_dir =
      pick_over k.flex_volume_plugin_dir "/usr/libexec/kubernetes/kubelet-plugins/volume/exec";
}

-- Controlplane.buildKubeScheduler
unfoldable pub build_kube_scheduler : Library → Controlplane → KubeScheduler → KubeScheduler
build_kube_scheduler lib c k = record {
  common = propagate_common c k.common;
  host = some (propagate_host c k.host);
  kubeconfig =
      let config = propagate_kubeconfig lib c k.kubeconfig in
      record config {
        client_certificate =
            pick_over config.client_certificate
              (x509_of (of_kubernetes (λ p. p.kube_scheduler_certificate) c));
        client_key =
            pick_over config.client_key
              (key_of (of_kubernetes (λ p. p.kube_scheduler_certificate) c));
      };
}

-- Controlplane.buildComponents; where a pointer in the etcd part of the PKI is nil it panics.
unfoldable pub build_components : Library → Controlplane → Option Controlplane
build_components lib c = elim (build_kube_api_server c c.kube_api_server) [
  | none ↦ none
  | some a ↦ some (record c {
    common = some (common_or_empty c.common);
    kube_api_server = a;
    kube_controller_manager = build_kube_controller_manager lib c c.kube_controller_manager;
    kube_scheduler = build_kube_scheduler lib c c.kube_scheduler;
  })
]
