-- ===== src/Pki/KubernetesCertificates.antt =====
-- The certificates of a Kubernetes cluster (pkg/pki/kubernetes.go).
use libflexkube.Base.{Option, none, some, List, [], ◌∷◌, ◌++◌}
use libflexkube.Base.Exec.{Exec, Action, pure, wrap, ◌>>=◌, ◌>>◌}
use libflexkube.Pki.{Certificate, KubeApiServerPki, KubernetesPki}
use libflexkube.Pki.Usage.{server_usage, client_usage}
use libflexkube.Pki.Merge.{empty_certificate}
use libflexkube.Pki.Generate.{With, self, update}
use libflexkube.Pki.Requests.{
  Place, CertificateRequest, ca_certificate, fixed, initialized, build_and_generate,
}

abbrev pub ca_place : Place KubernetesPki
ca_place = record { read = λ k. k.ca; write = λ k c. record k { ca = some c } }

abbrev pub front_proxy_ca_place : Place KubernetesPki
front_proxy_ca_place = record {
  read = λ k. k.front_proxy_ca;
  write = λ k c. record k { front_proxy_ca = some c };
}

abbrev pub admin_place : Place KubernetesPki
admin_place = record {
  read = λ k. k.admin_certificate;
  write = λ k c. record k { admin_certificate = some c };
}

abbrev pub controller_manager_place : Place KubernetesPki
controller_manager_place = record {
  read = λ k. k.kube_controller_manager_certificate;
  write = λ k c. record k { kube_controller_manager_certificate = some c };
}

abbrev pub scheduler_place : Place KubernetesPki
scheduler_place = record {
  read = λ k. k.kube_scheduler_certificate;
  write = λ k c. record k { kube_scheduler_certificate = some c };
}

abbrev pub service_account_place : Place KubernetesPki
service_account_place = record {
  read = λ k. k.service_account_certificate;
  write = λ k c. record k { service_account_certificate = some c };
}

-- &KubeAPIServer{}
abbrev pub empty_api_server : KubeApiServerPki
empty_api_server = record {
  certificate = empty_certificate;
  external_names = [];
  server_ips = [];
  server_certificate = none;
  kubelet_certificate = none;
  front_proxy_client_certificate = none;
}

-- The object behind k.KubeAPIServer, which Generate has made if it was nil.
abbrev pub api_server_of : KubernetesPki → KubeApiServerPki
api_server_of k = elim k.kube_api_server [ none ↦ empty_api_server | some a ↦ a ]

-- A place in that object.
abbrev pub api_server_place :
    (KubeApiServerPki → Option Certificate)
    → (KubeApiServerPki → Certificate → KubeApiServerPki)
    → Place KubernetesPki
api_server_place get put = record {
  read = λ k. get (api_server_of k);
  write = λ k c. record k { kube_api_server = some (put (api_server_of k) c) };
}

abbrev pub server_place : Place KubernetesPki
server_place =
    api_server_place (λ a. a.server_certificate) (λ a c. record a { server_certificate = some c })

abbrev pub kubelet_place : Place KubernetesPki
kubelet_place =
    api_server_place (λ a. a.kubelet_certificate) (λ a c. record a { kubelet_certificate = some c })

abbrev pub front_proxy_client_place : Place KubernetesPki
front_proxy_client_place =
    api_server_place (λ a. a.front_proxy_client_certificate)
      (λ a c. record a { front_proxy_client_certificate = some c })

-- defaultKubeAPIServerServerCertificate
unfoldable pub default_kube_api_server_server_certificate : Option KubeApiServerPki → Certificate
default_kube_api_server_server_certificate api_server = record empty_certificate {
  common_name = "kube-apiserver";
  ip_addresses = "127.0.0.1" ∷ elim api_server [ none ↦ [] | some a ↦ a.server_ips ];
  dns_names =
      ("localhost" ∷ "kubernetes" ∷ "kubernetes.default" ∷ "kubernetes.default.svc"
        ∷ "kubernetes.default.svc.cluster" ∷ "kubernetes.default.svc.cluster.local" ∷ [])
      ++ elim api_server [ none ↦ [] | some a ↦ a.external_names ];
  key_usage = server_usage;
}

-- defaultKubeAPIServerKubeletCertificate
abbrev pub default_kube_api_server_kubelet_certificate : Certificate
default_kube_api_server_kubelet_certificate = record empty_certificate {
  common_name = "kube-apiserver-kubelet-client";
  organization = "system:masters";
  key_usage = client_usage;
}

-- defaultKubeAPIServerFrontProxyClientCertificate
abbrev pub default_kube_api_server_front_proxy_client_certificate : Certificate
default_kube_api_server_front_proxy_client_certificate = record empty_certificate {
  common_name = "front-proxy-client";
  key_usage = client_usage;
}

abbrev pub Requesting : Type 0
Requesting = Exec (With KubernetesPki) (CertificateRequest KubernetesPki)

module _ (default : Certificate) where
  -- A request for a place: the settings of all certificates and of the Kubernetes ones, what is
  -- between, and what the place holds.
  abbrev pub request_of :
      Place KubernetesPki
      → (KubernetesPki → Option Certificate)
      → List (KubernetesPki → Option Certificate)
      → CertificateRequest KubernetesPki
  request_of place ca between = record {
    target = place;
    ca = ca;
    certificates = fixed default ∷ (λ k. some k.certificate) ∷ (between ++ place.read ∷ []);
  }

  -- The place is made if it is nil.
  unfoldable pub request :
      Place KubernetesPki
      → (KubernetesPki → Option Certificate)
      → List (KubernetesPki → Option Certificate)
      → Requesting
  request place ca between = do update (initialized place); pure (request_of place ca between)

  -- kubernetesCACR
  unfoldable pub kubernetes_ca_cr : Option Certificate → Requesting
  kubernetes_ca_cr root_ca =
      request ca_place (λ k. root_ca) (fixed (ca_certificate "kubernetes-ca") ∷ [])

  -- kubernetesFrontProxyCACR
  unfoldable pub kubernetes_front_proxy_ca_cr : Option Certificate → Requesting
  kubernetes_front_proxy_ca_cr root_ca =
      request front_proxy_ca_place (λ k. root_ca)
        (fixed (ca_certificate "kubernetes-front-proxy-ca") ∷ [])

  -- The settings of all certificates of kube-apiserver, and the defaults of one of them.
  abbrev pub api_server_settings : Certificate → List (KubernetesPki → Option Certificate)
  api_server_settings c = (λ k. some (api_server_of k).certificate) ∷ fixed c ∷ []

  -- kubeAPIServerServerCR
  unfoldable pub kube_api_server_server_cr : Requesting
  kube_api_server_server_cr = do
    k ← self
    request server_place (λ k. k.ca)
        (api_server_settings (default_kube_api_server_server_certificate k.kube_api_server))

  -- kubeAPIServerKubeletCR
  unfoldable pub kube_api_server_kubelet_cr : Requesting
  kube_api_server_kubelet_cr =
      request kubelet_place (λ k. k.ca)
        (api_server_settings default_kube_api_server_kubelet_certificate)

  -- kubeAPIServerFrontProxyClientCR
  unfoldable pub kube_api_server_front_proxy_client_cr : Requesting
  kube_api_server_front_proxy_client_cr =
      request front_proxy_client_place (λ k. k.front_proxy_ca)
        (api_server_settings default_kube_api_server_front_proxy_client_certificate)

  -- adminCR
  unfoldable pub admin_cr : Requesting
  admin_cr =
      request admin_place (λ k. k.ca)
        (fixed (record empty_certificate {
          common_name = "kubernetes-admin";
          organization = "system:masters";
          key_usage = client_usage;
        })
          ∷ [])

  -- kubeControllerManagerCR
  unfoldable pub kube_controller_manager_cr : Requesting
  kube_controller_manager_cr =
      request controller_manager_place (λ k. k.ca)
        (fixed (record empty_certificate {
          common_name = "system:kube-controller-manager";
          key_usage = client_usage;
        })
          ∷ [])

  -- kubeSchedulerCR
  unfoldable pub kube_scheduler_cr : Requesting
  kube_scheduler_cr =
      request scheduler_place (λ k. k.ca)
        (fixed (record empty_certificate {
          common_name = "system:kube-scheduler";
          key_usage = client_usage;
        })
          ∷ [])

  -- serviceAccountCR
  unfoldable pub service_account_cr : Requesting
  service_account_cr = request service_account_place (λ k. k.ca) []

-- if k.KubeAPIServer == nil { k.KubeAPIServer = &KubeAPIServer{} }
unfoldable pub with_api_server : KubernetesPki → KubernetesPki
with_api_server k = record k { kube_api_server = some (api_server_of k) }

-- Kubernetes.Generate
unfoldable pub generate_kubernetes : Option Certificate → Certificate → Action (With KubernetesPki)
generate_kubernetes root_ca default = do
  ca ← kubernetes_ca_cr default root_ca
  front_proxy_ca ← kubernetes_front_proxy_ca_cr default root_ca
  wrap "generating kubernetes CA certificates" (build_and_generate (ca ∷ front_proxy_ca ∷ []))
  update with_api_server
  server ← kube_api_server_server_cr default
  kubelet ← kube_api_server_kubelet_cr default
  front_proxy_client ← kube_api_server_front_proxy_client_cr default
  admin ← admin_cr default
  controller_manager ← kube_controller_manager_cr default
  scheduler ← kube_scheduler_cr default
  service_account ← service_account_cr default
  build_and_generate (
      server ∷ kubelet ∷ front_proxy_client ∷ admin ∷ controller_manager ∷ scheduler
      ∷ service_account ∷ [])
