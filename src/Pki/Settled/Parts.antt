-- ===== src/Pki/Settled/Parts.antt =====
-- A PKI that PKI.Generate of pkg/pki/pki.go leaves as it is, with its Kubernetes part
-- (pkg/pki/kubernetes.go).
use libflexkube.Base.{String, arith, Option, none, some, List, [], ◌∷◌, ◌≡◌, refl, All}
use libflexkube.Base.Exec.{ok, zoom, ◌>>=◌}
use libflexkube.World.{World, Library}
use libflexkube.Pki.{Certificate, EtcdPki, KubeApiServerPki, KubernetesPki, Pki}
use libflexkube.Pki.Usage.{client_usage}
use libflexkube.Pki.Merge.{empty_certificate}
use libflexkube.Pki.Requests.{Place, CertificateRequest, ca_certificate, fixed}
use libflexkube.Pki.KubernetesCertificates.{
  ca_place, front_proxy_ca_place, admin_place, controller_manager_place, scheduler_place,
  service_account_place, server_place, kubelet_place, front_proxy_client_place, request_of, request,
  api_server_settings, default_kube_api_server_server_certificate,
  default_kube_api_server_kubelet_certificate,
  default_kube_api_server_front_proxy_client_certificate, kubernetes_ca_cr,
  kubernetes_front_proxy_ca_cr, kube_api_server_server_cr, kube_api_server_kubelet_cr,
  kube_api_server_front_proxy_client_cr, admin_cr, kube_controller_manager_cr, kube_scheduler_cr,
  service_account_cr, with_api_server, generate_kubernetes,
}
use libflexkube.Pki.RootCa.{
  root_ca_request, on_part, generate_root_ca, generate_etcd_part, generate_kubernetes_part,
  generate_pki,
}
use libflexkube.Pki.Settled.{IsServed, initialized_idle, build_and_generate_settled}
use libflexkube.Pki.Settled.EtcdParts.{IsSettledEtcd, generate_etcd_settled}

-- A client certificate of this name.
abbrev pub client_certificate : String → Certificate
client_certificate name = record empty_certificate { common_name = name; key_usage = client_usage }

module _ (default : Certificate) where
  abbrev pub ca_requests : Option Certificate → List (CertificateRequest KubernetesPki)
  ca_requests root_ca =
      request_of default ca_place (λ k. root_ca) (fixed (ca_certificate "kubernetes-ca") ∷ [])
      ∷ request_of default front_proxy_ca_place (λ k. root_ca)
          (fixed (ca_certificate "kubernetes-front-proxy-ca") ∷ [])
      ∷ []

  abbrev pub kubernetes_requests : Option KubeApiServerPki → List (CertificateRequest KubernetesPki)
  kubernetes_requests api_server =
      request_of default server_place (λ k. k.ca)
        (api_server_settings default (default_kube_api_server_server_certificate api_server))
      ∷ request_of default kubelet_place (λ k. k.ca)
          (api_server_settings default default_kube_api_server_kubelet_certificate)
      ∷ request_of default front_proxy_client_place (λ k. k.front_proxy_ca)
          (api_server_settings default default_kube_api_server_front_proxy_client_certificate)
      ∷ request_of default admin_place (λ k. k.ca)
          (fixed
              (record (client_certificate "kubernetes-admin") { organization = "system:masters" })
            ∷ [])
      ∷ request_of default controller_manager_place (λ k. k.ca)
          (fixed (client_certificate "system:kube-controller-manager") ∷ [])
      ∷ request_of default scheduler_place (λ k. k.ca)
          (fixed (client_certificate "system:kube-scheduler") ∷ [])
      ∷ request_of default service_account_place (λ k. k.ca) []
      ∷ []

-- The two CAs and the certificates of the components are settled.
pub record IsSettledKubernetes (lib : Library) (root_ca : Option Certificate)
    (default : Certificate) (k : KubernetesPki) : Type 0 where
  pub api_server : KubeApiServerPki
  pub present : k.kube_api_server ≡ some api_server
  pub cas : All (IsServed lib k) (ca_requests default root_ca)
  pub certificates : All (IsServed lib k) (kubernetes_requests default k.kube_api_server)

request_settled :
    (w : World) (default : Certificate) (k : KubernetesPki) (place : Place KubernetesPki)
    (ca : KubernetesPki → Option Certificate) (between : List (KubernetesPki → Option Certificate))
    → IsServed w.lib k (request_of default place ca between)
    → request default place ca between (w, k) ≡ (ok (request_of default place ca between), (w, k))
unfolding request ◌>>=◌
request_settled w default k place ca between h =
    rw (initialized_idle w k (request_of default place ca between) h) refl

with_api_server_idle :
    (k : KubernetesPki) (a : KubeApiServerPki) → k.kube_api_server ≡ some a → with_api_server k ≡ k
unfolding with_api_server
with_api_server_idle k a h = ground arith

-- placeholder
pub generate_kubernetes_settled :
    (w : World) (root_ca : Option Certificate) (default : Certificate) (k : KubernetesPki)
    → IsSettledKubernetes w.lib root_ca default k
    → generate_kubernetes root_ca default (w, k) ≡ (ok tt, (w, k))
unfolding generate_kubernetes kubernetes_ca_cr kubernetes_front_proxy_ca_cr
    kube_api_server_server_cr kube_api_server_kubelet_cr kube_api_server_front_proxy_client_cr
    admin_cr kube_controller_manager_cr kube_scheduler_cr service_account_cr ◌>>=◌
generate_kubernetes_settled w root_ca default k h =
    let (ca, (front_proxy_ca, _)) = h.cas in
    let (server, (kubelet, (front_proxy_client, (admin, (manager, (scheduler, (account, _))))))) =
      h.certificates in
    rw
      (
        request_settled w default k _ _ _ ca,
        request_settled w default k _ _ _ front_proxy_ca,
        build_and_generate_settled w k (ca_requests default root_ca) h.cas,
        with_api_server_idle k h.api_server h.present,
        request_settled w default k _ _ _ server,
        request_settled w default k _ _ _ kubelet,
        request_settled w default k _ _ _ front_proxy_client,
        request_settled w default k _ _ _ admin,
        request_settled w default k _ _ _ manager,
        request_settled w default k _ _ _ scheduler,
        request_settled w default k _ _ _ account,
      )
      (build_and_generate_settled w k (kubernetes_requests default k.kube_api_server)
        h.certificates)

-- Every certificate of the PKI is settled.
pub record IsSettledPki (lib : Library) (p : Pki) : Type 0 where
  pub root : IsServed lib p root_ca_request
  pub etcd : (e : EtcdPki) → p.etcd ≡ some e → IsSettledEtcd lib p.root_ca p.certificate e
  pub kubernetes :
      (k : KubernetesPki)
      → p.kubernetes ≡ some k
      → IsSettledKubernetes lib p.root_ca p.certificate k

module _ (w : World) (p : Pki) (h : IsSettledPki w.lib p) where
  generate_root_ca_settled : generate_root_ca (w, p) ≡ (ok tt, (w, p))
  unfolding generate_root_ca ◌>>=◌
  generate_root_ca_settled =
      rw
        (
          initialized_idle w p root_ca_request h.root,
          build_and_generate_settled w p (root_ca_request ∷ []) (h.root, tt),
        )
        refl

  etcd_part_settled :
      (o : Option EtcdPki) → p.etcd ≡ o → generate_etcd_part o p (w, p) ≡ (ok tt, (w, p))
  unfolding generate_etcd_part on_part ◌>>=◌ zoom
  etcd_part_settled none q = refl
  etcd_part_settled (some e) q =
      rw (generate_etcd_settled w p.root_ca p.certificate e (h.etcd e q)) (ground arith)

  kubernetes_part_settled :
      (o : Option KubernetesPki)
      → p.kubernetes ≡ o
      → generate_kubernetes_part o p (w, p) ≡ (ok tt, (w, p))
  unfolding generate_kubernetes_part on_part ◌>>=◌ zoom
  kubernetes_part_settled none q = refl
  kubernetes_part_settled (some k) q =
      rw (generate_kubernetes_settled w p.root_ca p.certificate k (h.kubernetes k q)) (ground arith)

  -- Where every certificate of a PKI is settled, which means that its merged configuration is
  -- valid, its private key and its X.509 certificate can be decoded, the certificate has the
  -- configured addresses and its place in the PKI holds them, Generate of the PKI succeeds, makes
  -- no call, so that no key is made and nothing is signed, and changes nothing: for the root CA,
  -- the etcd part with its peers, servers and clients, and the Kubernetes part.
  pub generate_pki_settled : generate_pki (w, p) ≡ (ok tt, (w, p))
  unfolding generate_pki ◌>>=◌
  generate_pki_settled =
      rw (generate_root_ca_settled, etcd_part_settled p.etcd refl)
        (kubernetes_part_settled p.kubernetes refl)
