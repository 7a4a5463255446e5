-- ===== src/Controlplane/Build/Again/FromPki.antt =====
-- The texts of a PKI that kube-apiserver takes over (pkg/controlplane/controlplane.go).
use libflexkube.Base.{
  String, Option, none, some, Option-cases, inl, inr, ◌≡◌, refl, sym, ap, ◌∙◌, arith,
}
use libflexkube.Pki.{EtcdPki, KubernetesPki, Pki}
use libflexkube.Etcd.Cluster.{certificate_of}
use libflexkube.Controlplane.{KubeApiServer}
use libflexkube.Controlplane.Build.{
  x509_of, key_of, pick_over, merge_etcd_client, merge_etcd_certificates,
  merge_api_server_certificates, merge_etcd_part, merge_kubernetes_part,
  kube_api_server_pki_integration,
}
use libflexkube.Controlplane.Build.Again.Picks.{pick_over_empty}

-- The texts that a PKI has for kube-apiserver; those of etcd clients by name.
pub record Texts : Type 0 where
  pub etcd_ca : String
  pub root_certificate : String
  pub root_key : String
  pub client_certificate : String
  pub client_key : String

abbrev pub with_texts : Texts → KubeApiServer → KubeApiServer
with_texts t a = record a {
  etcd_ca_certificate = pick_over a.etcd_ca_certificate t.etcd_ca;
  etcd_client_certificate =
      pick_over (pick_over a.etcd_client_certificate t.root_certificate) t.client_certificate;
  etcd_client_key = pick_over (pick_over a.etcd_client_key t.root_key) t.client_key;
}

-- Merging the etcd part of the PKI does not panic, and takes these texts.
record Merged (o : Option EtcdPki) : Type 0 where
  pub texts : Texts
  pub same : (a : KubeApiServer) → merge_etcd_part o a ≡ some (with_texts texts a)

no_texts : Texts
no_texts = record {
  etcd_ca = "";
  root_certificate = "";
  root_key = "";
  client_certificate = "";
  client_key = "";
}

merge_etcd_part-Merged :
    (o : Option EtcdPki) (a b : KubeApiServer) → merge_etcd_part o a ≡ some b → Merged o
unfolding merge_etcd_certificates merge_etcd_client no_texts
merge_etcd_part-Merged none a b h = record {
  texts = no_texts;
  same = λ a. λ i. some (record a {
    etcd_ca_certificate = sym (pick_over_empty a.etcd_ca_certificate) i;
    etcd_client_certificate =
        sym
          (ap (λ x. pick_over x "") (pick_over_empty a.etcd_client_certificate)
            ∙ pick_over_empty a.etcd_client_certificate)
          i;
    etcd_client_key =
        sym
          (ap (λ x. pick_over x "") (pick_over_empty a.etcd_client_key)
            ∙ pick_over_empty a.etcd_client_key)
          i;
  });
}
merge_etcd_part-Merged (some p) a b h =
    elim (Option-cases (certificate_of p.client_certificates "root")) [
      | inl nil ↦ absurd (ground (arith, h, nil))
      | inr (root, r) ↦
          elim (Option-cases (certificate_of p.client_certificates "kube-apiserver")) [
            | inl nil ↦ absurd (ground (arith, h, r, nil))
            | inr (client, q) ↦ record {
              texts = record {
                etcd_ca = x509_of p.ca;
                root_certificate = x509_of root;
                root_key = key_of root;
                client_certificate = x509_of client;
                client_key = key_of client;
              };
              same = λ a. ground (arith, r, q);
            }
          ]
    ]

-- The texts that the Kubernetes part of a PKI has for kube-apiserver.
pub record KubernetesTexts : Type 0 where
  pub account_key : String
  pub certificate : String
  pub key : String
  pub proxy_certificate : String
  pub proxy_key : String
  pub kubelet_certificate : String
  pub kubelet_key : String

abbrev pub with_kubernetes_texts : KubernetesTexts → KubeApiServer → KubeApiServer
with_kubernetes_texts t a = record a {
  service_account_private_key = pick_over a.service_account_private_key t.account_key;
  api_server_certificate = pick_over a.api_server_certificate t.certificate;
  api_server_key = pick_over a.api_server_key t.key;
  front_proxy_certificate = pick_over a.front_proxy_certificate t.proxy_certificate;
  front_proxy_key = pick_over a.front_proxy_key t.proxy_key;
  kubelet_client_certificate = pick_over a.kubelet_client_certificate t.kubelet_certificate;
  kubelet_client_key = pick_over a.kubelet_client_key t.kubelet_key;
}

-- The texts where kube-apiserver has no part in the PKI.
only_account : String → KubernetesTexts
only_account key = record {
  account_key = key;
  certificate = "";
  key = "";
  proxy_certificate = "";
  proxy_key = "";
  kubelet_certificate = "";
  kubelet_key = "";
}

with_only_account :
    (key : String) (a : KubeApiServer)
    → record a { service_account_private_key = pick_over a.service_account_private_key key }
      ≡ with_kubernetes_texts (only_account key) a
unfolding only_account
with_only_account key a = λ i. record a {
  service_account_private_key = pick_over a.service_account_private_key key;
  api_server_certificate = sym (pick_over_empty a.api_server_certificate) i;
  api_server_key = sym (pick_over_empty a.api_server_key) i;
  front_proxy_certificate = sym (pick_over_empty a.front_proxy_certificate) i;
  front_proxy_key = sym (pick_over_empty a.front_proxy_key) i;
  kubelet_client_certificate = sym (pick_over_empty a.kubelet_client_certificate) i;
  kubelet_client_key = sym (pick_over_empty a.kubelet_client_key) i;
}

kubernetes_texts :
    (o : Option KubernetesPki)
    → (t : KubernetesTexts) × ((a : KubeApiServer)
        → merge_kubernetes_part o a ≡ with_kubernetes_texts t a)
unfolding merge_api_server_certificates
kubernetes_texts none = (
  only_account "",
  λ a.
      (λ i. record a {
        service_account_private_key = sym (pick_over_empty a.service_account_private_key) i;
      })
      ∙ with_only_account "" a,
)
kubernetes_texts (some k) = elim (Option-cases k.kube_api_server) [
  | inl missing ↦
      (only_account (key_of k.service_account_certificate), λ a. rw missing (with_only_account _ a))
  | inr (p, found) ↦ (
    record {
      account_key = key_of k.service_account_certificate;
      certificate = x509_of p.server_certificate;
      key = key_of p.server_certificate;
      proxy_certificate = x509_of p.front_proxy_client_certificate;
      proxy_key = key_of p.front_proxy_client_certificate;
      kubelet_certificate = x509_of p.kubelet_certificate;
      kubelet_key = key_of p.kubelet_certificate;
    },
    λ a. rw found refl,
  )
]

pub integration_texts :
    (o : Option Pki) (a b : KubeApiServer)
    → kube_api_server_pki_integration o a ≡ some b
    → (t : Texts) × (u : KubernetesTexts) × ((a : KubeApiServer)
        → kube_api_server_pki_integration o a ≡ some (with_kubernetes_texts u (with_texts t a)))
unfolding kube_api_server_pki_integration
integration_texts none a b h =
    let nothing = merge_etcd_part-Merged none a a refl in
    let (u, filled) = kubernetes_texts none in
    (nothing.texts, u, λ a. nothing.same a ∙ ap (λ x. some x) (filled (with_texts nothing.texts a)))
integration_texts (some p) a b h = elim (Option-cases (merge_etcd_part p.etcd a)) [
  | inl nil ↦ absurd (ground (arith, h, nil))
  | inr (c, q) ↦
      let merged = merge_etcd_part-Merged p.etcd a c q in
      let (u, filled) = kubernetes_texts p.kubernetes in
      (
        merged.texts,
        u,
        λ x.
            rw (merged.same x, kube_api_server_pki_integration)
              (ap (λ y. some y) (filled (with_texts merged.texts x))),
      )
]
