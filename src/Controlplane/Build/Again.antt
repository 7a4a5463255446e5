-- ===== src/Controlplane/Build/Again.antt =====
-- Filling the components of a controlplane twice (pkg/controlplane/controlplane.go): Validate does it,
-- and New once more.
pub mod Picks
pub mod FromPki
use libflexkube.Base.{
  String, Bool, true, false, not, Option, none, some, Option-cases, inl, inr, [], ◌∷◌, ◌==◌, ◌≡◌,
  refl, sym, ap, ◌∙◌, arith, if◌then◌else◌, append, eq_iff, ◌&&◌,
}
use mathlib.Core.Path.{subst}
use libflexkube.Util.{ℤ, is_zero, pick_string}
use libflexkube.World.{Library}
use libflexkube.Host.Config.{Host}
use libflexkube.Host.Merge.{build_config_idem}
use libflexkube.Kubeconfig.{ClientConfig}
use libflexkube.Pki.{EtcdPki, KubernetesPki, Pki}
use libflexkube.Etcd.Cluster.{certificate_of}
use libflexkube.Controlplane.{
  Common, KubeApiServer, KubeControllerManager, KubeScheduler, Controlplane, common_or_empty,
}
use libflexkube.Controlplane.Build.{
  x509_of, key_of, kubernetes_of, of_kubernetes, pick_over, propagate_kubeconfig, propagate_host,
  propagate_common, merge_etcd_client, merge_etcd_certificates, merge_api_server_certificates,
  merge_etcd_part, merge_kubernetes_part, kube_api_server_pki_integration, with_addresses,
  build_kube_api_server, build_kube_controller_manager, build_kube_scheduler, build_components,
}
use libflexkube.Controlplane.Build.Again.Picks.{
  pick_over_again, pick_two_again, port_again, propagate_host_again, propagate_common_again,
  build_kube_scheduler_again, build_kube_controller_manager_again,
}
use libflexkube.Controlplane.Build.Again.FromPki.{
  Texts, with_texts, KubernetesTexts, with_kubernetes_texts, integration_texts,
}

-- Everything that buildKubeAPIServer fills, with these texts of the PKI.
abbrev api_server_filled : Texts → KubernetesTexts → Controlplane → KubeApiServer → KubeApiServer
api_server_filled t u c a =
    let b = with_kubernetes_texts u (with_texts t (with_addresses c a)) in
    record b { host = some (propagate_host c b.host) }

api_server_filled_again :
    (t : Texts) (u : KubernetesTexts) (c : Controlplane) (a : KubeApiServer)
    → api_server_filled t u c (api_server_filled t u c a) ≡ api_server_filled t u c a
unfolding with_addresses
api_server_filled_again t u c a = λ i. record {
  common = propagate_common_again c a.common i;
  host = some (propagate_host_again c a.host i);
  api_server_certificate = pick_over_again a.api_server_certificate u.certificate i;
  api_server_key = pick_over_again a.api_server_key u.key i;
  service_account_private_key = pick_over_again a.service_account_private_key u.account_key i;
  bind_address = pick_over_again a.bind_address c.api_server_address i;
  advertise_address = pick_over_again a.advertise_address c.api_server_address i;
  etcd_servers = a.etcd_servers;
  service_cidr = a.service_cidr;
  secure_port = port_again a.secure_port c.api_server_port i;
  front_proxy_certificate = pick_over_again a.front_proxy_certificate u.proxy_certificate i;
  front_proxy_key = pick_over_again a.front_proxy_key u.proxy_key i;
  kubelet_client_certificate = pick_over_again a.kubelet_client_certificate u.kubelet_certificate i;
  kubelet_client_key = pick_over_again a.kubelet_client_key u.kubelet_key i;
  etcd_ca_certificate = pick_over_again a.etcd_ca_certificate t.etcd_ca i;
  etcd_client_certificate =
      pick_two_again a.etcd_client_certificate t.root_certificate t.client_certificate i;
  etcd_client_key = pick_two_again a.etcd_client_key t.root_key t.client_key i;
}

build_kube_api_server_again :
    (c : Controlplane) (a b : KubeApiServer)
    → build_kube_api_server c a ≡ some b
    → build_kube_api_server c b ≡ some b
unfolding build_kube_api_server
build_kube_api_server_again c a b h =
    elim (Option-cases (kube_api_server_pki_integration c.pki (with_addresses c a))) [
      | inl nil ↦ absurd (ground (arith, h, nil))
      | inr (d, q) ↦
          let (t, u, same) = integration_texts c.pki (with_addresses c a) d q in
          let filled : (x : KubeApiServer)
              → build_kube_api_server c x ≡ some (api_server_filled t u c x) =
            λ x. rw (same (with_addresses c x), build_kube_api_server) refl in
          let is : api_server_filled t u c a ≡ b = cc (sym (filled a) ∙ h) in
          filled b
          ∙ ap (λ x. some x)
              (subst (λ x. api_server_filled t u c x ≡ x) is (api_server_filled_again t u c a))
    ]

abbrev components_filled : Library → Controlplane → KubeApiServer → Controlplane
components_filled lib c a = record c {
  common = some (common_or_empty c.common);
  kube_api_server = a;
  kube_controller_manager = build_kube_controller_manager lib c c.kube_controller_manager;
  kube_scheduler = build_kube_scheduler lib c c.kube_scheduler;
}

-- The settings that are handed down are those of before.
module _ (lib : Library) (c : Controlplane) (a : KubeApiServer) where
  same_api_server :
      (x : KubeApiServer)
      → build_kube_api_server (components_filled lib c a) x ≡ build_kube_api_server c x
  unfolding build_kube_api_server with_addresses propagate_common propagate_host
  same_api_server x = refl

  same_controller_manager :
      (k : KubeControllerManager)
      → build_kube_controller_manager lib (components_filled lib c a) k
        ≡ build_kube_controller_manager lib c k
  unfolding build_kube_controller_manager propagate_common propagate_host propagate_kubeconfig
  same_controller_manager k = refl

  same_scheduler :
      (k : KubeScheduler)
      → build_kube_scheduler lib (components_filled lib c a) k ≡ build_kube_scheduler lib c k
  unfolding build_kube_scheduler propagate_common propagate_host propagate_kubeconfig
  same_scheduler k = refl

  -- What the first round leaves is left alone by the second.
  filled_again :
      build_kube_api_server c c.kube_api_server ≡ some a
      → build_components lib (components_filled lib c a) ≡ some (components_filled lib c a)
  unfolding build_components
  filled_again q =
      rw (same_api_server a ∙ build_kube_api_server_again c c.kube_api_server a q, build_components)
        (λ i. some (record (components_filled lib c a) {
          kube_controller_manager =
              (same_controller_manager
                    (build_kube_controller_manager lib c c.kube_controller_manager)
                  ∙ build_kube_controller_manager_again lib c c.kube_controller_manager)
                i;
          kube_scheduler =
              (same_scheduler (build_kube_scheduler lib c c.kube_scheduler)
                  ∙ build_kube_scheduler_again lib c c.kube_scheduler)
                i;
        }))

-- What buildComponents leaves is complete: where it does not panic, a second buildComponents of its
-- result does not panic either and changes nothing, for every controlplane, whatever its PKI, its
-- common settings, its SSH configuration and its components have set.
pub build_components_again :
    (lib : Library) (c d : Controlplane)
    → build_components lib c ≡ some d
    → build_components lib d ≡ some d
unfolding build_components
build_components_again lib c d h = elim (Option-cases (build_kube_api_server c c.kube_api_server)) [
  | inl nil ↦ absurd (ground (arith, h, nil))
  | inr (a, q) ↦
      let is : components_filled lib c a ≡ d = ground (arith, h, q) in
      subst (λ x. build_components lib x ≡ some x) is (filled_again lib c a q)
]
