-- ===== src/Controlplane/Build/Again/Picks.antt =====
-- Values that are picked a second time, and the parts of a component that are filled with them
-- (pkg/controlplane/controlplane.go).
use libflexkube.Base.{
  String, Bool, true, false, not, Option, none, some, [], ◌∷◌, ◌==◌, ◌≡◌, refl, arith,
  if◌then◌else◌, append, eq_iff, ◌&&◌,
}
use libflexkube.Util.{ℤ, is_zero, pick_string}
use libflexkube.World.{Library}
use libflexkube.Host.Config.{Host}
use libflexkube.Host.Merge.{build_config_idem}
use libflexkube.Kubeconfig.{ClientConfig}
use libflexkube.Controlplane.{
  Common, KubeControllerManager, KubeScheduler, Controlplane, common_or_empty,
}
use libflexkube.Controlplane.Build.{
  x509_of, key_of, kubernetes_of, of_kubernetes, pick_over, propagate_kubeconfig, propagate_host,
  propagate_common, build_kube_controller_manager, build_kube_scheduler,
}

pub pick_over_again : (a b : String) → pick_over (pick_over a b) b ≡ pick_over a b
unfolding pick_string
pick_over_again a b = ground arith

pub pick_over_empty : (a : String) → pick_over a "" ≡ a
unfolding pick_string
pick_over_empty a = ground (arith, eq_iff a "")

pub pick_two_again :
    (a b c : String)
    → pick_over (pick_over (pick_over (pick_over a b) c) b) c ≡ pick_over (pick_over a b) c
unfolding pick_string
pick_two_again a b c = ground arith

pick_three_again :
    (a b c : String)
    → pick_string (pick_string (a ∷ b ∷ c ∷ []) ∷ b ∷ c ∷ []) ≡ pick_string (a ∷ b ∷ c ∷ [])
unfolding pick_string
pick_three_again a b c = ground arith

pub port_again :
    (p q : ℤ)
    → (if is_zero (if is_zero p then q else p) then q else (if is_zero p then q else p))
      ≡ (if is_zero p then q else p)
port_again p q = ground arith

pub propagate_host_again :
    (c : Controlplane) (h : Option Host)
    → propagate_host c (some (propagate_host c h)) ≡ propagate_host c h
unfolding propagate_host
propagate_host_again c h = build_config_idem _ _

pub propagate_common_again :
    (c : Controlplane) (o : Option Common)
    → propagate_common c (propagate_common c o) ≡ propagate_common c o
unfolding propagate_common
propagate_common_again c none = refl
propagate_common_again c (some o) = simp (pick_over_again, pick_three_again)

server_again :
    (b : Bool) (s t : String)
    → (if b then pick_over (if b then pick_over s t else s) t else (if b then pick_over s t else s))
      ≡ (if b then pick_over s t else s)
server_again true s t = pick_over_again s t
server_again false s t = refl

-- The fields of a client configuration that a component fills, with these texts.
abbrev client_filled : Library → Controlplane → String → String → ClientConfig → ClientConfig
client_filled lib c certificate key config =
    let filled = propagate_kubeconfig lib c config in
    record filled {
      client_certificate = pick_over filled.client_certificate certificate;
      client_key = pick_over filled.client_key key;
    }

client_filled_again :
    (lib : Library) (c : Controlplane) (certificate key : String) (config : ClientConfig)
    → client_filled lib c certificate key (client_filled lib c certificate key config)
      ≡ client_filled lib c certificate key config
unfolding propagate_kubeconfig
client_filled_again lib c certificate key config = λ i. record {
  server =
      server_again (not (c.api_server_address == "") && not (is_zero c.api_server_port))
        config.server (append c.api_server_address (append ":" (lib.itoa c.api_server_port))) i;
  ca_certificate =
      pick_three_again config.ca_certificate (common_or_empty c.common).kubernetes_ca_certificate
        (x509_of (of_kubernetes (λ k. k.ca) c)) i;
  client_certificate = pick_over_again config.client_certificate certificate i;
  client_key = pick_over_again config.client_key key i;
  token = config.token;
}

pub build_kube_scheduler_again :
    (lib : Library) (c : Controlplane) (k : KubeScheduler)
    → build_kube_scheduler lib c (build_kube_scheduler lib c k) ≡ build_kube_scheduler lib c k
unfolding build_kube_scheduler
build_kube_scheduler_again lib c k = λ i. record {
  common = propagate_common_again c k.common i;
  host = some (propagate_host_again c k.host i);
  kubeconfig =
      client_filled_again lib c (x509_of (of_kubernetes (λ p. p.kube_scheduler_certificate) c))
        (key_of (of_kubernetes (λ p. p.kube_scheduler_certificate) c)) k.kubeconfig i;
}

pub build_kube_controller_manager_again :
    (lib : Library) (c : Controlplane) (k : KubeControllerManager)
    → build_kube_controller_manager lib c (build_kube_controller_manager lib c k)
      ≡ build_kube_controller_manager lib c k
unfolding build_kube_controller_manager
build_kube_controller_manager_again lib c k = λ i. record {
  common = propagate_common_again c k.common i;
  host = some (propagate_host_again c k.host i);
  kubeconfig =
      client_filled_again lib c
        (x509_of (of_kubernetes (λ p. p.kube_controller_manager_certificate) c))
        (key_of (of_kubernetes (λ p. p.kube_controller_manager_certificate) c)) k.kubeconfig i;
  kubernetes_ca_key = pick_over_again k.kubernetes_ca_key (key_of (of_kubernetes (λ p. p.ca) c)) i;
  root_ca_certificate =
      pick_over_again k.root_ca_certificate
        (elim (kubernetes_of c) [
          | none ↦ ""
          | some p ↦ x509_of (elim c.pki [ none ↦ none | some q ↦ q.root_ca ])
        ])
        i;
  service_account_private_key =
      pick_over_again k.service_account_private_key
        (key_of (of_kubernetes (λ p. p.service_account_certificate) c)) i;
  flex_volume_plugin_dir =
      pick_over_again k.flex_volume_plugin_dir "/usr/libexec/kubernetes/kubelet-plugins/volume/exec"
        i;
}
