-- ===== src/Kubelet/Pool.antt =====
-- A pool of kubelets (pkg/kubelet/pool.go): what kubelets take over from it, Validate and New.
use libflexkube.Base.{
  String, Bool, not, Option, none, some, List, [], ◌∷◌, ◌==◌, if◌then◌else◌, is_empty, ◌&&◌,
}
use libflexkube.Base.Map.{Map}
use libflexkube.Base.Fault.{Error, errorf, wrapf, error_if}
use libflexkube.Base.Exec.{Exec, fail, ◌>>=◌, pure}
use libflexkube.Util.{pick_string, pick_string_slice, pick_string_map}
use libflexkube.Host.Config.{SshConfig, build_config}
use libflexkube.Container.Types.{Mount}
use libflexkube.Container.State.{ContainersState, StateMap}
use libflexkube.Memory.{Memory}
use libflexkube.Pki.{Certificate, KubernetesPki, Pki}
use libflexkube.Kubeconfig.{ClientConfig}
use libflexkube.Resource.{numbered, Kind, validate_all, new_all}
use libflexkube.Kubelet.{
  Kubelet, KubeletLibrary, new_kubelet_error, new_kubelet, to_host_configured_container,
}

-- kubelet.Pool
pub record Pool : Type 0 where
  pub image : String
  pub ssh : Option SshConfig
  pub bootstrap_config : Option ClientConfig
  pub kubelets : List Kubelet
  pub kubernetes_ca_certificate : String
  pub cluster_dns_ips : List String
  pub taints : Map String
  pub labels : Map String
  pub privileged_labels : Map String
  pub admin_config : Option ClientConfig
  pub cgroup_driver : String
  pub system_reserved : Map String
  pub kube_reserved : Map String
  pub hairpin_mode : String
  pub volume_plugin_dir : String
  pub extra_mounts : List Mount
  pub pki : Option Pki
  pub state : ContainersState
  pub wait_for_node_ready : Bool
  pub extra_args : List String

-- The admin configuration with the empty fields filled from the admin certificate.
unfoldable pub with_admin : Option Certificate → ClientConfig → ClientConfig
with_admin none c = c
with_admin (some a) c = record c {
  client_certificate =
      if c.client_certificate == "" then a.x509_certificate else c.client_certificate;
  client_key = if c.client_key == "" then a.private_key else c.client_key;
}

with_kubernetes : KubernetesPki → Pool → Pool
with_kubernetes k p = record p {
  kubernetes_ca_certificate =
      if p.kubernetes_ca_certificate == ""
      then elim k.ca [ none ↦ "" | some ca ↦ ca.x509_certificate ]
      else p.kubernetes_ca_certificate;
  admin_config = elim p.admin_config [
    | none ↦ none
    | some c ↦ some (with_admin k.admin_certificate c)
  ];
}

-- Pool.pkiIntegration: the new value of the pool.
unfoldable pub pki_integration : Pool → Pool
unfolding with_kubernetes
pki_integration p = elim p.pki [
  | none ↦ p
  | some pki ↦ elim pki.kubernetes [ none ↦ p | some k ↦ with_kubernetes k p ]
]

-- A client's configuration, the pool's where the kubelet has none, with the pool's CA where it is empty.
unfoldable pub client_from :
    String → Option ClientConfig → Option ClientConfig → Option ClientConfig
client_from ca none none = none
client_from ca none (some c) =
    some (record c { ca_certificate = if c.ca_certificate == "" then ca else c.ca_certificate })
client_from ca (some c) pool =
    some (record c { ca_certificate = if c.ca_certificate == "" then ca else c.ca_certificate })

-- Pool.kubeletPKIIntegration
unfoldable pub kubelet_pki_integration : Pool → Kubelet → Kubelet
kubelet_pki_integration p k = record k {
  kubernetes_ca_certificate =
      pick_string (k.kubernetes_ca_certificate ∷ p.kubernetes_ca_certificate ∷ []);
  bootstrap_config = client_from p.kubernetes_ca_certificate k.bootstrap_config p.bootstrap_config;
  admin_config = client_from p.kubernetes_ca_certificate k.admin_config p.admin_config;
}

-- The fields that are filled from the pool before its PKI.
unfoldable pub with_pool : Pool → Kubelet → Kubelet
with_pool p k = record k {
  image = pick_string (k.image ∷ p.image ∷ []);
  cluster_dns_ips = pick_string_slice (k.cluster_dns_ips ∷ p.cluster_dns_ips ∷ []);
  labels = pick_string_map (k.labels ∷ p.labels ∷ []);
  privileged_labels = pick_string_map (k.privileged_labels ∷ p.privileged_labels ∷ []);
  taints = pick_string_map (k.taints ∷ p.taints ∷ []);
  cgroup_driver = pick_string (k.cgroup_driver ∷ p.cgroup_driver ∷ []);
  system_reserved = pick_string_map (k.system_reserved ∷ p.system_reserved ∷ []);
  kube_reserved = pick_string_map (k.kube_reserved ∷ p.kube_reserved ∷ []);
  hairpin_mode = pick_string (k.hairpin_mode ∷ p.hairpin_mode ∷ "hairpin-veth" ∷ []);
  volume_plugin_dir = pick_string (
      k.volume_plugin_dir ∷ p.volume_plugin_dir
      ∷ "/usr/libexec/kubernetes/kubelet-plugins/volume/exec" ∷ []);
  extra_mounts = if is_empty k.extra_mounts then p.extra_mounts else k.extra_mounts;
  extra_args = if is_empty k.extra_args then p.extra_args else k.extra_args;
  host = build_config k.host (record { direct_config = none; ssh_config = p.ssh });
}

with_waiting : Pool → Kubelet → Kubelet
with_waiting p k = record k {
  wait_for_node_ready =
      if not k.wait_for_node_ready && p.wait_for_node_ready
      then p.wait_for_node_ready
      else k.wait_for_node_ready;
}

-- Pool.propagateKubelet. The Go function also stores what it takes from the PKI in the pool, and a CA
-- certificate in a configuration that the kubelet shares with the pool; a second time each finds its
-- field filled with the same value.
unfoldable pub propagate_kubelet : Pool → Kubelet → Kubelet
unfolding with_waiting
propagate_kubelet p k = with_waiting p (kubelet_pki_integration (pki_integration p) (with_pool p k))

abbrev pub kubelets_of : Pool → KubeletLibrary → Kind Kubelet
kubelets_of p lib = record {
  propagate = λ name k. some (propagate_kubelet p k);
  check = new_kubelet_error lib;
  template = λ k docker. to_host_configured_container lib (new_kubelet k) docker;
}

-- Pool.Validate
unfoldable pub validate : KubeletLibrary → Pool → Exec Memory (Option Error)
validate lib p =
    validate_all (kubelets_of p lib) "creating kubelet object" "validating containers configuration"
      []
      (error_if (is_empty p.state && is_empty p.kubelets)
        (errorf "at least one kubelet must be defined if state is empty"))
      p.state (numbered lib.base 0 p.kubelets)

-- Pool.New: the containers or nil.
unfoldable pub new : KubeletLibrary → Pool → Exec Memory (Option (StateMap × StateMap))
new lib p = do
  e ← validate lib p
  elim e [
    | some e ↦ fail (wrapf "validating pool configuration" e)
    | none ↦ do
      made ← new_all (kubelets_of p lib) p.state (numbered lib.base 0 p.kubelets)
      pure made.1
  ]
