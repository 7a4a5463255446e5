-- ===== src/Controlplane/Scheduler.antt =====
-- kube-scheduler (pkg/controlplane/kube-scheduler.go).
use libflexkube.Base.{ℕ, String, true, Option, none, some, List, [], ◌∷◌}
use libflexkube.Base.Map.{Map}
use libflexkube.Base.Fault.{Error, wrapf, Result, success, failure}
use libflexkube.Util.{pick_string}
use libflexkube.World.{Library, Call}
use libflexkube.Container.Configured.{HostConfiguredContainer}
use libflexkube.Kubeconfig.{reread_error, to_yaml_string}
use libflexkube.Controlplane.{
  KubeScheduler, ControlplaneLibrary, common_or_empty, host_or_empty, component_container,
}
use libflexkube.Controlplane.Validator.{first_of, reread_common, validate_component}

abbrev pub args : List String
args =
    "kube-scheduler" ∷ "--config=/etc/kubernetes/kube-scheduler.yaml"
    ∷ "--authentication-kubeconfig=/etc/kubernetes/kubeconfig"
    ∷ "--authorization-kubeconfig=/etc/kubernetes/kubeconfig"
    ∷ "--requestheader-client-ca-file=/etc/kubernetes/pki/front-proxy-ca.crt"
    ∷ "--client-ca-file=/etc/kubernetes/pki/ca.crt" ∷ []

-- The kubeconfig that New keeps, whose error it drops.
abbrev pub kubeconfig_text : Library → KubeScheduler → String
kubeconfig_text lib k = elim (to_yaml_string lib k.kubeconfig) [
  | success text ↦ text
  | failure e ↦ ""
]

-- The files of kubeScheduler.ToHostConfiguredContainer, with this text of the configuration
unfoldable pub config_files : Library → KubeScheduler → String → Map String
config_files lib k config_raw =
    ("/etc/kubernetes/kube-scheduler/kubeconfig", kubeconfig_text lib k)
    ∷ (
      "/etc/kubernetes/kube-scheduler/pki/ca.crt",
      (common_or_empty k.common).kubernetes_ca_certificate,
    )
    ∷ (
      "/etc/kubernetes/kube-scheduler/pki/front-proxy-ca.crt",
      (common_or_empty k.common).front_proxy_ca_certificate,
    )
    ∷ ("/etc/kubernetes/kube-scheduler/kube-scheduler.yaml", config_raw)
    ∷ []

-- kubeScheduler.ToHostConfiguredContainer, with the address of docker.DefaultConfig()
unfoldable pub to_host_configured_container :
    ControlplaneLibrary → KubeScheduler → ℕ → Result HostConfiguredContainer
to_host_configured_container lib k docker = elim lib.scheduler_config [
  | failure e ↦ failure (wrapf "marshaling configuration" e)
  | success config_raw ↦ success (
      component_container (host_or_empty k.host) (config_files lib.base k config_raw)
        "kube-scheduler"
        (pick_string ((common_or_empty k.common).image ∷ "k8s.gcr.io/kube-scheduler:v1.24.3" ∷ []))
        ""
        (record {
          source = "/etc/kubernetes/kube-scheduler/";
          target = "/etc/kubernetes";
          propagation = "";
        }
          ∷ [])
        args docker)
]

-- The error of reading the component again, in the order of the sorted keys.
unfoldable pub reread_scheduler : Library → KubeScheduler → Option Error
reread_scheduler lib k = first_of (reread_common lib k.common ∷ reread_error lib k.kubeconfig ∷ [])

-- KubeScheduler.Validate
unfoldable pub validate_scheduler : ControlplaneLibrary → List Call → KubeScheduler → Option Error
validate_scheduler lib calls k = validate_component lib calls true (record {
  common = k.common;
  host = k.host;
  kubeconfig = k.kubeconfig;
  yaml = reread_scheduler lib.base k;
})

-- What KubeScheduler.New writes to its receiver.
abbrev pub filled_scheduler : KubeScheduler → KubeScheduler
filled_scheduler k = record k {
  common = some (common_or_empty k.common);
  host = some (host_or_empty k.host);
}

-- The error of KubeScheduler.New
unfoldable pub new_scheduler_error : ControlplaneLibrary → List Call → KubeScheduler → Option Error
new_scheduler_error lib calls k = elim (validate_scheduler lib calls (filled_scheduler k)) [
  | none ↦ none
  | some e ↦ some (wrapf "validating Kubernetes Scheduler configuration" e)
]
