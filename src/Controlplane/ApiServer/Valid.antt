-- ===== src/Controlplane/ApiServer/Valid.antt =====
-- What a valid kube-apiserver has (pkg/controlplane/kube-apiserver.go, pkg/controlplane/validate.go).
use libflexkube.Base.{
  Bool, true, false, not, Option, none, some, Option-cases, inl, inr, List, [], ◌∷◌, ◌++◌, ◌≡◌,
  refl, arith, is_empty, is_some, All,
}
use libflexkube.Base.Fault.{Error, errorf, error_if, option_error, Result-cases}
use libflexkube.Util.{return_errors}
use libflexkube.Util.Errors.{parts_empty, nothing_returned}
use libflexkube.World.{Library, Call}
use libflexkube.Host.Config.{Host}
use libflexkube.Host.Transport.{validate_host}
use libflexkube.Kubeconfig.{unmarshal_certificate, unmarshal_private_key}
use libflexkube.Controlplane.{KubeApiServer, ControlplaneLibrary}
use libflexkube.Controlplane.Validator.{
  first_of, reread_common, fake_kubeconfig, validator_reads, Validator, reread_validator,
  validate_component_host, validate_chosen, validate_component,
}
use libflexkube.Controlplane.ApiServer.{api_server_reads, reread_api_server, validate_api_server}

-- An etcd server, a Common whose certificates can be read where they are set, a valid host, and
-- certificates and keys that can be read, but for the key of service accounts.
pub record IsServing (lib : Library) (k : KubeApiServer) : Type 0 where
  pub etcd : is_empty k.etcd_servers ≡ false
  pub common : is_some k.common ≡ true
  pub common_certificates : reread_common lib k.common ≡ none
  pub host : Host
  pub has_host : k.host ≡ some host
  pub valid_host : validate_host lib host ≡ none
  pub certificate : unmarshal_certificate lib k.api_server_certificate ≡ none
  pub key : unmarshal_private_key lib k.api_server_key ≡ none
  pub etcd_ca : unmarshal_certificate lib k.etcd_ca_certificate ≡ none
  pub etcd_client_certificate : unmarshal_certificate lib k.etcd_client_certificate ≡ none
  pub etcd_client_key : unmarshal_private_key lib k.etcd_client_key ≡ none
  pub front_proxy_certificate : unmarshal_certificate lib k.front_proxy_certificate ≡ none
  pub front_proxy_key : unmarshal_private_key lib k.front_proxy_key ≡ none
  pub kubelet_certificate : unmarshal_certificate lib k.kubelet_client_certificate ≡ none
  pub kubelet_key : unmarshal_private_key lib k.kubelet_client_key ≡ none

none_of_first : (es : List (Option Error)) → first_of es ≡ none → All (λ e. e ≡ none) es
none_of_first [] h = tt
none_of_first (none ∷ es) h = (refl, none_of_first es h)
none_of_first (some e ∷ es) h = cc

-- A check of a host that finds nothing.
host_checked :
    (lib : Library) (o : Option Host)
    → validate_component_host lib o ≡ []
    → (h : Host) × (o ≡ some h) × (validate_host lib h ≡ none)
unfolding validate_component_host
host_checked lib none q = cc
host_checked lib (some h) q = (h, refl, ground (arith, q))

etcd_checked : (b : Bool) (e : Error) → error_if b e ≡ [] → b ≡ false
etcd_checked true e q = cc
etcd_checked false e q = refl

no_option_error : (o : Option Error) → option_error (λ e. e) o ≡ [] → o ≡ none
no_option_error none q = refl
no_option_error (some e) q = cc

common_checked : (b : Bool) (e : Error) → error_if (not b) e ≡ [] → b ≡ true
common_checked true e q = refl
common_checked false e q = cc

module _ (lib : Library) (v : Validator) where
  refused_unread :
      (e : Error) → reread_validator lib v ≡ some e → validate_chosen lib false v ≡ none → ⊥
  unfolding validate_chosen return_errors
  refused_unread e p h = cc (rw (p, validate_chosen) at h)

  checks_passed :
      reread_validator lib v ≡ none
      → validate_chosen lib false v ≡ none
      → return_errors (
          error_if (not (is_some v.common)) (errorf "common certificates must not defined")
          ++ validate_component_host lib v.host)
        ≡ none
  unfolding validate_chosen
  checks_passed p h = rw (p, validate_chosen) at h

  yaml_read : reread_validator lib v ≡ none → v.yaml ≡ none
  unfolding reread_validator
  yaml_read p = let (_, (_, (yaml, _))) = none_of_first (validator_reads lib v) p in yaml

  -- What a validator without a kubeconfig to check accepts.
  chosen_checked :
      validate_chosen lib false v ≡ none
      → (v.yaml ≡ none)
        × (is_some v.common ≡ true)
        × ((h : Host) × (v.host ≡ some h) × (validate_host lib h ≡ none))
  chosen_checked h = elim (Option-cases (reread_validator lib v)) [
    | inr (e, p) ↦ absurd (refused_unread e p h)
    | inl p ↦
        let (common, host) =
          parts_empty _ (validate_component_host lib v.host)
            (nothing_returned _ (checks_passed p h)) in
        (yaml_read p, common_checked (is_some v.common) _ common, host_checked lib v.host host)
  ]

-- The validator that accepts a kube-apiserver has a made up kubeconfig.
component_checked :
    (lib : ControlplaneLibrary) (calls : List Call) (v : Validator)
    → validate_component lib calls false v ≡ none
    → (v.yaml ≡ none)
      × (is_some v.common ≡ true)
      × ((h : Host) × (v.host ≡ some h) × (validate_host lib.base h ≡ none))
unfolding validate_component
component_checked lib calls v h = elim (Result-cases (lib.fake_pki calls)) [
  | inr (e, p) ↦ cc (rw (p, validate_component) at h)
  | inl ((certificate, key), p) ↦
      chosen_checked lib.base (record v { kubeconfig = fake_kubeconfig certificate key })
        (rw (p, validate_component) at h)
]

-- A kube-apiserver in which Validate finds no error has an etcd server, a valid host and a Common,
-- the CA certificates of the Common can be decoded where they are set, and so can each of its own
-- certificates and keys, but for the key of service accounts, of which nothing is said.
pub validate_api_server-IsServing :
    (lib : ControlplaneLibrary) (calls : List Call) (k : KubeApiServer)
    → validate_api_server lib calls k ≡ none
    → IsServing lib.base k
unfolding validate_api_server reread_api_server
validate_api_server-IsServing lib calls k h =
    let (component, etcd) =
      parts_empty (option_error (λ e. e) (validate_component lib calls false _)) _
        (nothing_returned _ h) in
    let (yaml, common, host) = component_checked lib calls _ (no_option_error _ component) in
    let (
      certificate,
      (
        key,
        (
          common_certificates,
          (
            etcd_ca,
            (
              etcd_certificate,
              (etcd_key, (proxy_certificate, (proxy_key, (kubelet_certificate, (kubelet_key, _))))),
            ),
          ),
        ),
      ),
    ) =
      none_of_first (api_server_reads lib.base k) yaml in
    record {
      etcd = etcd_checked (is_empty k.etcd_servers) _ etcd;
      common = common;
      common_certificates = common_certificates;
      host = host.0;
      has_host = host.1;
      valid_host = host.2;
      certificate = certificate;
      key = key;
      etcd_ca = etcd_ca;
      etcd_client_certificate = etcd_certificate;
      etcd_client_key = etcd_key;
      front_proxy_certificate = proxy_certificate;
      front_proxy_key = proxy_key;
      kubelet_certificate = kubelet_certificate;
      kubelet_key = kubelet_key;
    }
