-- ===== src/Controlplane/Validator.antt =====
-- The checks that the components of a controlplane share (pkg/controlplane/validate.go).
use libflexkube.Base.{
  String, Bool, true, false, not, Option, none, some, List, [], ◌∷◌, ◌++◌, is_some,
}
use libflexkube.Base.Fault.{
  Error, errorf, wrapf, error_if, error_of, option_error, success, failure,
}
use libflexkube.Util.{return_errors}
use libflexkube.World.{Library, Call}
use libflexkube.Host.Config.{Host}
use libflexkube.Host.Transport.{validate_host}
use libflexkube.Kubeconfig.{
  ClientConfig, unmarshal_certificate, field_error, reread_error, to_yaml_string,
}
use libflexkube.Controlplane.{Common, ControlplaneLibrary}

-- The first of these errors.
abbrev pub first_of : List (Option Error) → Option Error
first_of [] = none
first_of (none ∷ es) = first_of es
first_of (some e ∷ es) = some e

-- The error of reading a Common again, whose empty fields are left out.
abbrev pub reread_common : Library → Option Common → Option Error
reread_common lib none = none
reread_common lib (some c) =
    field_error c.front_proxy_ca_certificate
      (unmarshal_certificate lib c.front_proxy_ca_certificate)
      (field_error c.kubernetes_ca_certificate
        (unmarshal_certificate lib c.kubernetes_ca_certificate) none)

-- controlplane.validator; `yaml` is the error of reading the component itself again.
pub record Validator : Type 0 where
  pub common : Option Common
  pub host : Option Host
  pub kubeconfig : ClientConfig
  pub yaml : Option Error

-- The errors of reading the validator again, in the order of the sorted keys.
abbrev pub validator_reads : Library → Validator → List (Option Error)
validator_reads lib v = reread_common lib v.common ∷ reread_error lib v.kubeconfig ∷ v.yaml ∷ []

unfoldable pub reread_validator : Library → Validator → Option Error
reread_validator lib v = first_of (validator_reads lib v)

-- validator.validateHost
unfoldable pub validate_component_host : Library → Option Host → List Error
validate_component_host lib none = errorf "host must be defined" ∷ []
validate_component_host lib (some h) =
    option_error (wrapf "validating host configuration") (validate_host lib h)

-- validator.validate, after its kubeconfig is chosen
unfoldable pub validate_chosen : Library → Bool → Validator → Option Error
validate_chosen lib checks_kubeconfig v = elim (reread_validator lib v) [
  | some e ↦ return_errors (wrapf "unmarshaling kubeconfig" (lib.yaml_error e) ∷ [])
  | none ↦ return_errors (
      error_if (not (is_some v.common)) (errorf "common certificates must not defined")
      ++ ((elim checks_kubeconfig [
        | true ↦ error_of (wrapf "invalid kubeconfig") (to_yaml_string lib v.kubeconfig)
        | false ↦ []
      ])
          ++ validate_component_host lib v.host))
]

-- The kubeconfig that is made up where the component has none.
abbrev pub fake_kubeconfig : String → String → ClientConfig
fake_kubeconfig certificate key = record {
  server = "localhost";
  ca_certificate = certificate;
  client_certificate = certificate;
  client_key = key;
  token = "";
}

-- validator.validate, after these calls
unfoldable pub validate_component :
    ControlplaneLibrary → List Call → Bool → Validator → Option Error
validate_component lib calls true v = validate_chosen lib.base true v
validate_component lib calls false v = elim (lib.fake_pki calls) [
  | failure e ↦ some (wrapf "generating fake PKI for validation" e)
  | success (certificate, key) ↦
      validate_chosen lib.base false (record v { kubeconfig = fake_kubeconfig certificate key })
]
