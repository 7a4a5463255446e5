-- ===== src/Kubeconfig.antt =====
-- The configuration of a Kubernetes client and its kubeconfig file (pkg/kubernetes/client/kubeconfig.go),
-- and the checks of certificates and keys when YAML is read (pkg/types/certificate.go and
-- pkg/types/privatekey.go).
pub mod Auth
use libflexkube.Base.{
  String, Option, none, some, List, [], ◌∷◌, ◌++◌, ◌==◌, if◌then◌else◌, append, not, ◌&&◌,
}
use libflexkube.Base.Fault.{
  Error, errorf, wrapf, error_if, Result, success, failure, validate, errors_of,
}
use libflexkube.Util.{return_errors}
use libflexkube.World.{Library}

-- client.Config
pub record ClientConfig : Type 0 where
  pub server : String
  pub ca_certificate : String
  pub client_certificate : String
  pub client_key : String
  pub token : String

option_wrap : String → Option Error → Option Error
option_wrap text none = none
option_wrap text (some e) = some (wrapf text e)

-- Certificate.UnmarshalJSON, of the unquoted text
unfoldable pub unmarshal_certificate : Library → String → Option Error
unfolding option_wrap
unmarshal_certificate lib text = elim (lib.pem_decode text) [
  | none ↦ some (errorf "decoding PEM format")
  | some der ↦ option_wrap "parsing certificate" (lib.certificate_error der)
]

-- parsePrivateKey of pkg/types
unfoldable pub parse_key : Library → String → Option Error
parse_key lib der = elim (lib.pkcs8_error der) [
  | none ↦ none
  | some e ↦ elim (lib.pkcs1_error der) [
    | none ↦ none
    | some e ↦ elim (lib.ec_error der) [
      | none ↦ none
      | some e ↦ some (errorf "given key is not a valid PKCS8, PKCS1 or EC private key")
    ]
  ]
]

-- PrivateKey.UnmarshalJSON, of the unquoted text
unfoldable pub unmarshal_private_key : Library → String → Option Error
unfolding option_wrap
unmarshal_private_key lib text = elim (lib.pem_decode text) [
  | none ↦ some (errorf "decoding PEM format")
  | some der ↦ option_wrap "parsing private key" (parse_key lib der)
]

-- A field that is empty is left out of the YAML; the first error ends the reading.
pub field_error : String → Option Error → Option Error → Option Error
field_error text e later = if text == "" then later else elim e [ none ↦ later | some e ↦ some e ]

-- yaml.Unmarshal of what yaml.Marshal has written of a configuration
unfoldable pub reread_error : Library → ClientConfig → Option Error
unfolding field_error
reread_error lib c = field_error c.ca_certificate (unmarshal_certificate lib c.ca_certificate) (
    field_error c.client_certificate (unmarshal_certificate lib c.client_certificate)
      (field_error c.client_key (unmarshal_private_key lib c.client_key) none))

-- Config.validateAuth
unfoldable pub validate_auth : ClientConfig → List Error
validate_auth c =
    error_if (c.client_certificate == "" && c.token == "")
      (errorf "either client certificate or token must be set")
    ++ (error_if (c.client_key == "" && c.token == "")
          (errorf "either client key or token must be set")
        ++ (error_if (not (c.token == "") && not (c.client_certificate == ""))
              (errorf "client certificate should not be set together with token")
            ++ error_if (not (c.token == "") && not (c.client_key == ""))
                (errorf "client key should not be set together with token")))

-- The errors before the YAML is written and read again.
unfoldable pub config_errors : ClientConfig → List Error
config_errors c =
    error_if (c.server == "") (errorf "server is empty")
    ++ (error_if (c.ca_certificate == "") (errorf "ca certificate is empty") ++ validate_auth c)

-- Config.Validate
unfoldable pub validate_config : Library → ClientConfig → Option Error
validate_config lib c = elim (reread_error lib c) [
  | some e ↦ return_errors (config_errors c ++ wrapf "unmarshaling config" (lib.yaml_error e) ∷ [])
  | none ↦ return_errors (config_errors c)
]

-- The line of a field that is set.
field_line : String → String → String
field_line prefix text = if text == "" then "" else append prefix text

-- Config.renderKubeconfig
unfoldable pub render_kubeconfig : Library → ClientConfig → String
unfolding field_line
render_kubeconfig lib c =
    append
      "apiVersion: v1\nkind: Config\nclusters:\n- name: static\n  cluster:\n    server: https://"
      (append c.server (
        append "\n    certificate-authority-data: " (
          append (lib.base64 c.ca_certificate) (
            append "\nusers:\n- name: static\n  user:" (
              append
                (field_line "\n    client-certificate-data: " (lib.base64 c.client_certificate))
                (append (field_line "\n    client-key-data: " (lib.base64 c.client_key)) (
                  append (field_line "\n    token: " c.token)
                    "\ncurrent-context: static\ncontexts:\n- name: static\n  context:\n    cluster: static\n    user: static\n")))))))

-- The error of NewClientset, through NewGetter and ToRESTConfig
unfoldable pub new_clientset_error : Library → String → Option Error
unfolding option_wrap
new_clientset_error lib kubeconfig = elim (lib.client_config_error kubeconfig) [
  | some e ↦ some (wrapf "creating kubernetes client getter" (wrapf "creating client config" e))
  | none ↦ elim (lib.rest_config_error kubeconfig) [
    | some e ↦ some (wrapf "creating rest config" e)
    | none ↦ lib.clientset_error kubeconfig
  ]
]

-- The error of NewClient
unfoldable pub new_client_error : Library → String → Option Error
unfolding option_wrap
new_client_error lib kubeconfig =
    option_wrap "creating kubernetes clientset" (new_clientset_error lib kubeconfig)

-- Config.ToYAMLString
unfoldable pub to_yaml_string : Library → ClientConfig → Result String
to_yaml_string lib c = elim (validate_config lib c) [
  | some e ↦ failure (wrapf "validating config" e)
  | none ↦
      let kubeconfig = render_kubeconfig lib c in
      elim (new_client_error lib kubeconfig) [
        | some e ↦ failure (wrapf "generated kubeconfig is invalid" e)
        | none ↦ success kubeconfig
      ]
]
