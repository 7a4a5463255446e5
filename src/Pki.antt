-- ===== src/Pki.antt =====
-- Certificates and private keys in PEM format, and where a PKI keeps them (pkg/pki/pki.go,
-- pkg/pki/etcd.go, pkg/pki/kubernetes.go, pkg/pki/privatekey.go).
pub mod Usage
pub mod Merge
pub mod Generate
pub mod Requests
pub mod EtcdCertificates
pub mod KubernetesCertificates
pub mod RootCa
pub mod Settled
pub mod Fresh
pub mod Kept
pub mod KeptParts
use libflexkube.Base.{String, Bool, Option, none, some, List}
use libflexkube.Base.Map.{Map}
use libflexkube.Base.Fault.{Error, errorf, wrapf, Result, success, failure}
use libflexkube.Util.{ℤ}
use libflexkube.World.{Library}

-- pki.Certificate; types.Certificate and types.PrivateKey are texts.
pub record Certificate : Type 0 where
  pub organization : String
  pub rsa_bits : ℤ
  pub validity_duration : String
  pub renew_threshold : String
  pub common_name : String
  pub ca : Bool
  pub key_usage : List String
  pub ip_addresses : List String
  pub dns_names : List String
  pub x509_certificate : String
  pub public_key : String
  pub private_key : String

-- pki.Etcd; a pointer in a map may be nil. Of the maps only `servers` tells nil from empty: the code
-- makes the others before it writes to them.
pub record EtcdPki : Type 0 where
  pub certificate : Certificate
  pub ca : Option Certificate
  pub peers : Map String
  pub servers : Option (Map String)
  pub client_cns : List String
  pub peer_certificates : Map (Option Certificate)
  pub server_certificates : Map (Option Certificate)
  pub client_certificates : Map (Option Certificate)

-- pki.KubeAPIServer
pub record KubeApiServerPki : Type 0 where
  pub certificate : Certificate
  pub external_names : List String
  pub server_ips : List String
  pub server_certificate : Option Certificate
  pub kubelet_certificate : Option Certificate
  pub front_proxy_client_certificate : Option Certificate

-- pki.Kubernetes
pub record KubernetesPki : Type 0 where
  pub certificate : Certificate
  pub ca : Option Certificate
  pub front_proxy_ca : Option Certificate
  pub kube_api_server : Option KubeApiServerPki
  pub admin_certificate : Option Certificate
  pub kube_controller_manager_certificate : Option Certificate
  pub kube_scheduler_certificate : Option Certificate
  pub service_account_certificate : Option Certificate

-- pki.PKI
pub record Pki : Type 0 where
  pub certificate : Certificate
  pub root_ca : Option Certificate
  pub etcd : Option EtcdPki
  pub kubernetes : Option KubernetesPki

-- The bytes that x509.ParseCertificate accepts stand for the certificate that it returns.
parsed_certificate : Library → String → Result String
parsed_certificate lib der = elim (lib.certificate_error der) [
  | some e ↦ failure (wrapf "parsing X.509 certificate" e)
  | none ↦ success der
]

-- Certificate.DecodeX509Certificate, of the text of the certificate
unfoldable pub decode_x509_certificate : Library → String → Result String
unfolding parsed_certificate
decode_x509_certificate lib text = elim (lib.pem_decode text) [
  | none ↦ failure (errorf "X.509 certificate is not defined in valid PEM format")
  | some der ↦ parsed_certificate lib der
]

-- parsePrivateKey
unfoldable pub parse_private_key : Library → String → Option Error
parse_private_key lib der = elim (lib.pkcs8_error der) [
  | none ↦ none
  | some e ↦ elim (lib.pkcs1_error der) [
    | none ↦ none
    | some e ↦ elim (lib.ec_error der) [
      | none ↦ none
      | some e ↦ some (errorf "unsupported private key format, tried PKCS8, PKCS1 and EC formats")
    ]
  ]
]

wrapped_key_error : Option Error → Option Error
wrapped_key_error none = none
wrapped_key_error (some e) = some (wrapf "parsing private key" e)

-- ValidatePrivateKey
unfoldable pub validate_private_key : Library → String → Option Error
unfolding wrapped_key_error
validate_private_key lib key = elim (lib.pem_decode key) [
  | none ↦ some (errorf "decoding PEM format")
  | some der ↦ wrapped_key_error (parse_private_key lib der)
]
