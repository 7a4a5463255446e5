-- ===== src/Pki/Merge.antt =====
-- How the configuration of a certificate is put together from several (buildCertificate in
-- pkg/pki/pki.go): each is written as YAML, which leaves empty fields out, and read over the result.
pub mod Reference
use libflexkube.Base.{
  String, Bool, false, Option, none, some, List, [], ◌∷◌, ◌||◌, ◌==◌, if◌then◌else◌, is_empty,
}
use libflexkube.Base.Fault.{Error, wrapf, Result, success, failure}
use libflexkube.Util.{ℤ, pos, is_zero}
use libflexkube.World.{Library}
use libflexkube.Kubeconfig.{unmarshal_certificate, unmarshal_private_key, field_error}
use libflexkube.Pki.{Certificate}

-- &Certificate{}
abbrev pub empty_certificate : Certificate
empty_certificate = record {
  organization = "";
  rsa_bits = pos 0;
  validity_duration = "";
  renew_threshold = "";
  common_name = "";
  ca = false;
  key_usage = [];
  ip_addresses = [];
  dns_names = [];
  x509_certificate = "";
  public_key = "";
  private_key = "";
}

-- What buildCertificate starts from.
abbrev pub default_certificate : Certificate
default_certificate = record empty_certificate {
  organization = "organization";
  rsa_bits = pos 2048;
  validity_duration = "8760h";
  renew_threshold = "720h";
}

text_over : String → String → String
text_over new old = if new == "" then old else new

list_over : List String → List String → List String
list_over new old = if is_empty new then old else new

-- What yaml.Unmarshal leaves in `cert`, of the YAML of `c`.
unfoldable pub merge_certificate : Certificate → Certificate → Certificate
unfolding text_over list_over
merge_certificate cert c = record {
  organization = text_over c.organization cert.organization;
  rsa_bits = if is_zero c.rsa_bits then cert.rsa_bits else c.rsa_bits;
  validity_duration = text_over c.validity_duration cert.validity_duration;
  renew_threshold = text_over c.renew_threshold cert.renew_threshold;
  common_name = text_over c.common_name cert.common_name;
  ca = c.ca || cert.ca;
  key_usage = list_over c.key_usage cert.key_usage;
  ip_addresses = list_over c.ip_addresses cert.ip_addresses;
  dns_names = list_over c.dns_names cert.dns_names;
  x509_certificate = text_over c.x509_certificate cert.x509_certificate;
  public_key = text_over c.public_key cert.public_key;
  private_key = text_over c.private_key cert.private_key;
}

-- The error of that reading. The YAML is read as JSON whose keys are sorted, so the private key
-- comes before the certificate, and the first error ends the reading.
unfoldable pub certificate_text_error : Library → Certificate → Option Error
certificate_text_error lib c =
    field_error c.private_key (unmarshal_private_key lib c.private_key)
      (field_error c.x509_certificate (unmarshal_certificate lib c.x509_certificate) none)

-- The body of the loop; of a nil pointer the YAML is "null", which changes nothing.
unfoldable pub merge_one : Library → Certificate → Option Certificate → Result Certificate
merge_one lib cert none = success cert
merge_one lib cert (some c) = elim (certificate_text_error lib c) [
  | some e ↦ failure (wrapf "unmarshaling the certificate" (lib.yaml_error e))
  | none ↦ success (merge_certificate cert c)
]

unfoldable pub merge_all : Library → Certificate → List (Option Certificate) → Result Certificate
merge_all lib cert [] = success cert
merge_all lib cert (c ∷ certs) = elim (merge_one lib cert c) [
  | failure e ↦ failure e
  | success merged ↦ merge_all lib merged certs
]

-- buildCertificate
unfoldable pub build_certificate : Library → List (Option Certificate) → Result Certificate
build_certificate lib certs = merge_all lib default_certificate certs
