-- ===== src/Pki/Generate.antt =====
-- Generating one certificate: its checks, its private key and its X.509 certificate
-- (pkg/pki/pki.go). A key is known by the bytes of its PKCS #1 form, a parsed certificate by its
-- own, and cryptography is a call of the world.
use libflexkube.Base.{
  String, Bool, true, false, not, Option, none, some, List, [], ◌∷◌, ◌==◌, if◌then◌else◌,
}
use libflexkube.Base.Fault.{Error, errorf, errorf_arg, wrapf, wrapf_arg, Result, success, failure}
use libflexkube.Base.Exec.{Exec, Action, pure, fail, lift, gets, modify, wrap, zoom, ◌>>=◌, ◌>>◌}
use libflexkube.Util.{ℤ, pos, is_zero, sort_strings, join_commas}
use libflexkube.World.{
  World, Library, Template, Issuer, itself, parsed, generate_key, random_serial, create_certificate,
  perform,
}
use libflexkube.Pki.{Certificate, decode_x509_certificate}
use libflexkube.Pki.Usage.{decode_key_usage}

-- The world, and the object that a method changes.
abbrev pub With : Type 0 → Type 0
With S = World × S

module _ {S : Type 0} where
  abbrev pub on_world : {A : Type 0} → Exec World A → Exec (With S) A
  on_world m = zoom (λ s. s.0) (λ s w. (w, s.1)) m

  abbrev pub library : Exec (With S) Library
  library = gets (λ s. s.0.lib)

  abbrev pub self : Exec (With S) S
  self = gets (λ s. s.1)

  abbrev pub update : (S → S) → Action (With S)
  update f = modify (λ s. (s.0, f s.1))

-- A function that returns only an error.
abbrev pub check : {S : Type 0} → Option Error → Action S
check none = pure tt
check (some e) = fail e

ip_error : Library → List String → Option Error
ip_error lib [] = none
ip_error lib (i ∷ ips) = elim (lib.parse_ip i) [
  | none ↦ some (errorf_arg "parsing IP address %q" i)
  | some ip ↦ ip_error lib ips
]

-- Certificate.Validate
unfoldable pub validate_certificate : Library → Certificate → Option Error
unfolding ip_error
validate_certificate lib c = elim (lib.parse_duration c.validity_duration) [
  | failure e ↦
      some (wrapf_arg "parsing validity duration %q for certificate" c.validity_duration e)
  | success d ↦ elim (ip_error lib c.ip_addresses) [
    | some e ↦ some e
    | none ↦ if is_zero c.rsa_bits then some (errorf "RSA bits can't be 0") else none
  ]
]

parsed_key : Library → String → Result String
parsed_key lib der = elim (lib.pkcs1_error der) [
  | some e ↦ failure (wrapf "parsing private key to PKCS1 format" e)
  | none ↦ success der
]

-- Certificate.decodePrivateKey, of the text of the key
unfoldable pub decode_private_key : Library → String → Result String
unfolding parsed_key
decode_private_key lib text = elim (lib.pem_decode text) [
  | none ↦ failure (errorf "private key is not defined in valid PEM format")
  | some der ↦ parsed_key lib der
]

-- Certificate.persistPublicKey
unfoldable pub persist_public_key : String → Action (With Certificate)
persist_public_key key = do
  lib ← library
  bytes ← wrap "marshaling RSA public key" (lift (lib.marshal_public_key key))
  text ← wrap "encoding RSA public key" (lift (lib.pem_encode "RSA PUBLIC KEY" bytes))
  update (λ c. record c { public_key = text })

-- Certificate.generatePrivateKey
unfoldable pub generate_private_key : Exec (With Certificate) String
generate_private_key = do
  lib ← library
  c ← self
  key ← wrap "generating RSA key" (on_world (perform (generate_key c.rsa_bits)))
  text ← wrap "encoding RSA private key" (lift (lib.pem_encode "RSA PRIVATE KEY" key))
  update (λ c. record c { private_key = text })
  wrap "persisting RSA public key" (persist_public_key key)
  pure key

-- Certificate.getPrivateKey
unfoldable pub get_private_key : Exec (With Certificate) String
get_private_key = do
  lib ← library
  c ← self
  if not (c.private_key == "")
      then lift (decode_private_key lib c.private_key)
      else generate_private_key

-- What ipAddressesUpToDate compares, of the bytes of a certificate and the configured addresses
unfoldable pub ip_addresses_up_to_date : Library → String → List String → Bool
ip_addresses_up_to_date lib der configured_ips =
    join_commas (sort_strings (lib.certificate_ips der))
    == join_commas (sort_strings configured_ips)

-- Certificate.IsX509CertificateUpToDate; the comparison sorts the configured addresses in place.
unfoldable pub is_x509_certificate_up_to_date : Exec (With Certificate) Bool
is_x509_certificate_up_to_date = do
  lib ← library
  c ← self
  if c.x509_certificate == "" then pure false else do
    der ← wrap "decoding X.509 certificate" (lift (decode_x509_certificate lib c.x509_certificate))
    update (λ c. record c { ip_addresses = sort_strings c.ip_addresses })
    pure (ip_addresses_up_to_date lib der c.ip_addresses)

-- Certificate.decodeKeypair
unfoldable pub decode_keypair : Library → Certificate → Result (String × String)
decode_keypair lib c = elim (decode_private_key lib c.private_key) [
  | failure e ↦ failure (wrapf "decoding private key" e)
  | success key ↦ elim (decode_x509_certificate lib c.x509_certificate) [
    | failure e ↦ failure (wrapf "decoding X.509 certificate" e)
    | success der ↦ success (der, key)
  ]
]

-- bigIntHash of a key's modulus
unfoldable pub big_int_hash : Library → String → Result String
big_int_hash lib key = elim (lib.sha1 (lib.modulus key)) [
  | failure e ↦ failure (wrapf "writing bytes to SHA1 function" e)
  | success sum ↦ success sum
]

-- Certificate.persistX509Certificate
unfoldable pub persist_x509_certificate : String → Action (With Certificate)
persist_x509_certificate der = do
  lib ← library
  text ← wrap "writing data to cert.pem" (lift (lib.pem_encode "CERTIFICATE" der))
  update (λ c. record c { x509_certificate = text })

-- Certificate.createAndPersist
unfoldable pub create_and_persist : Template → Issuer → String → String → Action (With Certificate)
create_and_persist cert ca_cert cert_pk ca_pk = do
  der ←
      wrap "creating certificate"
        (on_world (perform (create_certificate cert ca_cert cert_pk ca_pk)))
  persist_x509_certificate der

-- A duration whose error is ignored is 0, and an address that cannot be parsed has no text.
parsed_duration : Result ℤ → ℤ
parsed_duration (success d) = d
parsed_duration (failure e) = pos 0

unfoldable pub ip_texts : Library → List String → List String
ip_texts lib [] = []
ip_texts lib (i ∷ ips) = elim (lib.parse_ip i) [
  | none ↦ "" ∷ ip_texts lib ips
  | some ip ↦ ip ∷ ip_texts lib ips
]

-- The template that generateX509Certificate fills, at this time.
unfoldable pub certificate_template : World → Certificate → String → Template
unfolding parsed_duration
certificate_template w c serial =
    let now = w.clock w.history in
    let (usage, extended) = decode_key_usage c.key_usage in
    record {
      serial_number = serial;
      organization = c.organization ∷ [];
      common_name = c.common_name;
      not_before = now;
      not_after = (now, parsed_duration (w.lib.parse_duration c.validity_duration));
      key_usage = usage;
      ext_key_usage = extended;
      basic_constraints_valid = true;
      is_ca = c.ca;
      dns_names = c.dns_names;
      ip_addresses = ip_texts w.lib c.ip_addresses;
      subject_key_id = "";
    }

-- The issuer and its key: the certificate itself, where there is no CA.
unfoldable pub issuer_of : Library → Option Certificate → String → Result (Issuer × String)
issuer_of lib none cert_pk = success (itself, cert_pk)
issuer_of lib (some ca) cert_pk = elim (decode_keypair lib ca) [
  | failure e ↦ failure (wrapf "decoding CA key pair" e)
  | success (der, key) ↦ success (parsed der, key)
]

-- Certificate.generateX509Certificate
unfoldable pub generate_x509_certificate : Option Certificate → String → Action (With Certificate)
generate_x509_certificate ca_cert cert_pk = do
  lib ← library
  c ← self
  serial ← wrap "generating serial number for certificate" (on_world (perform random_serial))
  cert ← gets (λ s. certificate_template s.0 c serial)
  issuer ← lift (issuer_of lib ca_cert cert_pk)
  subject_key_id ← wrap "generating certificate subject Key ID" (lift (big_int_hash lib cert_pk))
  create_and_persist (record cert { subject_key_id = subject_key_id }) issuer.0 cert_pk issuer.1

-- Certificate.ensureX509Certificate
unfoldable pub ensure_x509_certificate : Option Certificate → String → Action (With Certificate)
ensure_x509_certificate ca_cert private_key = do
  up_to_date ← wrap "checking if X.509 certificate is up to date" is_x509_certificate_up_to_date
  if not up_to_date then generate_x509_certificate ca_cert private_key else pure tt

-- Certificate.Generate
unfoldable pub generate : Option Certificate → Action (With Certificate)
generate ca_cert = do
  lib ← library
  c ← self
  wrap "validating the certificate" (check (validate_certificate lib c))
  key ← wrap "getting private key" get_private_key
  ensure_x509_certificate ca_cert key
