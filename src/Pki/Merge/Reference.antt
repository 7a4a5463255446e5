-- ===== src/Pki/Merge/Reference.antt =====
-- What buildCertificate of pkg/pki/pki.go means: each field is that of the last certificate that sets
-- it.
use libflexkube.Base.{
  String, Bool, false, Option, none, some, List, [], ◌∷◌, ◌||◌, ◌≡◌, refl, arith, if◌then◌else◌,
  map,
}
use mathlib.Core.Path.{subst}
use libflexkube.Base.Fault.{Error, wrapf, Result, success, failure}
use libflexkube.Util.{ℤ, is_zero, pick_string, pick_string_slice, pick_int}
use libflexkube.World.{Library}
use libflexkube.Pki.{Certificate}
use libflexkube.Pki.Merge.{
  default_certificate, text_over, list_over, merge_certificate, certificate_text_error, merge_one,
  merge_all, build_certificate,
}

-- The certificates that are there, the last one first, before these.
abbrev pub backwards : List Certificate → List (Option Certificate) → List Certificate
backwards acc [] = acc
backwards acc (none ∷ certs) = backwards acc certs
backwards acc (some c ∷ certs) = backwards (c ∷ acc) certs

abbrev pub is_any : List Bool → Bool
is_any [] = false
is_any (b ∷ bs) = b || is_any bs

-- The first value that is set of each field.
abbrev pub first_set : List Certificate → Certificate
first_set certs = record {
  organization = pick_string (map (λ c. c.organization) certs);
  rsa_bits = pick_int (map (λ c. c.rsa_bits) certs);
  validity_duration = pick_string (map (λ c. c.validity_duration) certs);
  renew_threshold = pick_string (map (λ c. c.renew_threshold) certs);
  common_name = pick_string (map (λ c. c.common_name) certs);
  ca = is_any (map (λ c. c.ca) certs);
  key_usage = pick_string_slice (map (λ c. c.key_usage) certs);
  ip_addresses = pick_string_slice (map (λ c. c.ip_addresses) certs);
  dns_names = pick_string_slice (map (λ c. c.dns_names) certs);
  x509_certificate = pick_string (map (λ c. c.x509_certificate) certs);
  public_key = pick_string (map (λ c. c.public_key) certs);
  private_key = pick_string (map (λ c. c.private_key) certs);
}

-- The error of the first certificate whose texts cannot be read.
abbrev pub first_error : Library → List (Option Certificate) → Option Error
first_error lib [] = none
first_error lib (none ∷ certs) = first_error lib certs
first_error lib (some c ∷ certs) = elim (certificate_text_error lib c) [
  | none ↦ first_error lib certs
  | some e ↦ some e
]

abbrev pub built_or_failed : Library → Certificate → Option Error → Result Certificate
built_or_failed lib cert none = success cert
built_or_failed lib cert (some e) =
    failure (wrapf "unmarshaling the certificate" (lib.yaml_error e))

text_over-pick_string :
    (v : String) (vs : List String) → text_over v (pick_string vs) ≡ pick_string (v ∷ vs)
unfolding text_over pick_string
text_over-pick_string v vs = ground arith

list_over-pick_string_slice :
    (v : List String) (vs : List (List String))
    → list_over v (pick_string_slice vs) ≡ pick_string_slice (v ∷ vs)
unfolding list_over pick_string_slice
list_over-pick_string_slice [] vs = refl
list_over-pick_string_slice (t ∷ v) vs = refl

over-pick_int : (v : ℤ) (vs : List ℤ) → (if is_zero v then pick_int vs else v) ≡ pick_int (v ∷ vs)
unfolding pick_int
over-pick_int v vs = ground arith

merge-first_set :
    (c : Certificate) (acc : List Certificate)
    → merge_certificate (first_set acc) c ≡ first_set (c ∷ acc)
unfolding merge_certificate
merge-first_set c acc = λ i. record {
  organization = text_over-pick_string c.organization (map (λ c. c.organization) acc) i;
  rsa_bits = over-pick_int c.rsa_bits (map (λ c. c.rsa_bits) acc) i;
  validity_duration =
      text_over-pick_string c.validity_duration (map (λ c. c.validity_duration) acc) i;
  renew_threshold = text_over-pick_string c.renew_threshold (map (λ c. c.renew_threshold) acc) i;
  common_name = text_over-pick_string c.common_name (map (λ c. c.common_name) acc) i;
  ca = c.ca || is_any (map (λ c. c.ca) acc);
  key_usage = list_over-pick_string_slice c.key_usage (map (λ c. c.key_usage) acc) i;
  ip_addresses = list_over-pick_string_slice c.ip_addresses (map (λ c. c.ip_addresses) acc) i;
  dns_names = list_over-pick_string_slice c.dns_names (map (λ c. c.dns_names) acc) i;
  x509_certificate = text_over-pick_string c.x509_certificate (map (λ c. c.x509_certificate) acc) i;
  public_key = text_over-pick_string c.public_key (map (λ c. c.public_key) acc) i;
  private_key = text_over-pick_string c.private_key (map (λ c. c.private_key) acc) i;
}

merge_all-first_set :
    (lib : Library) (acc : List Certificate) (certs : List (Option Certificate))
    → merge_all lib (first_set acc) certs
      ≡ built_or_failed lib (first_set (backwards acc certs)) (first_error lib certs)
unfolding merge_all merge_one
merge_all-first_set lib acc [] = refl
merge_all-first_set lib acc (none ∷ certs) = merge_all-first_set lib acc certs
merge_all-first_set lib acc (some c ∷ certs) =
    elim (certificate_text_error lib c)
      as (λ e.
        (elim (elim e as (λ o. Result Certificate) [
          | some e ↦ failure (wrapf "unmarshaling the certificate" (lib.yaml_error e))
          | none ↦ success (merge_certificate (first_set acc) c)
        ])
          as (λ o. Result Certificate) [
            | failure e ↦ failure e
            | success merged ↦ merge_all lib merged certs
          ])
        ≡ built_or_failed lib (first_set (backwards (c ∷ acc) certs))
            (elim e [ none ↦ first_error lib certs | some e ↦ some e ])) [
              | none ↦ rw (merge-first_set c acc) (merge_all-first_set lib (c ∷ acc) certs)
              | some e ↦ refl
            ]

first_set_default : first_set (default_certificate ∷ []) ≡ default_certificate
unfolding pick_string pick_int pick_string_slice
first_set_default = refl

-- buildCertificate fails with the error of the first certificate whose key or X.509 certificate
-- cannot be read, and else returns, in each of the twelve fields, the value of the last certificate
-- that sets it, where nil certificates count for nothing and the defaults come first of all;
-- whether it is a CA is set once any certificate says so.
pub build_certificate-eq-first_set :
    (lib : Library) (certs : List (Option Certificate))
    → build_certificate lib certs
      ≡ built_or_failed lib
          (first_set (backwards (default_certificate ∷ []) certs))
          (first_error lib certs)
unfolding build_certificate
build_certificate-eq-first_set lib certs =
    subst
      (λ d.
        merge_all lib d certs
        ≡ built_or_failed lib (first_set (backwards (default_certificate ∷ []) certs))
            (first_error lib certs))
      first_set_default (merge_all-first_set lib (default_certificate ∷ []) certs)
