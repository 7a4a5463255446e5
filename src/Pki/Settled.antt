-- ===== src/Pki/Settled.antt =====
-- Certificates that Certificate.Generate and buildAndGenerate of pkg/pki/pki.go leave as they are.
pub mod EtcdParts
pub mod Parts
use libflexkube.Base.{
  String, true, false, not, Option, none, some, List, [], ◌∷◌, ◌==◌, ◌≡◌, refl, arith, map, All,
  if◌then◌else◌,
}
use libflexkube.Base.Fault.{Result, success}
use libflexkube.Base.Exec.{Outcome, ok, ◌>>=◌}
use libflexkube.Util.{sort_strings}
use libflexkube.World.{World, Library}
use libflexkube.Pki.{Certificate, decode_x509_certificate}
use libflexkube.Pki.Merge.{build_certificate}
use libflexkube.Pki.Generate.{
  With, validate_certificate, decode_private_key, get_private_key, ip_addresses_up_to_date,
  is_x509_certificate_up_to_date, ensure_x509_certificate, generate,
}
use libflexkube.Pki.Requests.{
  Place, CertificateRequest, with_results, initialized, on_object, serve, store_results,
  build_and_generate,
}

-- The configuration is valid, the key can be decoded, and the certificate has the addresses.
pub record IsSettled (lib : Library) (c : Certificate) : Type 0 where
  pub key : String
  pub der : String
  pub valid : validate_certificate lib c ≡ none
  pub key_set : (c.private_key == "") ≡ false
  pub key_decodes : decode_private_key lib c.private_key ≡ success key
  pub certificate_set : (c.x509_certificate == "") ≡ false
  pub certificate_decodes : decode_x509_certificate lib c.x509_certificate ≡ success der
  pub same_ips : ip_addresses_up_to_date lib der c.ip_addresses ≡ true

module _ (ca : Option Certificate) (w : World) (c : Certificate) (h : IsSettled w.lib c) where
  -- placeholder
  pub generate_settled :
      generate ca (w, c) ≡ (ok tt, (w, record c { ip_addresses = sort_strings c.ip_addresses }))
  unfolding generate get_private_key ensure_x509_certificate is_x509_certificate_up_to_date ◌>>=◌
  generate_settled =
      rw (h.valid, h.key_set, h.key_decodes, h.certificate_set, h.certificate_decodes, h.same_ips)
        refl

-- What a place holds can be written to it.
abbrev pub IsPlace : {S : Type 0} → Place S → Type 0
IsPlace {S} p = (s : S) (c : Certificate) → p.read s ≡ some c → p.write s c ≡ s

-- The merged configuration of a request is settled, and its target holds the key and the certificate.
pub record IsServed {S : Type 0} (lib : Library) (s : S) (r : CertificateRequest S) : Type 0 where
  pub cert : Certificate
  pub holder : Certificate
  pub built : build_certificate lib (map (λ read. read s) r.certificates) ≡ success cert
  pub settled : IsSettled lib cert
  pub held : r.target.read s ≡ some holder
  pub results : with_results holder cert ≡ holder
  pub place : IsPlace r.target

module _ {S : Type 0} (w : World) (s : S) where
  pub serve_settled :
      (r : CertificateRequest S) → IsServed w.lib s r → serve r (w, s) ≡ (ok tt, (w, s))
  unfolding serve on_object store_results ◌>>=◌
  serve_settled r h =
      rw
        (
          h.built,
          generate_settled (r.ca s) w h.cert h.settled,
          h.held,
          h.results,
          h.place s h.holder h.held,
        )
        refl

  pub build_and_generate_settled :
      (requests : List (CertificateRequest S))
      → All (IsServed w.lib s) requests
      → build_and_generate requests (w, s) ≡ (ok tt, (w, s))
  unfolding build_and_generate ◌>>=◌
  build_and_generate_settled [] h = refl
  build_and_generate_settled (r ∷ requests) h =
      rw (serve_settled r h.0) (build_and_generate_settled requests h.1)

  -- The target is there already.
  pub initialized_idle :
      (r : CertificateRequest S) → IsServed w.lib s r → initialized r.target s ≡ s
  unfolding initialized
  initialized_idle r h = rw (h.held, initialized) refl
