-- ===== src/Pki/Fresh.antt =====
-- What Certificate.Generate of pkg/pki/pki.go makes for a certificate that has none yet.
pub mod Keys
use libflexkube.Base.{
  String, true, false, Bool-cases, Option, Option-cases, none, some, List, [], ◌∷◌, ◌==◌, ◌≡◌, refl,
  sym, ap, ◌∙◌, arith, All, inl, inr, eq_refl,
}
use libflexkube.Base.Fault.{Result, Result-cases, success}
use libflexkube.Base.Exec.{ok, wrap, zoom, ◌>>=◌}
use mathlib.Core.Path.{subst}
use libflexkube.Base.Exec.Ensures.{ok-injective}
use libflexkube.Base.Exec.Success.{bind_ok, wrap_ok}
use libflexkube.Util.{ℤ, sort_strings}
use libflexkube.World.{
  World, Library, Call, Reply, Template, Issuer, generate_key, random_serial, create_certificate,
  perform,
}
use libflexkube.Pki.{Certificate, decode_x509_certificate}
use libflexkube.Pki.Generate.{
  With, validate_certificate, decode_private_key, persist_public_key, generate_private_key,
  get_private_key, ip_addresses_up_to_date, is_x509_certificate_up_to_date, big_int_hash,
  persist_x509_certificate, create_and_persist, certificate_template, issuer_of,
  generate_x509_certificate, ip_texts, ensure_x509_certificate, generate,
}
use libflexkube.Pki.Settled.{IsSettled, generate_settled}
pub use libflexkube.Pki.Fresh.Keys.{IsSound, IsCanonical}
use libflexkube.Pki.Fresh.Keys.{Keyed, get_private_key-Keyed}

-- A certificate with these addresses has been made and is held; the rest is as before.
record Issued (w : World) (c : Certificate) (ips : List String) (s : With Certificate)
    : Type 0 where
  pub der : String
  pub decodes : decode_x509_certificate w.lib s.1.x509_certificate ≡ success der
  pub set : (s.1.x509_certificate == "") ≡ false
  pub addresses : w.lib.certificate_ips der ≡ ips
  pub same : s.1 ≡ record c { x509_certificate = s.1.x509_certificate }
  pub lib : s.0.lib ≡ w.lib

certificate_decodes :
    (lib : Library) (text der : String)
    → lib.pem_decode text ≡ some der
    → lib.certificate_error der ≡ none
    → decode_x509_certificate lib text ≡ success der
unfolding decode_x509_certificate
certificate_decodes lib text der p q = ground arith

create_and_persist-Issued :
    (w : World) (c : Certificate) (t : Template) (i : Issuer) (key signer : String)
    → IsSound w.lib w.answer
    → (create_and_persist t i key signer (w, c)).0 ≡ ok tt
    → Issued w c t.ip_addresses (create_and_persist t i key signer (w, c)).1
unfolding create_and_persist persist_x509_certificate ◌>>=◌ perform zoom
create_and_persist-Issued w c t i key signer sound q =
    elim (Result-cases (w.answer w.history (create_certificate t i key signer))) [
      | inr (e, p) ↦ cc (rw p at q)
      | inl (der, p) ↦ elim (Result-cases (w.lib.pem_encode "CERTIFICATE" der)) [
        | inr (e, p2) ↦ cc (rw (p, p2) at q)
        | inl (text, p2) ↦
            rw (p, p2)
              (record {
                der = der;
                decodes =
                    certificate_decodes w.lib text der (sound.pem_decodes "CERTIFICATE" der text p2)
                      (sound.certificates w.history t i key signer der p);
                set = sound.pem_set "CERTIFICATE" der text p2;
                addresses = sound.addresses w.history t i key signer der p;
                same = refl;
                lib = refl;
              })
      ]
    ]

ip_texts_canonical :
    (lib : Library) (ips : List String) → IsCanonical lib ips → ip_texts lib ips ≡ ips
unfolding ip_texts
ip_texts_canonical lib [] h = refl
ip_texts_canonical lib (i ∷ ips) h = ground (arith, ip_texts_canonical lib ips h.1)

after_call : World → Call → World
after_call w call = record w { history = call ∷ w.history }

generate_x509_certificate-Issued :
    (w : World) (c : Certificate) (ca : Option Certificate) (key : String)
    → IsSound w.lib w.answer
    → IsCanonical w.lib c.ip_addresses
    → (generate_x509_certificate ca key (w, c)).0 ≡ ok tt
    → Issued w c c.ip_addresses (generate_x509_certificate ca key (w, c)).1
unfolding generate_x509_certificate certificate_template ◌>>=◌ perform zoom after_call
generate_x509_certificate-Issued w c ca key sound canonical q =
    elim (Result-cases (w.answer w.history random_serial)) [
      | inr (e, p) ↦ cc (rw p at q)
      | inl (serial, p) ↦ elim (Result-cases (issuer_of w.lib ca key)) [
        | inr (e, p2) ↦ cc (rw (p, p2) at q)
        | inl (issuer, p2) ↦ elim (Result-cases (big_int_hash w.lib key)) [
          | inr (e, p3) ↦ cc (rw (p, p2, p3) at q)
          | inl (hash, p3) ↦
              let made =
                create_and_persist-Issued (after_call w random_serial) c
                  (record (certificate_template (after_call w random_serial) c serial) {
                    subject_key_id = hash;
                  })
                  issuer.0 key issuer.1 sound (rw (p, p2, p3) at q) in
              rw (p, p2, p3)
                (record {
                  der = made.der;
                  decodes = made.decodes;
                  set = made.set;
                  addresses = made.addresses ∙ ip_texts_canonical w.lib c.ip_addresses canonical;
                  same = made.same;
                  lib = made.lib;
                })
        ]
      ]
    ]

-- A certificate with the key and the certificate that were made is settled.
made-IsSettled :
    (w : World) (c : Certificate) (key : String) (s t : With Certificate)
    → validate_certificate w.lib c ≡ none
    → Keyed w c key s
    → Issued s.0 s.1 s.1.ip_addresses t
    → IsSettled w.lib t.1
unfolding validate_certificate ip_addresses_up_to_date
made-IsSettled w c key s t valid keyed made =
    subst (IsSettled w.lib)
      (sym (
        made.same
        ∙ ap (λ (x : Certificate). record x { x509_certificate = t.1.x509_certificate })
            keyed.same))
      (record {
        key = key;
        der = made.der;
        valid = valid;
        key_set = keyed.set;
        key_decodes = keyed.decodes;
        certificate_set = made.set;
        certificate_decodes =
            subst (λ l. decode_x509_certificate l t.1.x509_certificate ≡ success made.der) keyed.lib
              made.decodes;
        same_ips = rw (← keyed.lib, made.addresses, keyed.same) (eq_refl _);
      })

ensure_unset :
    (ca : Option Certificate) (key : String) (s : With Certificate)
    → (s.1.x509_certificate == "") ≡ true
    → ensure_x509_certificate ca key s ≡ generate_x509_certificate ca key s
unfolding ensure_x509_certificate is_x509_certificate_up_to_date ◌>>=◌
ensure_unset ca key s unset = rw unset refl

generate_settles :
    (w : World) (c : Certificate) (ca : Option Certificate)
    → IsSound w.lib w.answer
    → IsCanonical w.lib c.ip_addresses
    → (c.x509_certificate == "") ≡ true
    → (generate ca (w, c)).0 ≡ ok tt
    → IsSettled w.lib (generate ca (w, c)).1.1 × ((generate ca (w, c)).1.0.lib ≡ w.lib)
unfolding generate ensure_x509_certificate is_x509_certificate_up_to_date ◌>>=◌
generate_settles w c ca sound canonical unset q =
    elim (Option-cases (validate_certificate w.lib c)) [
      | inr (e, p) ↦ cc (rw p at q)
      | inl valid ↦
          let (key, got, q') =
            bind_ok (ensure_x509_certificate ca) tt (wrap "getting private key" get_private_key)
              (w, c) (rw valid at q) in
          let got' = wrap_ok "getting private key" get_private_key (w, c) key got in
          let s : With Certificate = (get_private_key (w, c)).1 in
          let keyed : Keyed w c key s = get_private_key-Keyed w c key sound got' in
          let ips : s.1.ip_addresses ≡ c.ip_addresses =
            ap (λ (x : Certificate). x.ip_addresses) keyed.same in
          let same =
            ensure_unset ca key s
              (rw (ap (λ (x : Certificate). x.x509_certificate) keyed.same) unset) in
          let made =
            generate_x509_certificate-Issued s.0 s.1 ca key (rw (keyed.lib, keyed.answer) sound)
              (rw (keyed.lib, ips) canonical) (rw same at q') in
          rw (valid, got', same) (made-IsSettled w c key s _ valid keyed made, made.lib ∙ keyed.lib)
    ]

-- Where PEM can be read back, what crypto/rsa and crypto/x509 make can be parsed and has the
-- addresses that were asked for, and the configured addresses are spelled as net.IP prints them, a
-- certificate that had no X.509 certificate is settled once Generate succeeds, and Generate of the
-- result, with whatever CA, succeeds without a call and only sorts the configured addresses.
pub generate_again :
    (w : World) (c : Certificate) (ca ca' : Option Certificate)
    → IsSound w.lib w.answer
    → IsCanonical w.lib c.ip_addresses
    → (c.x509_certificate == "") ≡ true
    → (generate ca (w, c)).0 ≡ ok tt
    → IsSettled w.lib (generate ca (w, c)).1.1
      × (generate ca' (generate ca (w, c)).1 ≡ (
        ok tt,
        (
          (generate ca (w, c)).1.0,
          record (generate ca (w, c)).1.1 {
            ip_addresses = sort_strings (generate ca (w, c)).1.1.ip_addresses;
          },
        ),
      ))
generate_again w c ca ca' sound canonical unset q =
    let (settled, lib) = generate_settles w c ca sound canonical unset q in
    let s = (generate ca (w, c)).1 in
    (settled, generate_settled ca' s.0 s.1 (subst (λ l. IsSettled l s.1) (sym lib) settled))
