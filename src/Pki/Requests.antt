-- ===== src/Pki/Requests.antt =====
-- Requests for certificates (buildAndGenerate in pkg/pki/pki.go). A request holds pointers to
-- certificates inside a PKI; a pointer is a place of the PKI, which may hold nil, and it is followed
-- when the request is served. Distinct places are distinct objects, as YAML makes them.
use libflexkube.Base.{String, true, Option, none, some, List, [], ◌∷◌, map}
use libflexkube.Base.Fault.{errorf}
use libflexkube.Base.Exec.{
  Exec, Action, Outcome, ok, err, panic, hang, pure, fail, lift, wrap, ◌>>=◌, ◌>>◌,
}
use libflexkube.Pki.{Certificate}
use libflexkube.Pki.Usage.{ca_usage}
use libflexkube.Pki.Merge.{empty_certificate, build_certificate}
use libflexkube.Pki.Generate.{With, library, self, update, generate}

pub record Place (S : Type 0) : Type 0 where
  pub read : S → Option Certificate
  pub write : S → Certificate → S

-- certificateRequest; `certificates` are followed in order.
pub record CertificateRequest (S : Type 0) : Type 0 where
  pub target : Place S
  pub ca : S → Option Certificate
  pub certificates : List (S → Option Certificate)

-- caCertificate
abbrev pub ca_certificate : String → Certificate
ca_certificate cn = record empty_certificate { common_name = cn; ca = true; key_usage = ca_usage }

-- A value that is no part of the PKI.
abbrev pub fixed : {S : Type 0} → Certificate → S → Option Certificate
fixed c s = some c

-- The result of a call on an object of the caller's own, which the call has changed.
abbrev pub with_object : {A : Type 0} → Outcome (Unit {0}) → A → Outcome A
with_object (ok u) a = ok a
with_object (err e) a = err e
with_object panic a = panic
with_object hang a = hang

-- What buildAndGenerate copies to the target.
abbrev pub with_results : Certificate → Certificate → Certificate
with_results target cert = record target {
  x509_certificate = cert.x509_certificate;
  private_key = cert.private_key;
  public_key = cert.public_key;
}

module _ {S : Type 0} where
  unfoldable pub on_object : {A : Type 0} → A → Action (With A) → Exec (With S) A
  on_object a m s = let (r, (w, a')) = m (s.0, a) in (with_object r a', (w, s.1))

  -- if pointer == nil { pointer = &Certificate{} }
  unfoldable pub initialized : Place S → S → S
  initialized p s = elim (p.read s) [ none ↦ p.write s empty_certificate | some c ↦ s ]

  unfoldable pub store_results : Place S → Certificate → Option Certificate → Action (With S)
  store_results p cert none = fail (errorf "target certificate is not set")
  store_results p cert (some target) = update (λ s. p.write s (with_results target cert))

  -- The body of the loop
  unfoldable pub serve : CertificateRequest S → Action (With S)
  serve r = do
    lib ← library
    s ← self
    built ←
        wrap "builing certificate configuration"
          (lift (build_certificate lib (map (λ read. read s) r.certificates)))
    cert ← wrap "generating the certificate" (on_object built (generate (r.ca s)))
    store_results r.target cert (r.target.read s)

  -- buildAndGenerate
  unfoldable pub build_and_generate : List (CertificateRequest S) → Action (With S)
  build_and_generate [] = pure tt
  build_and_generate (r ∷ requests) = do serve r; build_and_generate requests
