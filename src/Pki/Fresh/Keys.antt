-- ===== src/Pki/Fresh/Keys.antt =====
-- The private key of a certificate that Certificate.Generate of pkg/pki/pki.go gets or makes.
use libflexkube.Base.{
  String, false, Bool-cases, none, some, List, ◌==◌, ◌≡◌, refl, arith, All, inl, inr,
}
use libflexkube.Base.Fault.{Result, Result-cases, success}
use libflexkube.Base.Exec.{ok, zoom, ◌>>=◌}
use mathlib.Core.Path.{subst}
use libflexkube.Base.Exec.Ensures.{ok-injective}
use libflexkube.Util.{ℤ}
use libflexkube.World.{
  World, Library, Call, Reply, Template, Issuer, generate_key, create_certificate, perform,
}
use libflexkube.Pki.{Certificate}
use libflexkube.Pki.Generate.{
  With, decode_private_key, persist_public_key, generate_private_key, get_private_key,
}

-- PEM is read back, no PEM text is empty, and what crypto/rsa and crypto/x509 make can be parsed and
-- has the addresses that were asked for.
pub record IsSound (lib : Library) (answer : List Call → (c : Call) → Result (Reply c))
    : Type 0 where
  pub pem_decodes :
      (header bytes text : String)
      → lib.pem_encode header bytes ≡ success text
      → lib.pem_decode text ≡ some bytes
  pub pem_set :
      (header bytes text : String)
      → lib.pem_encode header bytes ≡ success text
      → (text == "") ≡ false
  pub keys :
      (h : List Call) (bits : ℤ) (key : String)
      → answer h (generate_key bits) ≡ success key
      → lib.pkcs1_error key ≡ none
  pub certificates :
      (h : List Call) (t : Template) (i : Issuer) (k s der : String)
      → answer h (create_certificate t i k s) ≡ success der
      → lib.certificate_error der ≡ none
  pub addresses :
      (h : List Call) (t : Template) (i : Issuer) (k s der : String)
      → answer h (create_certificate t i k s) ≡ success der
      → lib.certificate_ips der ≡ t.ip_addresses

-- The configured addresses are spelled the way net.IP prints them.
abbrev pub IsCanonical : Library → List String → Type 0
IsCanonical lib ips = All (λ i. lib.parse_ip i ≡ some i) ips

-- The key is held and decodes to this, and the rest of the certificate and the world is as before.
pub record Keyed (w : World) (c : Certificate) (key : String) (s : With Certificate) : Type 0 where
  pub lib : s.0.lib ≡ w.lib
  pub answer : s.0.answer ≡ w.answer
  pub set : (s.1.private_key == "") ≡ false
  pub decodes : decode_private_key w.lib s.1.private_key ≡ success key
  pub same : s.1 ≡ record c { private_key = s.1.private_key; public_key = s.1.public_key }

decode_encoded :
    (w : World) (bits : ℤ) (header key text : String)
    → IsSound w.lib w.answer
    → w.answer w.history (generate_key bits) ≡ success key
    → w.lib.pem_encode header key ≡ success text
    → decode_private_key w.lib text ≡ success key
unfolding decode_private_key
decode_encoded w bits header key text sound made encoded =
    ground (arith, sound.pem_decodes header key text encoded, sound.keys w.history bits key made)

generate_private_key-Keyed :
    (w : World) (c : Certificate) (key : String)
    → IsSound w.lib w.answer
    → (generate_private_key (w, c)).0 ≡ ok key
    → Keyed w c key (generate_private_key (w, c)).1
unfolding generate_private_key persist_public_key ◌>>=◌ perform zoom
generate_private_key-Keyed w c key sound q =
    elim (Result-cases (w.answer w.history (generate_key c.rsa_bits))) [
      | inr (e, p) ↦ cc (rw p at q)
      | inl (k, p) ↦ elim (Result-cases (w.lib.pem_encode "RSA PRIVATE KEY" k)) [
        | inr (e, p2) ↦ cc (rw (p, p2) at q)
        | inl (text, p2) ↦ elim (Result-cases (w.lib.marshal_public_key k)) [
          | inr (e, p3) ↦ cc (rw (p, p2, p3) at q)
          | inl (bytes, p3) ↦ elim (Result-cases (w.lib.pem_encode "RSA PUBLIC KEY" bytes)) [
            | inr (e, p4) ↦ cc (rw (p, p2, p3, p4) at q)
            | inl (public, p4) ↦
                rw (p, p2, p3, p4)
                  (record {
                    lib = refl;
                    answer = refl;
                    set = sound.pem_set "RSA PRIVATE KEY" k text p2;
                    decodes =
                        subst (λ x. decode_private_key w.lib text ≡ success x)
                          (ok-injective k key (rw (p, p2, p3, p4) at q))
                          (decode_encoded w c.rsa_bits "RSA PRIVATE KEY" k text sound p p2);
                    same = refl;
                  })
          ]
        ]
      ]
    ]

-- A key that is held is used as it is.
pub get_private_key-Keyed :
    (w : World) (c : Certificate) (key : String)
    → IsSound w.lib w.answer
    → (get_private_key (w, c)).0 ≡ ok key
    → Keyed w c key (get_private_key (w, c)).1
unfolding get_private_key ◌>>=◌
get_private_key-Keyed w c key sound q = elim (Bool-cases (c.private_key == "")) [
  | inl unset ↦ rw unset (generate_private_key-Keyed w c key sound (rw unset at q))
  | inr set ↦ elim (Result-cases (decode_private_key w.lib c.private_key)) [
    | inr (e, p) ↦ cc (rw (set, p) at q)
    | inl (k, p) ↦ rw set (record {
      lib = refl;
      answer = refl;
      set = set;
      decodes = rw p (cc (rw (set, p) at q));
      same = refl;
    })
  ]
]
