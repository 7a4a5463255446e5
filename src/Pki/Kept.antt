-- ===== src/Pki/Kept.antt =====
-- Private keys that Certificate.Generate, buildAndGenerate and PKI.Generate of pkg/pki/pki.go keep.
use libflexkube.Base.{
  String, false, not, Option, Option-cases, none, some, inl, inr, List, [], ◌∷◌, ◌++◌, ◌==◌, ◌≡◌,
  refl, sym, ap, ◌∙◌,
}
use mathlib.Core.Path.{subst}
use libflexkube.Base.Fault.{Error, success, success-injective}
use libflexkube.Base.Exec.{Exec, pure, zoom, ◌>>=◌}
use libflexkube.Base.Exec.Keeps.{
  Keeps, Keeps-pure, Keeps-gets, Keeps-lift, Keeps-wrap, Keeps-if, Keeps-bind, Keeps-modify,
  Keeps-fail,
}
use libflexkube.Util.{pick_string}
use libflexkube.World.{World, Library, Template, Issuer}
use libflexkube.Pki.{Certificate}
use libflexkube.Pki.Merge.{build_certificate, default_certificate}
use libflexkube.Pki.Merge.Reference.{backwards, first_error, build_certificate-eq-first_set}
use libflexkube.Pki.Generate.{
  With, on_world, update, check, get_private_key, is_x509_certificate_up_to_date,
  persist_x509_certificate, create_and_persist, generate_x509_certificate, ensure_x509_certificate,
  generate,
}

-- The certificate has this key.
abbrev pub HasKey : String → With Certificate → Type 0
HasKey k s = s.1.private_key ≡ k

Keeps-on_world :
    {A : Type 0} (k : String) (m : Exec World A) → Keeps (HasKey k) (on_world {S = Certificate} m)
unfolding zoom
Keeps-on_world k m = record { at = λ s h. h }

Keeps-check : (k : String) (o : Option Error) → Keeps (HasKey k) (check {S = With Certificate} o)
Keeps-check k none = Keeps-pure tt
Keeps-check k (some e) = Keeps-fail e

Keeps-update :
    (k : String) (f : Certificate → Certificate)
    → ((c : Certificate) → (f c).private_key ≡ c.private_key)
    → Keeps (HasKey k) (update f)
Keeps-update k f same = Keeps-modify _ (λ s h. same s.1 ∙ h)

get_private_key-Keeps : (k : String) → (k == "") ≡ false → Keeps (HasKey k) get_private_key
unfolding get_private_key ◌>>=◌
get_private_key-Keeps k set = record {
  at = λ s h. subst (HasKey k) (sym (unchanged s (rw h set))) h;
}
  where
    unchanged : (s : With Certificate) → (s.1.private_key == "") ≡ false → (get_private_key s).1 ≡ s
    unchanged s set = rw set refl

create_and_persist-Keeps :
    (k : String) (t : Template) (i : Issuer) (key signer : String)
    → Keeps (HasKey k) (create_and_persist t i key signer)
unfolding create_and_persist persist_x509_certificate
create_and_persist-Keeps k t i key signer =
    Keeps-bind _ _ (Keeps-wrap _ _ (Keeps-on_world k _)) λ der.
      Keeps-bind _ _ (Keeps-gets _)
        λ lib. Keeps-bind _ _ (Keeps-wrap _ _ (Keeps-lift _)) λ text. Keeps-update k _ (λ c. refl)

generate_x509_certificate-Keeps :
    (k : String) (ca : Option Certificate) (key : String)
    → Keeps (HasKey k) (generate_x509_certificate ca key)
unfolding generate_x509_certificate
generate_x509_certificate-Keeps k ca key = Keeps-bind _ _ (Keeps-gets _) λ lib.
    Keeps-bind _ _ (Keeps-gets _) λ c.
      Keeps-bind _ _ (Keeps-wrap _ _ (Keeps-on_world k _)) λ serial.
        Keeps-bind _ _ (Keeps-gets _) λ cert. Keeps-bind _ _ (Keeps-lift _) λ issuer.
          Keeps-bind _ _ (Keeps-wrap _ _ (Keeps-lift _)) λ hash. create_and_persist-Keeps k _ _ _ _

is_x509_certificate_up_to_date-Keeps :
    (k : String) → Keeps (HasKey k) is_x509_certificate_up_to_date
unfolding is_x509_certificate_up_to_date ◌>>=◌
is_x509_certificate_up_to_date-Keeps k =
    search (Keeps-pure, Keeps-gets, Keeps-lift, Keeps-wrap, Keeps-if, Keeps-bind, Keeps-modify)

pub generate-Keeps :
    (k : String) (ca : Option Certificate) → (k == "") ≡ false → Keeps (HasKey k) (generate ca)
unfolding generate ensure_x509_certificate
generate-Keeps k ca set = Keeps-bind _ _ (Keeps-gets _) λ lib. Keeps-bind _ _ (Keeps-gets _) λ c.
    Keeps-bind _ _ (Keeps-wrap _ _ (Keeps-check k _)) λ u.
      Keeps-bind _ _ (Keeps-wrap _ _ (get_private_key-Keeps k set)) λ key.
        Keeps-bind _ _ (Keeps-wrap _ _ (is_x509_certificate_up_to_date-Keeps k)) λ up.
          Keeps-if (not up) (generate_x509_certificate ca key) (pure tt)
            (λ old. generate_x509_certificate-Keeps k ca key) (λ new. Keeps-pure tt)

backwards-append :
    (acc : List Certificate) (front : List (Option Certificate)) (c : Certificate)
    → (rest : List Certificate) × (backwards acc (front ++ some c ∷ []) ≡ c ∷ rest)
backwards-append acc [] c = (acc, refl)
backwards-append acc (none ∷ front) c = backwards-append acc front c
backwards-append acc (some d ∷ front) c = backwards-append (d ∷ acc) front c

-- The key of the merged configuration is that of the last certificate, if it has one.
pub private_key-build_certificate :
    (lib : Library) (front : List (Option Certificate)) (c cert : Certificate)
    → (c.private_key == "") ≡ false
    → build_certificate lib (front ++ some c ∷ []) ≡ success cert
    → cert.private_key ≡ c.private_key
unfolding pick_string
private_key-build_certificate lib front c cert set q = elim (Option-cases (first_error lib certs)) [
  | inr (e, p) ↦ cc (rw p at (sym q ∙ build_certificate-eq-first_set lib certs))
  | inl p ↦
      let (rest, r) = backwards-append (default_certificate ∷ []) front c in
      let built =
        success-injective cert _
          (rw (p, r) at (sym q ∙ build_certificate-eq-first_set lib certs)) in
      ap (λ (x : Certificate). x.private_key) built ∙ rw set refl
]
  where
    certs : List (Option Certificate)
    certs = front ++ some c ∷ []
