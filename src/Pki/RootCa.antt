-- ===== src/Pki/RootCa.antt =====
-- The whole PKI: its root CA, and the parts that are configured (PKI.Generate in pkg/pki/pki.go).
use libflexkube.Base.{Option, none, some, [], ◌∷◌}
use libflexkube.Base.Exec.{Action, pure, wrap, zoom, ◌>>=◌, ◌>>◌}
use libflexkube.Pki.{Pki, EtcdPki, KubernetesPki}
use libflexkube.Pki.Generate.{With, self, update}
use libflexkube.Pki.Requests.{
  Place, CertificateRequest, ca_certificate, fixed, initialized, build_and_generate,
}
use libflexkube.Pki.EtcdCertificates.{generate_etcd}
use libflexkube.Pki.KubernetesCertificates.{generate_kubernetes}

abbrev pub root_ca_place : Place Pki
root_ca_place = record { read = λ p. p.root_ca; write = λ p c. record p { root_ca = some c } }

abbrev pub root_ca_request : CertificateRequest Pki
root_ca_request = record {
  target = root_ca_place;
  ca = λ p. none;
  certificates =
      (λ p. some p.certificate) ∷ fixed (ca_certificate "root-ca") ∷ root_ca_place.read ∷ [];
}

-- PKI.generateRootCA
unfoldable pub generate_root_ca : Action (With Pki)
generate_root_ca = do
  update (initialized root_ca_place)
  wrap "generating root CA certificate" (build_and_generate (root_ca_request ∷ []))

-- A call on a part of the PKI, the object behind a pointer.
unfoldable pub on_part : {S : Type 0} → S → (Pki → S → Pki) → Action (With S) → Action (With Pki)
on_part part put m = zoom (λ s. (s.0, part)) (λ s t. (t.0, put s.1 t.1)) m

-- The etcd part of PKI.Generate, if there is one.
unfoldable pub generate_etcd_part : Option EtcdPki → Pki → Action (With Pki)
generate_etcd_part none p = pure tt
generate_etcd_part (some e) p =
    wrap "generating etcd PKI"
      (on_part e (λ p e. record p { etcd = some e }) (generate_etcd p.root_ca p.certificate))

unfoldable pub generate_kubernetes_part : Option KubernetesPki → Pki → Action (With Pki)
generate_kubernetes_part none p = pure tt
generate_kubernetes_part (some k) p = wrap "generating Kubernetes PKI" (
    on_part k (λ p k. record p { kubernetes = some k })
      (generate_kubernetes p.root_ca p.certificate))

-- PKI.Generate
unfoldable pub generate_pki : Action (With Pki)
generate_pki = do
  wrap "generating root CA certificate" generate_root_ca
  p ← self
  generate_etcd_part p.etcd p
  p ← self
  generate_kubernetes_part p.kubernetes p
