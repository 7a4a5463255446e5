-- ===== src/Pki/KeptParts.antt =====
-- The private keys of a PKI that buildAndGenerate and PKI.Generate of pkg/pki/pki.go keep.
use libflexkube.Base.{
  String, false, Option, none, some, List, [], ◌∷◌, ◌++◌, ◌==◌, ◌≡◌, refl, ap, ◌∙◌, ◌⊎◌, inl, inr,
  map, All,
}
use libflexkube.Base.Fault.{Result, wrapf, success, failure}
use libflexkube.Base.Exec.{
  Action, Outcome, ok, err, panic, hang, of_result, wrap, map_err, continue, zoom, ◌>>=◌,
}
use libflexkube.Base.Exec.Keeps.{
  Keeps, Keeps-pure, Keeps-gets, Keeps-wrap, Keeps-bind, Keeps-modify,
}
use libflexkube.World.{World}
use libflexkube.Pki.{Certificate, EtcdPki, KubernetesPki, Pki}
use libflexkube.Pki.Merge.{build_certificate}
use libflexkube.Pki.Generate.{With, generate}
use libflexkube.Pki.Requests.{
  Place, CertificateRequest, ca_certificate, fixed, with_object, with_results, initialized,
  on_object, store_results, serve, build_and_generate,
}
use libflexkube.Pki.RootCa.{
  root_ca_place, generate_root_ca, on_part, generate_etcd_part, generate_kubernetes_part,
  generate_pki,
}
use libflexkube.Pki.Kept.{generate-Keeps, private_key-build_certificate}

module _ {S : Type 0} (place : Place S) (k : String) where
  -- The place holds a certificate with this key.
  abbrev pub HoldsKey : With S → Type 0
  HoldsKey s = (c : Certificate) × (place.read s.1 ≡ some c) × (c.private_key ≡ k)

  -- A request for the place itself, whose configuration ends with what the place holds.
  pub record IsOwn (r : CertificateRequest S) : Type 0 where
    pub front : List (S → Option Certificate)
    pub same : r.target ≡ place
    pub last : r.certificates ≡ front ++ place.read ∷ []

  -- A request that writes elsewhere.
  abbrev pub IsOther : CertificateRequest S → Type 0
  IsOther r = (s : S) (c : Certificate) → place.read (r.target.write s c) ≡ place.read s

  abbrev IsReadBack : Type 0
  IsReadBack = (s : S) (c : Certificate) → place.read (place.write s c) ≡ some c

  map-append_one :
      (front : List (S → Option Certificate)) (s : S)
      → map (λ read. read s) (front ++ place.read ∷ [])
        ≡ map (λ read. read s) front ++ place.read s ∷ []
  map-append_one [] s = refl
  map-append_one (f ∷ front) s = ap (λ l. f s ∷ l) (map-append_one front s)

  -- What is stored has the key of what was generated.
  store-HoldsKey :
      IsReadBack
      → (cert : Certificate) (holder : Option Certificate) (w : World) (s : S)
      → cert.private_key ≡ k
      → HoldsKey (w, s)
      → HoldsKey (store_results place cert holder (w, s)).1
  unfolding store_results ◌>>=◌
  store-HoldsKey back cert none w s key h = h
  store-HoldsKey back cert (some t) w s key h =
      (with_results t cert, back s (with_results t cert), key)

  after-HoldsKey :
      IsReadBack
      → (ca : Option Certificate) (built : Certificate) (w : World) (s : S) → (k == "") ≡ false
      → built.private_key ≡ k
      → HoldsKey (w, s)
      → HoldsKey
          ((wrap "generating the certificate" (on_object built (generate ca)) >>= λ cert.
              store_results place cert (place.read s))
            (w, s)).1
  unfolding ◌>>=◌ on_object
  after-HoldsKey back ca built w s set key h =
      go (generate ca (w, built)).0 (generate ca (w, built)).1
        ((generate-Keeps k ca set).at (w, built) key)
    where
      go :
          (r : Outcome (Unit {0})) (t : With Certificate)
          → t.1.private_key ≡ k
          → HoldsKey
              (continue
                (map_err (wrapf "generating the certificate") (with_object r t.1))
                (λ cert. store_results place cert (place.read s))
                (t.0, s)).1
      go (ok u) t key' = store-HoldsKey back t.1 (place.read s) t.0 s key' h
      go (err e) t key' = h
      go panic t key' = h
      go hang t key' = h

  serve_own-HoldsKey :
      IsReadBack
      → (k == "") ≡ false
      → (r : CertificateRequest S) (w : World) (s : S) → IsOwn r
      → HoldsKey (w, s)
      → HoldsKey (serve r (w, s)).1
  unfolding serve ◌>>=◌ on_object
  serve_own-HoldsKey back set r w s own h =
      rw (own.same, own.last)
        (go (build_certificate w.lib (map (λ read. read s) (own.front ++ place.read ∷ []))) key)
    where
      key :
          (built : Certificate)
          → build_certificate w.lib (map (λ read. read s) (own.front ++ place.read ∷ []))
            ≡ success built
          → built.private_key ≡ k
      key built p =
          private_key-build_certificate w.lib (map (λ read. read s) own.front) h.0 built
            (rw h.2 set) (rw (map-append_one own.front s, h.1) at p)
          ∙ h.2

      go :
          (result : Result Certificate)
          → ((built : Certificate) → result ≡ success built → built.private_key ≡ k)
          → HoldsKey
              (continue
                (map_err (wrapf "builing certificate configuration") (of_result result))
                (λ built.
                  wrap "generating the certificate" (on_object built (generate (r.ca s)))
                  >>= λ cert. store_results place cert (place.read s))
                (w, s)).1
      go (failure e) keyed = h
      go (success built) keyed = after-HoldsKey back (r.ca s) built w s set (keyed built refl) h

  serve_other-HoldsKey :
      (r : CertificateRequest S) (w : World) (s : S)
      → IsOther r
      → HoldsKey (w, s)
      → HoldsKey (serve r (w, s)).1
  unfolding serve ◌>>=◌ on_object store_results
  serve_other-HoldsKey r w s other h =
      go (build_certificate w.lib (map (λ read. read s) r.certificates))
    where
      stored :
          (cert : Certificate) (holder : Option Certificate) (w' : World)
          → HoldsKey (store_results r.target cert holder (w', s)).1
      stored cert none w' = h
      stored cert (some t) w' = (h.0, other s (with_results t cert) ∙ h.1, h.2)

      made :
          (o : Outcome (Unit {0})) (t : With Certificate)
          → HoldsKey
              (continue
                (map_err (wrapf "generating the certificate") (with_object o t.1))
                (λ cert. store_results r.target cert (r.target.read s))
                (t.0, s)).1
      made (ok u) t = stored t.1 (r.target.read s) t.0
      made (err e) t = h
      made panic t = h
      made hang t = h

      go :
          (result : Result Certificate)
          → HoldsKey
              (continue
                (map_err (wrapf "builing certificate configuration") (of_result result))
                (λ built.
                  wrap "generating the certificate" (on_object built (generate (r.ca s)))
                  >>= λ cert. store_results r.target cert (r.target.read s))
                (w, s)).1
      go (failure e) = h
      go (success built) = made (generate (r.ca s) (w, built)).0 (generate (r.ca s) (w, built)).1

  -- Requests for the place or for others, in any order.
  pub build_and_generate-HoldsKey :
      IsReadBack
      → (k == "") ≡ false
      → (requests : List (CertificateRequest S)) → All (λ r. IsOwn r ⊎ IsOther r) requests
      → Keeps HoldsKey (build_and_generate requests)
  unfolding build_and_generate
  build_and_generate-HoldsKey back set [] h = Keeps-pure tt
  build_and_generate-HoldsKey back set (r ∷ requests) h =
      Keeps-bind (serve r) (λ u. build_and_generate requests)
        (record { at = λ s held. served s held h.0 })
        (λ u. build_and_generate-HoldsKey back set requests h.1)
    where
      served : (s : With S) → HoldsKey s → (IsOwn r ⊎ IsOther r) → HoldsKey (serve r s).1
      served s held (inl own) = serve_own-HoldsKey back set r s.0 s.1 own held
      served s held (inr other) = serve_other-HoldsKey r s.0 s.1 other held

  initialized-HoldsKey : (w : World) (s : S) → HoldsKey (w, s) → HoldsKey (w, initialized place s)
  unfolding initialized
  initialized-HoldsKey w s h = rw (h.1, initialized) h

module _ (k : String) (set : (k == "") ≡ false) where
  generate_root_ca-HoldsKey : Keeps (HoldsKey root_ca_place k) generate_root_ca
  unfolding generate_root_ca
  generate_root_ca-HoldsKey =
      Keeps-bind _ _ (Keeps-modify _ (λ s h. initialized-HoldsKey root_ca_place k s.0 s.1 h)) λ u.
        Keeps-wrap _ _ (
          build_and_generate-HoldsKey root_ca_place k (λ s c. refl) set _
            (
              inl (record {
                front = (λ p. some p.certificate) ∷ fixed (ca_certificate "root-ca") ∷ [];
                same = refl;
                last = refl;
              }),
              tt,
            ))

  -- A call on a part leaves the root CA alone.
  on_part-Keeps :
      {S : Type 0} (part : S) (put : Pki → S → Pki) (m : Action (With S))
      → ((p : Pki) (t : S) → (put p t).root_ca ≡ p.root_ca)
      → Keeps (HoldsKey root_ca_place k) (on_part part put m)
  unfolding on_part zoom
  on_part-Keeps part put m same = record { at = λ s h. (h.0, same _ _ ∙ h.1, h.2) }

  etcd_part-HoldsKey :
      (o : Option EtcdPki) (p : Pki) → Keeps (HoldsKey root_ca_place k) (generate_etcd_part o p)
  unfolding generate_etcd_part
  etcd_part-HoldsKey none p = Keeps-pure tt
  etcd_part-HoldsKey (some e) p =
      Keeps-wrap _ _ (on_part-Keeps e (λ p e. record p { etcd = some e }) _ (λ p e. refl))

  kubernetes_part-HoldsKey :
      (o : Option KubernetesPki) (p : Pki)
      → Keeps (HoldsKey root_ca_place k) (generate_kubernetes_part o p)
  unfolding generate_kubernetes_part
  kubernetes_part-HoldsKey none p = Keeps-pure tt
  kubernetes_part-HoldsKey (some q) p =
      Keeps-wrap _ _ (on_part-Keeps q (λ p q. record p { kubernetes = some q }) _ (λ p q. refl))

  -- A private key of the root CA that is not empty is still there after Generate of the PKI,
  -- whatever its outcome and whatever the calls answer.
  pub generate_pki-HoldsKey : Keeps (HoldsKey root_ca_place k) generate_pki
  unfolding generate_pki
  generate_pki-HoldsKey = Keeps-bind _ _ (Keeps-wrap _ _ generate_root_ca-HoldsKey) λ u.
      Keeps-bind _ _ (Keeps-gets _) λ p.
        Keeps-bind _ _ (etcd_part-HoldsKey p.etcd p)
          λ v. Keeps-bind _ _ (Keeps-gets _) λ q. kubernetes_part-HoldsKey q.kubernetes q
