-- ===== src/Examples/Certificates.antt =====
-- The certificates of small clusters, for pkg/pki.
use libflexkube.Base.{
  String, Bool, true, false, Bool-cases, inl, inr, none, some, List, [], ◌∷◌, append, ◌==◌, ◌≡◌,
  refl, arith, sym, eq_iff,
}
use libflexkube.Base.Fault.{Result, success, failure, external, success-injective}
use libflexkube.Base.Exec.{ok, zoom, ◌>>=◌}
use libflexkube.World.{World, Call, Reply, generate_key, create_certificate, perform}
use libflexkube.Examples.Inputs.{world, library, reply}
use libflexkube.Examples.Opened.{open_util, open_kubeconfig, open_pki, open_resources}
use libflexkube.Pki.{Certificate, EtcdPki, KubernetesPki, Pki}
use libflexkube.Pki.Merge.{empty_certificate, default_certificate, build_certificate}
use libflexkube.Pki.Usage.{ca_usage, client_usage}
use libflexkube.Pki.Generate.{generate}
use libflexkube.Pki.EtcdCertificates.{
  peer_shelf, client_shelf, collected, existing_request, etcd_ca_request,
}
use libflexkube.Pki.Settled.{IsSettled, IsServed}
use libflexkube.Pki.Settled.EtcdParts.{place_of-IsPlace, IsSettledEtcd}
use libflexkube.Pki.Settled.Parts.{generate_pki_settled}
use libflexkube.Pki.KeptParts.{HoldsKey, generate_pki-HoldsKey}
use libflexkube.Pki.EtcdCertificates.Coverage.{collected_coverage}
use libflexkube.Pki.Merge.Reference.{build_certificate-eq-first_set}
use libflexkube.Pki.Fresh.{IsSound, generate_again}
use libflexkube.Base.Map.{lookup, has}
use libflexkube.Base.Exec.Keeps.{Keeps}
use mathlib.Core.Path.{subst}
use libflexkube.Pki.RootCa.{root_ca_place, root_ca_request, generate_pki}

abbrev empty_kubernetes : KubernetesPki
empty_kubernetes = record {
  certificate = empty_certificate;
  ca = none;
  front_proxy_ca = none;
  kube_api_server = none;
  admin_certificate = none;
  kube_controller_manager_certificate = none;
  kube_scheduler_certificate = none;
  service_account_certificate = none;
}

abbrev new_pki : Pki
new_pki = record {
  certificate = empty_certificate;
  root_ca = none;
  etcd = some (record {
    certificate = empty_certificate;
    ca = none;
    peers = [];
    servers = none;
    client_cns = "root" ∷ [];
    peer_certificates = [];
    server_certificates = [];
    client_certificates = [];
  });
  kubernetes = some empty_kubernetes;
}

new_pki_generated : (generate_pki (world, new_pki)).0 ≡ ok tt
unfolding open_util open_kubeconfig open_resources open_pki ◌>>=◌ perform zoom reply
new_pki_generated = refl

-- What the first run leaves in each place.
abbrev made : String → Certificate
made cn = record empty_certificate {
  x509_certificate = append cn "'s certificate";
  private_key = "key";
  public_key = "public key";
}

abbrev made_etcd : EtcdPki
made_etcd = record {
  certificate = empty_certificate;
  ca = some (made "etcd-ca");
  peers = [];
  servers = none;
  client_cns = "root" ∷ [];
  peer_certificates = [];
  server_certificates = [];
  client_certificates = ("root", some (made "root")) ∷ [];
}

abbrev made_pki : Pki
made_pki = record new_pki {
  root_ca = some (made "root-ca");
  etcd = some made_etcd;
  kubernetes = none;
}

-- The run without the Kubernetes part ends with that.
made_pki_lem : (generate_pki (world, record new_pki { kubernetes = none })).1.1 ≡ made_pki
unfolding open_util open_kubeconfig open_resources open_pki ◌>>=◌ perform zoom reply
made_pki_lem = refl

-- The merged configuration of a certificate.
abbrev merged : String → Bool → List String → Certificate
merged cn ca usage = record default_certificate {
  common_name = cn;
  ca = ca;
  key_usage = usage;
  x509_certificate = append cn "'s certificate";
  private_key = "key";
  public_key = "public key";
}

root_served : IsServed library made_pki root_ca_request
unfolding open_util open_kubeconfig open_resources open_pki
root_served = record {
  cert = merged "root-ca" true ca_usage;
  holder = made "root-ca";
  built = refl;
  settled = record {
    key = "key";
    der = "root-ca's certificate";
    valid = refl;
    key_set = refl;
    key_decodes = refl;
    certificate_set = refl;
    certificate_decodes = refl;
    same_ips = refl;
  };
  held = refl;
  results = refl;
  place = λ s c h. ground arith;
}

etcd_ca_served :
    IsServed library made_etcd (etcd_ca_request (some (made "root-ca")) empty_certificate)
unfolding open_util open_kubeconfig open_resources open_pki
etcd_ca_served = record {
  cert = merged "etcd-ca" true ca_usage;
  holder = made "etcd-ca";
  built = refl;
  settled = record {
    key = "key";
    der = "etcd-ca's certificate";
    valid = refl;
    key_set = refl;
    key_decodes = refl;
    certificate_set = refl;
    certificate_decodes = refl;
    same_ips = refl;
  };
  held = refl;
  results = refl;
  place = λ s c h. ground arith;
}

client_served :
    IsServed library made_etcd
      (existing_request empty_certificate client_shelf false (("root", "") ∷ []) "root")
unfolding open_util open_kubeconfig open_resources open_pki
client_served = record {
  cert = merged "root" false client_usage;
  holder = made "root";
  built = refl;
  settled = record {
    key = "key";
    der = "root's certificate";
    valid = refl;
    key_set = refl;
    key_decodes = refl;
    certificate_set = refl;
    certificate_decodes = refl;
    same_ips = refl;
  };
  held = refl;
  results = refl;
  place = place_of-IsPlace client_shelf "root" (λ e. refl);
}

made_etcd_settled : IsSettledEtcd library (some (made "root-ca")) empty_certificate made_etcd
unfolding open_util open_pki
made_etcd_settled = record {
  ca = etcd_ca_served;
  peers = record { named = λ n h. h; entries = λ n h. cc };
  servers = record { named = λ n h. h; entries = λ n h. cc };
  clients = record {
    named = λ n h. ground (arith, h);
    entries = λ n h.
        subst
          (λ m.
            IsServed library made_etcd
              (existing_request empty_certificate client_shelf false (("root", "") ∷ []) m))
          (ground (arith, h, eq_iff "root" n)) client_served;
  };
}

generate_pki_settled_example : generate_pki (world, made_pki) ≡ (ok tt, (world, made_pki))
generate_pki_settled_example = generate_pki_settled world made_pki (record {
  root = root_served;
  etcd = λ e h.
      subst (IsSettledEtcd library (some (made "root-ca")) empty_certificate) (ground (arith, h))
        made_etcd_settled;
  kubernetes = λ k h. cc;
})

generate_pki-HoldsKey_example : Keeps (HoldsKey root_ca_place "key") generate_pki
generate_pki-HoldsKey_example = generate_pki-HoldsKey "key" refl

collected_coverage_example :
    (has (collected empty_certificate peer_shelf true (("a", "10.0.0.1") ∷ []) made_etcd).0 "a"
      ≡ true)
    × (has
          (collected empty_certificate peer_shelf true
            (("a", "10.0.0.1") ∷ [])
            made_etcd).1.peer_certificates
          "a"
        ≡ true)
unfolding lookup
collected_coverage_example =
    collected_coverage empty_certificate peer_shelf true (λ e m. refl) (("a", "10.0.0.1") ∷ [])
      made_etcd "a"

build_certificate-eq-first_set_example :
    build_certificate library (some (made "a") ∷ none ∷ some (made "b") ∷ [])
    ≡ success (record default_certificate {
      x509_certificate = "b's certificate";
      public_key = "public key";
      private_key = "key";
    })
unfolding open_util open_kubeconfig open_pki
build_certificate-eq-first_set_example =
    build_certificate-eq-first_set library (some (made "a") ∷ none ∷ some (made "b") ∷ [])

-- An authority that issues certificates without addresses only.
issue : List String → Result String
issue [] = success "certificate"
issue (i ∷ ips) = failure (external "refused")

answered : List Call → (c : Call) → Result (Reply c)
unfolding issue reply
answered h (create_certificate t i k s) = issue t.ip_addresses
answered h (generate_key bits) = success "key"
answered h c = reply h c

encoded :
    (header bytes text : String)
    → library.pem_encode header bytes ≡ success text
    → ((bytes == "") ≡ false) × (text ≡ bytes)
encoded header bytes text h = elim (Bool-cases (bytes == "")) [
  | inl empty ↦ cc (rw empty at h)
  | inr set ↦ (set, sym (success-injective bytes text (rw set at h)))
]

issued :
    (ips : List String) (der : String)
    → issue ips ≡ success der
    → ("certificate" ≡ der) × (◌≡◌ {A = List String} [] ips)
unfolding issue
issued [] der h = (success-injective "certificate" der h, refl)
issued (i ∷ ips) der h = cc

answered-IsSound : IsSound library answered
unfolding answered
answered-IsSound = record {
  pem_decodes =
      λ header bytes text h. let (set, same) = encoded header bytes text h in rw (same, set) refl;
  pem_set = λ header bytes text h. let (set, same) = encoded header bytes text h in rw same set;
  keys = λ h bits key e. refl;
  certificates = λ h t i k s der e. refl;
  addresses = λ h t i k s der e.
      let (same, none_asked) = issued t.ip_addresses der e in rw (← same, ← none_asked) refl;
}

abbrev fresh_world : World
unfolding answered
fresh_world = record world { answer = answered }

abbrev after_first : World × Certificate
unfolding answered
after_first = (generate none (fresh_world, default_certificate)).1

generate_again_example :
    IsSettled library after_first.1 × (generate none after_first ≡ (ok tt, after_first))
unfolding open_util open_kubeconfig open_resources open_pki answered ◌>>=◌ perform zoom reply
generate_again_example =
    generate_again fresh_world default_certificate none none answered-IsSound tt refl refl
