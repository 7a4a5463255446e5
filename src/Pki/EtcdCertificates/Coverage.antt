-- ===== src/Pki/EtcdCertificates/Coverage.antt =====
-- Which certificates crsFromMap of pkg/pki/etcd.go asks for.
use libflexkube.Base.{
  String, Bool, true, false, Option, some, List, [], ◌∷◌, ◌||◌, ◌==◌, ◌≡◌, refl, ap, arith,
  if◌then◌else◌, eq_iff,
}
use libflexkube.Base.Map.{Map, contains, lookup, insert, keys, has, has-insert, has-keys}
use libflexkube.Pki.{Certificate, EtcdPki}
use libflexkube.Pki.Merge.{empty_certificate}
use libflexkube.Pki.Requests.{CertificateRequest}
use libflexkube.Pki.EtcdCertificates.{
  Shelf, existing_request, new_request, requests_for, ensured, add_requests, collected,
}

-- What is written to a shelf is on it.
abbrev pub IsShelf : Shelf → Type 0
IsShelf shelf = (e : EtcdPki) (m : Map (Option Certificate)) → shelf.certs (shelf.put e m) ≡ m

module _ (default : Certificate) (shelf : Shelf) (server : Bool) where
  pub has-requests_for :
      (cn_ips : Map String) (names : List String) (crs : Map (CertificateRequest EtcdPki))
      (n : String)
      → has (requests_for default shelf server cn_ips names crs) n ≡ (contains names n || has crs n)
  unfolding requests_for contains
  has-requests_for cn_ips [] crs n = refl
  has-requests_for cn_ips (name ∷ names) crs n = ground (
    arith,
    has-requests_for cn_ips names
        (insert crs name (existing_request default shelf server cn_ips name)) n,
    has-insert crs name n (existing_request default shelf server cn_ips name),
  )

  module _ (is_shelf : IsShelf shelf) where
    -- The names that are requested are those that have a certificate.
    Covers : Map (CertificateRequest EtcdPki) → EtcdPki → Type 0
    Covers crs e = (n : String) → has crs n ≡ has (shelf.certs e) n

    Covers-step :
        (name ip : String) (crs : Map (CertificateRequest EtcdPki)) (e : EtcdPki)
        → Covers crs e
        → has crs name ≡ false
        → Covers (insert crs name (new_request default shelf server name ip)) (ensured shelf name e)
    unfolding Covers
    Covers-step name ip crs e h new n =
        rw (← h name, new, is_shelf e (insert (shelf.certs e) name (some empty_certificate))) ground
          (
            arith,
            has-insert crs name n (new_request default shelf server name ip),
            has-insert (shelf.certs e) name n (some empty_certificate),
            h n,
          )

    -- One step of the loop keeps that, and adds the name.
    Covers-if :
        (b : Bool) (name ip : String) (crs : Map (CertificateRequest EtcdPki)) (e : EtcdPki)
        → has crs name ≡ b
        → Covers crs e
        → Covers
            (if b then crs else insert crs name (new_request default shelf server name ip))
            (if b then e else ensured shelf name e)
          × ((n : String)
              → has
                  (if b then crs else insert crs name (new_request default shelf server name ip))
                  n
                ≡ ((name == n) || has crs n))
    Covers-if true name ip crs e found h =
        (h, λ n. ground (arith, eq_iff name n, ap (λ k. has crs k)))
    Covers-if false name ip crs e new h = (
      Covers-step name ip crs e h new,
      λ n. has-insert crs name n (new_request default shelf server name ip),
    )

    add_requests-Covers :
        (cn_ips : Map String) (crs : Map (CertificateRequest EtcdPki)) (e : EtcdPki)
        → Covers crs e
        → Covers
            (add_requests default shelf server cn_ips crs e).0
            (add_requests default shelf server cn_ips crs e).1
          × ((n : String)
              → has (add_requests default shelf server cn_ips crs e).0 n
                ≡ (has cn_ips n || has crs n))
    unfolding add_requests lookup
    add_requests-Covers [] crs e h = (h, λ n. refl)
    add_requests-Covers ((name, ip) ∷ cn_ips) crs e h =
        let step = Covers-if (has crs name) name ip crs e refl h in
        let rest = add_requests-Covers cn_ips _ _ step.0 in
        (rest.0, λ n. ground (arith, rest.1 n, step.1 n))

    -- The requests of crsFromMap are for exactly the names that have a certificate or an address,
    -- and afterwards exactly these have an entry among the certificates, on any shelf whose entries
    -- can be read back.
    pub collected_coverage :
        (cn_ips : Map String) (e : EtcdPki) (n : String)
        → (has (collected default shelf server cn_ips e).0 n
            ≡ (has cn_ips n || has (shelf.certs e) n))
          × (has (shelf.certs (collected default shelf server cn_ips e).1) n
              ≡ (has cn_ips n || has (shelf.certs e) n))
    unfolding collected Covers lookup
    collected_coverage cn_ips e n =
        let all =
          add_requests-Covers cn_ips
            (requests_for default shelf server cn_ips (keys (shelf.certs e)) []) e
            (λ k. ground (
              arith,
              has-requests_for cn_ips (keys (shelf.certs e)) [] k,
              has-keys (shelf.certs e) k,
            )) in
        ground (
          arith,
          all.0 n,
          all.1 n,
          has-requests_for cn_ips (keys (shelf.certs e)) [] n,
          has-keys (shelf.certs e) n,
        )
