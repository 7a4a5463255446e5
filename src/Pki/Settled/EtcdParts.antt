-- ===== src/Pki/Settled/EtcdParts.antt =====
-- An etcd PKI that Etcd.Generate of pkg/pki/etcd.go leaves as it is.
use libflexkube.Base.{
  String, Bool, true, false, Bool-cases, Option, none, some, List, [], ◌∷◌, ◌++◌, ◌==◌, ◌≡◌, refl,
  ap, arith, All, eq_refl, Option-cases, inl, inr, ◌∙◌,
}
use mathlib.Core.Path.{subst}
use libflexkube.Base.Map.{Map, contains, lookup, insert, keys, has, lookup-insert, has-keys}
use libflexkube.Base.Exec.{ok, ◌>>=◌}
use libflexkube.World.{World, Library}
use libflexkube.Pki.{Certificate, EtcdPki}
use libflexkube.Pki.Requests.{CertificateRequest}
use libflexkube.Pki.EtcdCertificates.{
  Shelf, certificate_at, place_of, peer_shelf, server_shelf, client_shelf, existing_request,
  requests_for, add_requests, collected, certificate_requests_from_map, crs_from_map,
  client_cns_map, servers_of, etcd_ca_request, generate_etcd,
}
use libflexkube.Pki.EtcdCertificates.Coverage.{has-requests_for}
use libflexkube.Pki.Settled.{IsPlace, IsServed, initialized_idle, build_and_generate_settled}

insert_same : {V : Type 0} (m : Map V) (k : String) (v : V) → lookup m k ≡ some v → insert m k v ≡ m
unfolding insert lookup
insert_same [] k v h = cc
insert_same ((j, w) ∷ m) k v h = ground (arith, insert_same m k v)

lookup_of_certificate_at :
    (m : Map (Option Certificate)) (n : String) (c : Certificate)
    → certificate_at m n ≡ some c
    → lookup m n ≡ some (some c)
unfolding certificate_at
lookup_of_certificate_at m n c h = elim (Option-cases (lookup m n)) [
  | inl missing ↦ cc (rw (missing, certificate_at) at h)
  | inr (o, found) ↦
      found ∙ ap (λ (x : Option Certificate). some x) (rw (found, certificate_at) at h)
]

-- An entry of a shelf is a place.
pub place_of-IsPlace :
    (shelf : Shelf) (n : String)
    → ((e : EtcdPki) → shelf.put e (shelf.certs e) ≡ e)
    → IsPlace (place_of shelf n)
place_of-IsPlace shelf n same e c h =
    ap (shelf.put e)
      (insert_same (shelf.certs e) n (some c) (lookup_of_certificate_at (shelf.certs e) n c h))
    ∙ same e

All-found :
    {A : Type 0} {P : A → Type 0} (rest : List A) (found : Option A)
    → ((a : A) → found ≡ some a → P a)
    → All P rest
    → All P (elim found [ none ↦ rest | some a ↦ a ∷ rest ])
All-found rest none p all = all
All-found rest (some a) p all = (p a refl, all)

All-append : {A : Type 0} (P : A → Type 0) (xs ys : List A) → All P xs → All P ys → All P (xs ++ ys)
All-append P [] ys p q = q
All-append P (x ∷ xs) ys p q = (p.0, All-append P xs ys p.1 q)

-- Every name has a certificate, and each certificate is settled.
pub record IsSettledShelf (lib : Library) (default : Certificate) (shelf : Shelf) (server : Bool)
    (cn_ips : Map String) (e : EtcdPki) : Type 0 where
  pub named : (n : String) → has cn_ips n ≡ true → has (shelf.certs e) n ≡ true
  pub entries :
      (n : String)
      → has (shelf.certs e) n ≡ true
      → IsServed lib e (existing_request default shelf server cn_ips n)

module _ (w : World) (default : Certificate) (shelf : Shelf) (server : Bool) (cn_ips : Map String)
    (e : EtcdPki) (h : IsSettledShelf w.lib default shelf server cn_ips e) where
  AllServed : Map (CertificateRequest EtcdPki) → Type 0
  AllServed crs =
      (n : String) (r : CertificateRequest EtcdPki) → lookup crs n ≡ some r → IsServed w.lib e r

  AllServed-insert :
      (name : String) (crs : Map (CertificateRequest EtcdPki))
      → has (shelf.certs e) name ≡ true
      → AllServed crs
      → AllServed (insert crs name (existing_request default shelf server cn_ips name))
  unfolding AllServed
  AllServed-insert name crs found served n r q = elim (Bool-cases (name == n)) [
    | inl same ↦
        subst (IsServed w.lib e)
          (cc (
            rw same at
              (lookup-insert crs name n (existing_request default shelf server cn_ips name))))
          (h.entries name found)
    | inr other ↦ served n r (
        cc (
          rw other at
            (lookup-insert crs name n (existing_request default shelf server cn_ips name))))
  ]

  AllServed-requests_for :
      (names : List String) (crs : Map (CertificateRequest EtcdPki))
      → ((n : String) → contains names n ≡ true → has (shelf.certs e) n ≡ true)
      → AllServed crs
      → AllServed (requests_for default shelf server cn_ips names crs)
  unfolding requests_for contains
  AllServed-requests_for [] crs k served = served
  AllServed-requests_for (name ∷ names) crs k served =
      AllServed-requests_for names _ (λ n q. k n (ground (arith, q)))
        (AllServed-insert name crs (k name (ground (arith, eq_refl name))) served)

  add_requests_idle :
      (ips : Map String) (crs : Map (CertificateRequest EtcdPki))
      → ((n : String) → has ips n ≡ true → has crs n ≡ true)
      → add_requests default shelf server ips crs e ≡ (crs, e)
  unfolding add_requests lookup
  add_requests_idle [] crs k = refl
  add_requests_idle ((name, ip) ∷ ips) crs k = ground (
    arith,
    k name (ground (arith, eq_refl name)),
    add_requests_idle ips crs (λ n q. k n (ground (arith, q))),
  )

  All-certificate_requests_from_map :
      (crs : Map (CertificateRequest EtcdPki)) (names : List String)
      → AllServed crs
      → All (IsServed w.lib e) (certificate_requests_from_map crs names)
  unfolding certificate_requests_from_map AllServed
  All-certificate_requests_from_map crs [] served = tt
  All-certificate_requests_from_map crs (name ∷ names) served =
      All-found _ (lookup crs name) (served name)
        (All-certificate_requests_from_map crs names served)

  started : Map (CertificateRequest EtcdPki)
  started = requests_for default shelf server cn_ips (keys (shelf.certs e)) []

  collected_idle : collected default shelf server cn_ips e ≡ (started, e)
  unfolding collected started
  collected_idle = add_requests_idle cn_ips started (λ n q. ground (
    arith,
    has-requests_for default shelf server cn_ips (keys (shelf.certs e)) [] n,
    has-keys (shelf.certs e) n,
    h.named n q,
  ))

  -- No certificate is added, and every request is for one that is settled.
  pub crs_from_map_idle :
      (rs : List (CertificateRequest EtcdPki)) × (crs_from_map default shelf server cn_ips (w, e)
        ≡ (ok rs, (w, e)))
      × All (IsServed w.lib e) rs
  unfolding crs_from_map ◌>>=◌ started lookup AllServed
  crs_from_map_idle = (
    certificate_requests_from_map started (w.range_order w.history (keys started)),
    rw collected_idle refl,
    All-certificate_requests_from_map started _ (
        AllServed-requests_for (keys (shelf.certs e)) []
          (λ n q. ground (arith, has-keys (shelf.certs e) n)) (λ n r q. cc)),
  )

-- The CA is settled, and so is every certificate of the peers, the servers and the clients.
pub record IsSettledEtcd (lib : Library) (root_ca : Option Certificate) (default : Certificate)
    (e : EtcdPki) : Type 0 where
  pub ca : IsServed lib e (etcd_ca_request root_ca default)
  pub peers : IsSettledShelf lib default peer_shelf true e.peers e
  pub servers : IsSettledShelf lib default server_shelf true (servers_of e) e
  pub clients : IsSettledShelf lib default client_shelf false (client_cns_map e.client_cns []) e

-- placeholder
pub generate_etcd_settled :
    (w : World) (root_ca : Option Certificate) (default : Certificate) (e : EtcdPki)
    → IsSettledEtcd w.lib root_ca default e
    → generate_etcd root_ca default (w, e) ≡ (ok tt, (w, e))
unfolding generate_etcd ◌>>=◌
generate_etcd_settled w root_ca default e h =
    let peers = crs_from_map_idle w default peer_shelf true e.peers e h.peers in
    let servers = crs_from_map_idle w default server_shelf true (servers_of e) e h.servers in
    let clients =
      crs_from_map_idle w default client_shelf false (client_cns_map e.client_cns []) e h.clients in
    rw
      (
        initialized_idle w e (etcd_ca_request root_ca default) h.ca,
        build_and_generate_settled w e (etcd_ca_request root_ca default ∷ []) (h.ca, tt),
        peers.1,
        servers.1,
        clients.1,
      )
      (build_and_generate_settled w e (peers.0 ++ servers.0 ++ clients.0)
        (All-append _ _ _ (All-append _ _ _ peers.2 servers.2) clients.2))
