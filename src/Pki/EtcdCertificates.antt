-- ===== src/Pki/EtcdCertificates.antt =====
-- The certificates of an etcd cluster (pkg/pki/etcd.go).
pub mod Coverage
use libflexkube.Base.{
  ℕ, String, Bool, true, false, Option, none, some, List, [], ◌∷◌, ◌++◌, ◌==◌, if◌then◌else◌, not,
  ◌&&◌,
}
use libflexkube.Base.Map.{Map, lookup, insert, keys, has}
use libflexkube.Base.Exec.{Exec, Action, pure, gets, wrap, ◌>>=◌, ◌>>◌}
use libflexkube.Pki.{Certificate, EtcdPki}
use libflexkube.Pki.Usage.{client_usage, client_server_usage}
use libflexkube.Pki.Merge.{empty_certificate}
use libflexkube.Pki.Generate.{With, self, update}
use libflexkube.Pki.Requests.{
  Place, CertificateRequest, ca_certificate, fixed, initialized, build_and_generate,
}

-- certificateFromCNIPMap
unfoldable pub certificate_from_cn_ip_map : String → String → Bool → Certificate
certificate_from_cn_ip_map common_name ip_address server = record empty_certificate {
  common_name = common_name;
  key_usage = if server then client_server_usage else client_usage;
  dns_names = if server then common_name ∷ "localhost" ∷ [] else [];
  ip_addresses = if not (ip_address == "") && server then ip_address ∷ "127.0.0.1" ∷ [] else [];
}

abbrev pub ca_place : Place EtcdPki
ca_place = record { read = λ e. e.ca; write = λ e c. record e { ca = some c } }

-- One of the three maps of certificates.
pub record Shelf : Type 0 where
  pub certs : EtcdPki → Map (Option Certificate)
  pub put : EtcdPki → Map (Option Certificate) → EtcdPki

abbrev pub peer_shelf : Shelf
peer_shelf = record {
  certs = λ e. e.peer_certificates;
  put = λ e m. record e { peer_certificates = m };
}

abbrev pub server_shelf : Shelf
server_shelf = record {
  certs = λ e. e.server_certificates;
  put = λ e m. record e { server_certificates = m };
}

abbrev pub client_shelf : Shelf
client_shelf = record {
  certs = λ e. e.client_certificates;
  put = λ e m. record e { client_certificates = m };
}

-- certs[name]: nil where there is no entry
unfoldable pub certificate_at : Map (Option Certificate) → String → Option Certificate
certificate_at certs name = elim (lookup certs name) [ none ↦ none | some c ↦ c ]

abbrev pub place_of : Shelf → String → Place EtcdPki
place_of shelf name = record {
  read = λ e. certificate_at (shelf.certs e) name;
  write = λ e c. shelf.put e (insert (shelf.certs e) name (some c));
}

-- cnIPs[name]: "" where there is no entry
unfoldable pub ip_at : Map String → String → String
ip_at cn_ips name = elim (lookup cn_ips name) [ none ↦ "" | some ip ↦ ip ]

-- certs[name] = &Certificate{}, where there is no entry
abbrev pub ensured : Shelf → String → EtcdPki → EtcdPki
ensured shelf name e =
    if has (shelf.certs e) name
    then e
    else shelf.put e (insert (shelf.certs e) name (some empty_certificate))

-- certificateRequestsFromMap, in this order of the names
unfoldable pub certificate_requests_from_map :
    Map (CertificateRequest EtcdPki) → List String → List (CertificateRequest EtcdPki)
certificate_requests_from_map crs [] = []
certificate_requests_from_map crs (name ∷ names) =
    let rest = certificate_requests_from_map crs names in
    elim (lookup crs name) [ none ↦ rest | some r ↦ r ∷ rest ]

module _ (default : Certificate) (shelf : Shelf) (server : Bool) where
  -- A request for a certificate that the PKI holds.
  unfoldable pub existing_request : Map String → String → CertificateRequest EtcdPki
  existing_request cn_ips name = record {
    target = place_of shelf name;
    ca = λ e. e.ca;
    certificates =
        fixed default
        ∷ (λ e. some e.certificate)
        ∷ fixed (certificate_from_cn_ip_map name (ip_at cn_ips name) server)
        ∷ (place_of shelf name).read
        ∷ [];
  }

  -- A request for one that crsFromMap adds.
  unfoldable pub new_request : String → String → CertificateRequest EtcdPki
  new_request name ip_address = record {
    target = place_of shelf name;
    ca = λ e. e.ca;
    certificates =
        fixed default
        ∷ (λ e. some e.certificate)
        ∷ fixed (certificate_from_cn_ip_map name ip_address server)
        ∷ [];
  }

  -- The loop of crsFromMap over the certificates
  unfoldable pub requests_for :
      Map String → List String → Map (CertificateRequest EtcdPki) → Map (CertificateRequest EtcdPki)
  requests_for cn_ips [] crs = crs
  requests_for cn_ips (name ∷ names) crs =
      requests_for cn_ips names (insert crs name (existing_request cn_ips name))

  -- The loop of crsFromMap over the addresses
  unfoldable pub add_requests :
      Map String
      → Map (CertificateRequest EtcdPki)
      → EtcdPki
      → Map (CertificateRequest EtcdPki) × EtcdPki
  add_requests [] crs e = (crs, e)
  add_requests ((name, ip_address) ∷ cn_ips) crs e =
      add_requests cn_ips
        (if has crs name then crs else insert crs name (new_request name ip_address))
        (if has crs name then e else ensured shelf name e)

  -- What crsFromMap collects, and the certificates that it leaves.
  unfoldable pub collected : Map String → EtcdPki → Map (CertificateRequest EtcdPki) × EtcdPki
  collected cn_ips e = add_requests cn_ips (requests_for cn_ips (keys (shelf.certs e)) []) e

  -- crsFromMap
  unfoldable pub crs_from_map : Map String → Exec (With EtcdPki) (List (CertificateRequest EtcdPki))
  crs_from_map cn_ips = do
    e ← self
    order ← gets (λ s. s.0.range_order s.0.history)
    let crs = (collected cn_ips e).0
    update (λ e. (collected cn_ips e).1)
    pure (certificate_requests_from_map crs (order (keys crs)))

-- The map of the client names, each to ""
unfoldable pub client_cns_map : List String → Map String → Map String
client_cns_map [] m = m
client_cns_map (name ∷ names) m = client_cns_map names (insert m name "")

-- The names and addresses of the servers: those of the peers, if none are given.
unfoldable pub servers_of : EtcdPki → Map String
servers_of e = elim e.servers [ none ↦ e.peers | some servers ↦ servers ]

abbrev pub etcd_ca_request : Option Certificate → Certificate → CertificateRequest EtcdPki
etcd_ca_request root_ca default = record {
  target = ca_place;
  ca = λ e. root_ca;
  certificates =
      fixed default
      ∷ (λ e. some e.certificate)
      ∷ fixed (ca_certificate "etcd-ca")
      ∷ ca_place.read
      ∷ [];
}

-- Etcd.Generate; initializeCertificatesMaps only makes empty maps of nil.
unfoldable pub generate_etcd : Option Certificate → Certificate → Action (With EtcdPki)
generate_etcd root_ca default = do
  update (initialized ca_place)
  wrap "generating etcd CA certificate" (build_and_generate (etcd_ca_request root_ca default ∷ []))
  e ← self
  peers ← crs_from_map default peer_shelf true e.peers
  servers ← crs_from_map default server_shelf true (servers_of e)
  clients ← crs_from_map default client_shelf false (client_cns_map e.client_cns [])
  build_and_generate (peers ++ servers ++ clients)
