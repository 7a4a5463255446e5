-- ===== src/Pki/Usage.antt =====
-- Key usages by name, and the usages of the certificates that the PKI makes (pkg/pki/pki.go). A
-- usage is the number of crypto/x509: a bit of x509.KeyUsage, or an x509.ExtKeyUsage.
use libflexkube.Base.{ℕ, String, none, some, List, [], ◌∷◌, ◌++◌, if◌then◌else◌, nat_eq}
use libflexkube.Base.Map.{Map, lookup}
use Prim.Native.Nat.{bit_or}

key_usages : Map ℕ
key_usages =
    ("digital_signature", 1)
    ∷ ("content_commitment", 2)
    ∷ ("key_encipherment", 4)
    ∷ ("data_encipherment", 8)
    ∷ ("key_agreement", 16)
    ∷ ("cert_signing", 32)
    ∷ ("crl_signing", 64)
    ∷ ("encipher_only", 128)
    ∷ ("decipher_only", 256)
    ∷ []

extended_key_usages : Map ℕ
extended_key_usages =
    ("any_extended", 0)
    ∷ ("server_auth", 1)
    ∷ ("client_auth", 2)
    ∷ ("code_signing", 3)
    ∷ ("email_protection", 4)
    ∷ ("ipsec_end_system", 5)
    ∷ ("ipsec_tunnel", 6)
    ∷ ("ipsec_user", 7)
    ∷ ("timestamping", 8)
    ∷ ("ocsp_signing", 9)
    ∷ ("microsoft_server_gated_crypto", 10)
    ∷ ("netscape_server_gated_crypto", 11)
    ∷ []

-- A read of a map of numbers: 0 where there is no entry.
number_at : Map ℕ → String → ℕ
number_at m k = elim (lookup m k) [ none ↦ 0 | some n ↦ n ]

-- keyUsageFromString
unfoldable pub key_usage_from_string : String → ℕ
unfolding key_usages number_at
key_usage_from_string usage_raw = number_at key_usages usage_raw

-- extendedKeyUsageFromString
unfoldable pub extended_key_usage_from_string : String → ℕ
unfolding extended_key_usages number_at
extended_key_usage_from_string usage_raw = number_at extended_key_usages usage_raw

-- The loop of decodeKeyUsage
unfoldable pub decode_usages : ℕ → List ℕ → List String → ℕ × List ℕ
decode_usages usage extended [] = (usage, extended)
decode_usages usage extended (raw ∷ raws) =
    let r = key_usage_from_string raw in
    let e = extended_key_usage_from_string raw in
    decode_usages (if nat_eq r 0 then usage else bit_or usage r)
      (if nat_eq r 0 then (if nat_eq e 0 then extended else extended ++ e ∷ []) else extended) raws

-- Certificate.decodeKeyUsage, of the field KeyUsage
unfoldable pub decode_key_usage : List String → ℕ × List ℕ
decode_key_usage key_usage = decode_usages 0 [] key_usage

abbrev pub server_usage : List String
server_usage = "key_encipherment" ∷ "digital_signature" ∷ "server_auth" ∷ []

abbrev pub client_usage : List String
client_usage = "key_encipherment" ∷ "digital_signature" ∷ "client_auth" ∷ []

abbrev pub client_server_usage : List String
client_server_usage = "key_encipherment" ∷ "digital_signature" ∷ "client_auth" ∷ "server_auth" ∷ []

abbrev pub ca_usage : List String
ca_usage = "key_encipherment" ∷ "digital_signature" ∷ "cert_signing" ∷ []
