-- ===== src/Host/Valid.antt =====
-- What validation of a host allows (pkg/host/host.go).
use libflexkube.Base.{
  Bool, true, false, not, Option, none, some, List, [], ◌∷◌, ◌++◌, ◌≡◌, refl, arith, is_some, ◌||◌,
  ◌==◌, ◌⊎◌, inl, inr,
}
use libflexkube.Base.Fault.{Error, wrapf, errorf, error_if}
use libflexkube.Util.{return_errors, is_zero}
use libflexkube.World.{Library}
use libflexkube.Host.Config.{SshConfig, DirectConfig}
use libflexkube.Host.Ssh.{validate_ssh, validate_durations, has_auth_method, private_key_errors}
use libflexkube.Host.Transport.{ssh_errors, validate_host}

-- No error in a sum of lists of errors.
no_errors :
    (xs ys : List Error) → return_errors (xs ++ ys) ≡ none → (xs ≡ []) × (return_errors ys ≡ none)
unfolding return_errors
no_errors [] ys h = (refl, h)
no_errors (x ∷ xs) ys h = cc

no_error : (b : Bool) (e : Error) → error_if b e ≡ [] → b ≡ false
no_error true e h = cc
no_error false e h = refl

no_wrapped :
    (lib : Library) (s : SshConfig) (r : Option Error)
    → (elim r as (λ x. List Error) [ none ↦ [] | some e ↦ wrapf "validating SSH config" e ∷ [] ])
      ≡ []
    → r ≡ none
no_wrapped lib s none h = refl
no_wrapped lib s (some e) h = cc

alone : (xs : List Error) → return_errors xs ≡ none → xs ≡ []
unfolding return_errors
alone [] h = refl
alone (x ∷ xs) h = cc

-- A valid host has exactly one transport, and its SSH configuration, where it has one, is valid.
pub validate_host_one :
    (lib : Library) (d : Option DirectConfig) (s : Option SshConfig)
    → validate_host lib (record { direct_config = d; ssh_config = s }) ≡ none
    → ((is_some d ≡ true) × (s ≡ none))
      ⊎ ((c : SshConfig) × (s ≡ some c) × (d ≡ none) × (validate_ssh lib c ≡ none))
unfolding validate_host ssh_errors return_errors
validate_host_one lib none none e = cc
validate_host_one lib (some d) none e = inl (refl, refl)
validate_host_one lib none (some s) e =
    inr (s, refl, refl, no_wrapped lib s (validate_ssh lib s) (alone _ e))
validate_host_one lib (some d) (some s) e = cc

no_later_error :
    (us vs ws xs : List Error) (b : Bool) (e : Error) (ys : List Error)
    → return_errors (us ++ (vs ++ (ws ++ (xs ++ (error_if b e ++ ys))))) ≡ none
    → b ≡ false
no_later_error us vs ws xs b e ys h =
    let after_us = no_errors us (vs ++ (ws ++ (xs ++ (error_if b e ++ ys)))) h in
    let after_vs = no_errors vs (ws ++ (xs ++ (error_if b e ++ ys))) after_us.1 in
    let after_ws = no_errors ws (xs ++ (error_if b e ++ ys)) after_vs.1 in
    let after_xs = no_errors xs (error_if b e ++ ys) after_ws.1 in
    no_error b e (no_errors (error_if b e) ys after_xs.1).0

-- A valid SSH configuration has an address, a user, a port and a way to authenticate: a password, a
-- private key or the socket of an agent.
pub validate_ssh_fields :
    (lib : Library) (d : SshConfig)
    → validate_ssh lib d ≡ none
    → ((d.address == "") ≡ false)
      × ((d.user == "") ≡ false)
      × (is_zero d.port ≡ false)
      × ((not (d.password == "") || (not (d.private_key == "") || not (lib.ssh_auth_sock == "")))
          ≡ true)
unfolding validate_ssh has_auth_method return_errors
validate_ssh_fields lib d h = (ground arith, ground arith, port, ground arith)
  where
    port : is_zero d.port ≡ false
    port =
        no_later_error (error_if (d.address == "") (errorf "address must be set"))
          (error_if (d.user == "") (errorf "user must be set"))
          (error_if (not (has_auth_method lib d))
            (errorf "at least one authentication method must be available"))
          (private_key_errors lib d) (is_zero d.port) (errorf "port must be set")
          (validate_durations lib d) h
