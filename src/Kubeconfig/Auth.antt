-- ===== src/Kubeconfig/Auth.antt =====
-- How a valid client authenticates (pkg/kubernetes/client/kubeconfig.go).
use libflexkube.Base.{
  Bool, true, false, none, some, [], ◌∷◌, ◌++◌, ◌==◌, ◌≡◌, refl, ◌⊎◌, inl, inr, not, ◌&&◌,
  Option-cases,
}
use libflexkube.Base.Fault.{Error, error_if, wrapf}
use libflexkube.Util.{return_errors}
use libflexkube.Util.Errors.{nothing_returned, not_longer}
use libflexkube.World.{Library}
use libflexkube.Kubeconfig.{
  ClientConfig, reread_error, validate_auth, config_errors, validate_config,
}

-- By a client certificate with its key, or by a token, never by both.
abbrev pub HasOneAuth : ClientConfig → Type 0
HasOneAuth c =
    (((c.token == "") ≡ true)
      × ((c.client_certificate == "") ≡ false)
      × ((c.client_key == "") ≡ false))
    ⊎ (((c.token == "") ≡ false)
        × ((c.client_certificate == "") ≡ true)
        × ((c.client_key == "") ≡ true))

-- The conditions on the tests of the fields.
by_tests :
    (s ca tok cert key : Bool) (e1 e2 e3 e4 e5 e6 : Error)
    → error_if s e1
        ++ (error_if ca e2
            ++ (error_if (cert && tok) e3
                ++ (error_if (key && tok) e4
                    ++ (error_if (not tok && not cert) e5 ++ error_if (not tok && not key) e6))))
      ≡ []
    → (s ≡ false)
      × (ca ≡ false)
      × (((tok ≡ true) × (cert ≡ false) × (key ≡ false))
          ⊎ ((tok ≡ false) × (cert ≡ true) × (key ≡ true)))
by_tests true ca tok cert key e1 e2 e3 e4 e5 e6 q = cc
by_tests false true tok cert key e1 e2 e3 e4 e5 e6 q = cc
by_tests false false true true key e1 e2 e3 e4 e5 e6 q = cc
by_tests false false true false true e1 e2 e3 e4 e5 e6 q = cc
by_tests false false true false false e1 e2 e3 e4 e5 e6 q = (refl, refl, inl (refl, refl, refl))
by_tests false false false false true e1 e2 e3 e4 e5 e6 q = cc
by_tests false false false false false e1 e2 e3 e4 e5 e6 q = cc
by_tests false false false true false e1 e2 e3 e4 e5 e6 q = cc
by_tests false false false true true e1 e2 e3 e4 e5 e6 q = (refl, refl, inr (refl, refl, refl))

clear :
    (c : ClientConfig)
    → config_errors c ≡ []
    → ((c.server == "") ≡ false) × ((c.ca_certificate == "") ≡ false) × HasOneAuth c
unfolding config_errors validate_auth
clear c q =
    by_tests (c.server == "") (c.ca_certificate == "") (c.token == "") (c.client_certificate == "")
      (c.client_key == "") _ _ _ _ _ _ q

reread_fine :
    (lib : Library) (c : ClientConfig)
    → reread_error lib c ≡ none
    → validate_config lib c ≡ none
    → return_errors (config_errors c) ≡ none
unfolding validate_config
reread_fine lib c fine v = cc

reread_bad :
    (lib : Library) (c : ClientConfig) (e : Error)
    → reread_error lib c ≡ some e
    → validate_config lib c ≡ none
    → ⊥
unfolding validate_config
reread_bad lib c e bad v =
    not_longer (config_errors c) (wrapf "unmarshaling config" (lib.yaml_error e)) (
      nothing_returned (config_errors c ++ wrapf "unmarshaling config" (lib.yaml_error e) ∷ [])
        (cc))

valid_config :
    (lib : Library) (c : ClientConfig)
    → validate_config lib c ≡ none
    → (reread_error lib c ≡ none) × (config_errors c ≡ [])
unfolding validate_config
valid_config lib c v = elim (Option-cases (reread_error lib c)) [
  | inl fine ↦ (fine, nothing_returned (config_errors c) (reread_fine lib c fine v))
  | inr (e, bad) ↦ absurd (reread_bad lib c e bad v)
]

-- A valid client configuration has a server and a CA certificate, and authenticates in exactly one
-- way: by a client certificate with its key, or by a token.
pub validate_config-HasOneAuth :
    (lib : Library) (c : ClientConfig)
    → validate_config lib c ≡ none
    → ((c.server == "") ≡ false) × ((c.ca_certificate == "") ≡ false) × HasOneAuth c
validate_config-HasOneAuth lib c v = clear c (valid_config lib c v).1
