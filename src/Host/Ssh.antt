-- ===== src/Host/Ssh.antt =====
-- Validation and construction of the ssh transport (pkg/host/transport/ssh/ssh.go).
pub mod Dial
pub mod Forward
pub mod Retries
pub mod Relay
use libflexkube.Base.{
  String, Bool, Option, none, some, List, [], ◌∷◌, ◌++◌, ◌==◌, not, ◌&&◌, if◌then◌else◌, append,
}
use libflexkube.Base.Fault.{Error, errorf, wrapf, error_if, error_of, success, failure}
use libflexkube.Base.Exec.{Exec, pure, fail, wrap, ◌>>=◌, ◌>>◌, gets}
use libflexkube.Util.{ℤ, pos, is_zero, return_errors}
use libflexkube.World.{
  World, Library, AuthMethod, password, private_key, agent, Ssh, dial_agent, agent_signers, perform,
}
use libflexkube.Host.Config.{SshConfig}

-- An error of the key's parser, wrapped, or none.
parse_errors : String → Option Error → List Error
parse_errors text none = []
parse_errors text (some e) = wrapf text e ∷ []

-- Config.validateDurations
unfoldable pub validate_durations : Library → SshConfig → List Error
validate_durations lib d =
    error_of (wrapf "parsing connection timeout") (lib.parse_duration d.connection_timeout)
    ++ (error_of (wrapf "parsing retry timeout") (lib.parse_duration d.retry_timeout)
        ++ error_of (wrapf "parsing retry interval") (lib.parse_duration d.retry_interval))

unfoldable pub has_auth_method : Library → SshConfig → Bool
has_auth_method lib d = not (d.password == "" && d.private_key == "" && lib.ssh_auth_sock == "")

-- The private key is looked at only if it is set.
unfoldable pub private_key_errors : Library → SshConfig → List Error
unfolding parse_errors
private_key_errors lib d =
    if not (d.private_key == "")
    then parse_errors "parsing private key" (lib.private_key_error d.private_key)
    else []

-- Config.Validate
unfoldable pub validate_ssh : Library → SshConfig → Option Error
unfolding validate_durations has_auth_method private_key_errors return_errors
validate_ssh lib d = return_errors (
    error_if (d.address == "") (errorf "address must be set")
    ++ (error_if (d.user == "") (errorf "user must be set")
        ++ (error_if (not (has_auth_method lib d))
              (errorf "at least one authentication method must be available")
            ++ (private_key_errors lib d
                ++ (error_if (is_zero d.port) (errorf "port must be set")
                    ++ validate_durations lib d)))))

-- The methods of the configuration itself, in the order in which they are tried.
config_auth : SshConfig → List AuthMethod
config_auth d =
    (if not (d.password == "") then password d.password ∷ [] else [])
    ++ (if not (d.private_key == "") then private_key d.private_key ∷ [] else [])

-- The keys of the agent, if its socket is set.
unfoldable pub agent_auth : String → Exec World (List AuthMethod)
agent_auth sock = if sock == "" then pure [] else do
  wrap "dialing SSH agent" (perform (dial_agent sock))
  wrap "getting public keys from SSH agent" (perform (agent_signers sock))
  pure (agent sock ∷ [])

-- `d, _ := time.ParseDuration(text)`
duration : Library → String → ℤ
duration lib text = elim (lib.parse_duration text) [ success d ↦ d | failure e ↦ pos 0 ]

-- Config.New
unfoldable pub new_ssh : SshConfig → Exec World Ssh
unfolding config_auth agent_auth duration
new_ssh d = do
  lib ← gets (λ w. w.lib)
  let build : Exec World Ssh = do
    keys ← agent_auth lib.ssh_auth_sock
    pure (record {
      address = append d.address (append ":" (lib.itoa d.port));
      user = d.user;
      connection_timeout = duration lib d.connection_timeout;
      retry_timeout = duration lib d.retry_timeout;
      retry_interval = duration lib d.retry_interval;
      auth = config_auth d ++ keys;
    })
  elim (validate_ssh lib d) [ some e ↦ fail (wrapf "validating config" e) | none ↦ build ]
