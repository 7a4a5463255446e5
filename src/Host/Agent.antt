-- ===== src/Host/Agent.antt =====
-- What happens to a host whose SSH agent cannot be reached (pkg/host/host.go).
use libflexkube.Base.{false, none, some, ◌==◌, ◌≡◌, arith}
use libflexkube.Base.Fault.{Error, failure}
use libflexkube.Base.Exec.{ok, panic, ◌>>=◌}
use libflexkube.World.{World, dial_agent, perform}
use libflexkube.Host.Config.{Host, SshConfig}
use libflexkube.Host.Ssh.{validate_ssh, new_ssh, agent_auth}
use libflexkube.Host.Transport.{validate_host, new_host, choose_transport, or_nil, connect}

-- Where the socket of the agent is set and cannot be dialed, New of a valid SSH host succeeds all
-- the same, with no transport, and Connect on its result panics.
pub connect_without_agent :
    (h : Host) (c : SshConfig) (w : World) (e : Error)
    → h.ssh_config ≡ some c
    → validate_host w.lib h ≡ none
    → validate_ssh w.lib c ≡ none
    → (w.lib.ssh_auth_sock == "") ≡ false
    → w.answer w.history (dial_agent w.lib.ssh_auth_sock) ≡ failure e
    → ((new_host h w).0 ≡ ok none) × (((new_host h >>= connect) w).0 ≡ panic)
unfolding new_host choose_transport or_nil new_ssh agent_auth connect perform ◌>>=◌
connect_without_agent h c w e hc vh vs sock q = (ground arith, ground arith)
