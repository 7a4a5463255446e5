-- ===== src/Host/Ssh/Forward.antt =====
-- Forwarding sockets over an SSH connection (pkg/host/transport/ssh/ssh.go, sshConnected). What the
-- forwarding goroutine does is in Host/Ssh/Relay.
use libflexkube.Base.{String, none, some, ◌==◌, not, if◌then◌else◌, append}
use libflexkube.Base.Fault.{errorf, wrapf_arg, Result, success, failure}
use libflexkube.Base.Exec.{Exec, Action, pure, lift, wrap, wrap_arg, gets, ◌>>=◌, ◌>>◌}
use libflexkube.World.{World, Library, Ssh, random_uuid, listen, start_forwarding, perform, attempt}

-- randomUnixSocket: the name of the abstract socket.
unfoldable pub random_unix_socket : Ssh → Exec World String
random_unix_socket d = do
  id ← wrap "generating random UUID for abstract UNIX socket" (perform random_uuid)
  pure (append "@" (append d.address (append "-" id)))

-- extractPath
unfoldable pub extract_path : Library → String → Result String
extract_path lib path = elim (lib.parse_url path) [
  | failure e ↦ failure (wrapf_arg "parsing path" path e)
  | success url ↦
      if not (url.scheme == "unix")
      then failure (errorf "forwarding non-unix socket paths is not supported")
      else success url.path
]

-- `go forwardConnection(…)`: nothing waits for it.
unfoldable pub schedule : String → Ssh → String → String → Action World
schedule listener d remote network = do
  attempt (start_forwarding listener d.address remote network)
  pure tt

-- sshConnected.ForwardUnixSocket. The assignment of the failed extractPath empties the path that the
-- error shows.
unfoldable pub forward_unix : Ssh → String → Exec World String
forward_unix d path = do
  name ← wrap "generating random socket to listen" (random_unix_socket d)
  listener ← wrap_arg "listening on address" name (perform (listen "unix" name))
  lib ← gets (λ w. w.lib)
  remote ← wrap_arg "parsing path" "" (lift (extract_path lib path))
  schedule listener d remote "unix"
  pure (append "unix://" name)

unfoldable pub validate_address : Library → String → Result (Unit {0})
validate_address lib address = elim (lib.host_port_error address) [
  | some e ↦ failure (wrapf_arg "validating address" address e)
  | none ↦ success tt
]

-- sshConnected.ForwardTCP
unfoldable pub forward_tcp_ssh : Ssh → String → Exec World String
forward_tcp_ssh d address = do
  lib ← gets (λ w. w.lib)
  lift (validate_address lib address)
  listener ← wrap "listening on random TCP port" (perform (listen "tcp" "127.0.0.1:0"))
  schedule listener d address "tcp"
  pure listener
