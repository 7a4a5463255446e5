-- ===== src/Host/Transport.antt =====
-- Choosing a transport and forwarding a socket over it (pkg/host/host.go,
-- pkg/host/transport/direct/direct.go).
use libflexkube.Base.{String, Option, none, some, List, [], ◌∷◌, ◌++◌, not, ◌&&◌, is_some}
use libflexkube.Base.Fault.{Error, errorf, wrapf, error_if}
use libflexkube.Base.Exec.{
  Exec, Outcome, ok, err, panic, hang, pure, lift, fail, abort, wrap, ◌>>=◌, ◌>>◌, gets,
}
use libflexkube.Util.{return_errors}
use mathlib.Core.Option
use libflexkube.World.{World, Library, Ssh}
use libflexkube.Host.Ssh.Dial.{connect_ssh}
use libflexkube.Host.Ssh.Forward.{forward_unix, forward_tcp_ssh, validate_address}
use libflexkube.Host.Config.{Host}
use libflexkube.Host.Ssh.{validate_ssh, new_ssh}

-- The implementations of transport.Interface.
pub data Transport : Type 0 where
  direct : Transport
  ssh : Ssh → Transport

unfoldable pub ssh_errors : Library → Host → List Error
ssh_errors lib h = elim h.ssh_config [
  | none ↦ []
  | some c ↦ elim (validate_ssh lib c) [ none ↦ [] | some e ↦ wrapf "validating SSH config" e ∷ [] ]
]

-- Host.Validate; the validation of the direct configuration never fails.
unfoldable pub validate_host : Library → Host → Option Error
unfolding ssh_errors return_errors
validate_host lib h = return_errors (
    error_if (is_some h.direct_config && is_some h.ssh_config)
      (errorf "host must have only one transport method defined")
    ++ (error_if (not (is_some h.direct_config) && not (is_some h.ssh_config))
          (errorf "host must have transport method defined")
        ++ ssh_errors lib h))

-- `configuredTransport, _ = h.SSHConfig.New()`: a failed call leaves nil, and its error is dropped.
unfoldable pub or_nil : Outcome Ssh → Exec World (Option Transport)
or_nil (ok s) w = (ok (some (ssh s)), w)
or_nil (err e) w = (ok none, w)
or_nil panic w = (panic, w)
or_nil hang w = (hang, w)

unfoldable pub choose_transport : Host → Exec World (Option Transport)
unfolding or_nil
choose_transport h = elim h.ssh_config [
  | some c ↦ λ w. let (r, w') = new_ssh c w in or_nil r w'
  | none ↦ elim h.direct_config [ some d ↦ pure (some direct) | none ↦ pure none ]
]

-- Host.New; the result is nil where no transport was set.
unfoldable pub new_host : Host → Exec World (Option Transport)
unfolding choose_transport
new_host h = do
  lib ← gets (λ w. w.lib)
  elim (validate_host lib h) [
    | some e ↦ fail (wrapf "validating host configuration" e)
    | none ↦ choose_transport h
  ]

-- The implementations of transport.Connected.
pub data Connected : Type 0 where
  direct_connected : Connected
  ssh_connected : Ssh → Connected

-- transport.Interface.Connect; ssh.Connect may return nil without an error.
unfoldable pub connect_transport : Transport → Exec World (Option Connected)
connect_transport direct = pure (some direct_connected)
connect_transport (ssh s) = do c ← connect_ssh s; pure (Option.map ssh_connected c)

-- host.Connect; a call through a nil transport panics. The result holds what the transport returned,
-- nil included.
unfoldable pub connect : Option Transport → Exec World (Option Connected)
connect none = abort
connect (some t) = wrap "connecting" (connect_transport t)

-- hostConnected.ForwardUnixSocket; a call through nil panics.
unfoldable pub forward_unix_socket : Option Connected → String → Exec World String
forward_unix_socket none path = abort
forward_unix_socket (some direct_connected) path = pure path
forward_unix_socket (some (ssh_connected s)) path = forward_unix s path

forward_tcp_direct : String → Exec World String
forward_tcp_direct address = do
  lib ← gets (λ w. w.lib)
  lift (validate_address lib address)
  pure address

-- hostConnected.ForwardTCP
unfoldable pub forward_tcp : Option Connected → String → Exec World String
unfolding forward_tcp_direct
forward_tcp none address = abort
forward_tcp (some direct_connected) address = forward_tcp_direct address
forward_tcp (some (ssh_connected s)) address = forward_tcp_ssh s address
