-- ===== src/Host/NoAttempt.antt =====
-- A connection without a single attempt (pkg/host/host.go, pkg/host/transport/ssh/ssh.go).
use libflexkube.Base.{ℕ, zero, suc, ◌-◌, String, false, none, some, ◌≡◌, refl, arith}
use libflexkube.Base.Exec.{ok, panic, ◌>>=◌}
use libflexkube.World.{World, Ssh}
use libflexkube.Host.Ssh.Dial.{before_timeout, give_up, dial_loop, rounds_of, connect_ssh}
use libflexkube.Host.Transport
use libflexkube.Host.Transport.{connect, connect_transport, forward_unix_socket}

minus_self : (n : ℕ) → n - n ≡ 0
minus_self n = omega arith

no_round :
    (n : ℕ) (s : Ssh) (w : World)
    → before_timeout 0 s.retry_timeout ≡ false
    → dial_loop n s (w.clock w.history) none w ≡ (ok none, w)
unfolding dial_loop give_up ◌>>=◌
no_round zero s w h = rw (minus_self (w.clock w.history), h) refl
no_round (suc n) s w h = rw (minus_self (w.clock w.history), h) refl

-- With a retry timeout that is not above 0, Connect of an SSH transport never dials and returns
-- neither a connection nor an error, so that forwarding a socket on its result panics.
pub connect_without_attempt :
    (s : Ssh) (w : World) (path : String)
    → before_timeout 0 s.retry_timeout ≡ false
    → (connect (some (Transport.ssh s)) w ≡ (ok none, w))
      × ((connect (some (Transport.ssh s)) >>= λ c. forward_unix_socket c path) w ≡ (panic, w))
unfolding connect connect_transport connect_ssh forward_unix_socket ◌>>=◌
connect_without_attempt s w path h = rw (no_round (rounds_of s.retry_timeout) s w h) (refl, refl)
