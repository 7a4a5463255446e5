-- ===== src/Examples/Ssh.antt =====
-- The theorems on SSH connections at concrete inputs.
use libflexkube.Base.{ℕ, ◌+◌, ◌≤◌, false, none, some, List, [], ◌∷◌, ◌≡◌, ◌≢◌, refl, arith}
use libflexkube.Base.Fault.{Result, failure, errorf}
use libflexkube.Base.Exec.{ok, panic, hang, ◌>>=◌}
use libflexkube.Util.{pos}
use libflexkube.World.{World, Call, Reply, Ssh, sleep, ssh_dial}
use libflexkube.Examples.Inputs.{world, reply}
use libflexkube.Host.Ssh.Dial.{before_timeout, connect_ssh}
use libflexkube.Host.Ssh.Retries.{Runs, attempts, connect_ssh_ends, connect_ssh-attempts}
use libflexkube.Host.NoAttempt.{connect_without_attempt}
use libflexkube.Host.Transport
use libflexkube.Host.Transport.{connect, forward_unix_socket}
use libflexkube.Host.Ssh.Relay.{
  Handler, handler, reporting, finished, closed, started, HandlerStep, first_returns,
  second_returns, first_reports, ended, accepts, dials, dial_fails, Steps, here, next,
}
use libflexkube.Host.Ssh.Relay.Handlers.{handle_client-Leaks, Leaks, IsStuck}
use libflexkube.Host.Ssh.Relay.Accepting.{
  forward_connection-IsAccounted, is_open, pending, most_lost,
}

-- A server that never answers, on a clock that only pauses move.
unfoldable down : List Call → (c : Call) → Result (Reply c)
down h (ssh_dial s) = failure (errorf "no route to host")
down h c = reply h c

unfoldable paused : List Call → ℕ
paused [] = 0
paused (sleep (pos d) ∷ h) = d + paused h
paused (c ∷ h) = paused h

paused-onwards : (h : List Call) (c : Call) → paused h ≤ paused (c ∷ h)
unfolding paused
paused-onwards h (sleep (pos d)) = omega arith
paused-onwards h c = omega arith

abbrev unreachable : World
unreachable = record world { answer = down; clock = paused }

runs : Runs paused
unfolding paused
runs = record { onwards = paused-onwards; pauses = λ h d. omega arith }

abbrev server : Ssh
server = record {
  address = "10.0.0.1:22";
  user = "core";
  connection_timeout = pos 5;
  retry_timeout = pos 30;
  retry_interval = pos 10;
  auth = [];
}

connect_ssh_ends_example : (connect_ssh server unreachable).0 ≢ hang
connect_ssh_ends_example = connect_ssh_ends server 30 9 unreachable refl refl runs

connect_ssh-attempts_example :
    attempts (connect_ssh server unreachable).1.history ≤ attempts unreachable.history + 3
connect_ssh-attempts_example =
    connect_ssh-attempts server 30 9 3 unreachable refl refl runs (omega arith)

abbrev hasty : Ssh
hasty = record server { retry_timeout = pos 0 }

connect_without_attempt_example :
    (connect (some (Transport.ssh hasty)) world ≡ (ok none, world))
    × ((connect (some (Transport.ssh hasty)) >>= λ c. forward_unix_socket c "/run/docker.sock")
          world
        ≡ (panic, world))
unfolding before_timeout
connect_without_attempt_example = connect_without_attempt hasty world "/run/docker.sock" refl

abbrev end : Handler
end = handler finished reporting closed

run : Steps HandlerStep started end
run = next (next (next here first_returns) first_reports) second_returns

end-IsStuck : IsStuck end
end-IsStuck t st = elim st [ ]

handle_client-Leaks_example : Leaks end
handle_client-Leaks_example = handle_client-Leaks end run end-IsStuck

forward_connection-IsAccounted_example :
    (false ≡ is_open ended) × (2 ≡ pending ended + 1 + 1) × (1 ≤ most_lost ended)
forward_connection-IsAccounted_example =
    forward_connection-IsAccounted ended false 2 1 1
      (next (next (next (next here accepts) dials) accepts) dial_fails)
