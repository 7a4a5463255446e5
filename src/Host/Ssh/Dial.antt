-- ===== src/Host/Ssh/Dial.antt =====
-- Connecting to an SSH server, with retries (pkg/host/transport/ssh/ssh.go, Connect).
use libflexkube.Base.{ℕ, zero, suc, ◌-◌, Bool, false, Option, none, some, ltb, if◌then◌else◌}
use libflexkube.Base.Fault.{Error, Result, success, failure}
use libflexkube.Base.Exec.{Exec, hang, pure, fail, gets, ◌>>=◌, ◌>>◌}
use libflexkube.Util.{ℤ, pos, negsuc}
use libflexkube.World.{World, Ssh, ssh_dial, sleep, attempt}

-- time.Since(start) < timeout
unfoldable pub before_timeout : ℕ → ℤ → Bool
before_timeout since (pos timeout) = ltb since timeout
before_timeout since (negsuc n) = false

-- `return nil, err`, with the error of the last attempt, which is nil where there was none.
unfoldable pub give_up : Option Error → Exec World (Option Ssh)
give_up none = pure none
give_up (some e) = fail e

-- The rest of a round: the connection, or a pause and the next round.
unfoldable pub dialed :
    Ssh → (Error → Exec World (Option Ssh)) → Result (Unit {0}) → Exec World (Option Ssh)
dialed s again (success u) = pure (some s)
dialed s again (failure e) = do attempt (sleep s.retry_interval); again e

-- The loop of Connect. It is followed for a number of rounds; what would go on longer hangs.
unfoldable pub dial_loop : ℕ → Ssh → ℕ → Option Error → Exec World (Option Ssh)
dial_loop zero s start last w =
    if before_timeout (w.clock w.history - start) s.retry_timeout then (hang, w) else give_up last w
dial_loop (suc rounds) s start last w =
    let again : Error → Exec World (Option Ssh) = λ e. dial_loop rounds s start (some e) in
    let round : Exec World (Option Ssh) = attempt (ssh_dial s) >>= λ r. dialed s again r in
    if before_timeout (w.clock w.history - start) s.retry_timeout then round w else give_up last w

-- Enough rounds for a clock that moves by a nanosecond in each.
unfoldable pub rounds_of : ℤ → ℕ
rounds_of (pos timeout) = timeout
rounds_of (negsuc n) = 0

-- ssh.Connect: nil without an error where not even one attempt was made.
unfoldable pub connect_ssh : Ssh → Exec World (Option Ssh)
connect_ssh s = do
  start ← gets (λ w. w.clock w.history)
  dial_loop (rounds_of s.retry_timeout) s start none
