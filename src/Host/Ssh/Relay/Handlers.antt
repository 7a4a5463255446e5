-- ===== src/Host/Ssh/Relay/Handlers.antt =====
-- What handleClient leaves behind (pkg/host/transport/ssh/ssh.go).
use libflexkube.Base.{ℕ, ◌+◌, ◌≡◌, refl, arith, ◌⊎◌, inl, inr}
use libflexkube.Host.Ssh.Relay.{
  Copier, copying, reporting, finished, Waiter, waiting, closed, Handler, handler, started,
  HandlerStep, first_returns, second_returns, first_reports, second_reports, Steps, here, next,
}

-- Reports that have been received.
abbrev received : Copier → ℕ
received copying = 0
received reporting = 0
received finished = 1

abbrev taken : Waiter → ℕ
taken waiting = 0
taken closed = 1

-- Every report that was received was received by the one `<-chDone`.
abbrev IsPaired : Handler → Type 0
IsPaired (handler d u m) = received d + received u ≡ taken m

HandlerStep-IsPaired : {s t : Handler} → HandlerStep s t → IsPaired s → IsPaired t
HandlerStep-IsPaired first_returns h = h
HandlerStep-IsPaired second_returns h = h
HandlerStep-IsPaired first_reports h = omega arith
HandlerStep-IsPaired second_reports h = omega arith

Steps-IsPaired : {s t : Handler} → IsPaired s → Steps HandlerStep s t → IsPaired t
Steps-IsPaired h here = h
Steps-IsPaired h (next r st) = HandlerStep-IsPaired st (Steps-IsPaired h r)

abbrev pub IsStuck : Handler → Type 0
IsStuck s = (t : Handler) → ¬ HandlerStep s t

-- A copier that waits forever, and the other that has ended, with both connections closed.
abbrev pub Leaks : Handler → Type 0
Leaks s = (s ≡ handler reporting finished closed) ⊎ (s ≡ handler finished reporting closed)

leaks : (s : Handler) → IsPaired s → IsStuck s → Leaks s
leaks (handler copying u m) p stuck = absurd (stuck (handler reporting u m) first_returns)
leaks (handler reporting u waiting) p stuck =
    absurd (stuck (handler finished u closed) first_reports)
leaks (handler d copying m) p stuck = absurd (stuck (handler d reporting m) second_returns)
leaks (handler d reporting waiting) p stuck =
    absurd (stuck (handler d finished closed) second_reports)
leaks (handler reporting finished closed) p stuck = inl refl
leaks (handler finished reporting closed) p stuck = inr refl
leaks (handler reporting reporting closed) p stuck = absurd (omega arith)
leaks (handler finished finished waiting) p stuck = absurd (omega arith)
leaks (handler finished finished closed) p stuck = absurd (omega arith)

-- Wherever a started handleClient and its two copiers can make no step any more, handleClient has
-- closed both connections, one copier has finished, and the other stays blocked on its report for
-- ever.
pub handle_client-Leaks : (s : Handler) → Steps HandlerStep started s → IsStuck s → Leaks s
handle_client-Leaks s r stuck = leaks s (Steps-IsPaired refl r) stuck
