-- ===== src/Host/Ssh/Retries.antt =====
-- How long Connect tries (pkg/host/transport/ssh/ssh.go). The clock is the world's; what is used of it
-- is that it does not go back and that a pause lasts at least as long as was asked for.
use native.Mathlib.Nat.{suc-mul}
use libflexkube.Base.{
  ℕ, zero, suc, ◌+◌, ◌-◌, ◌*◌, ◌≤◌, Bool, true, false, Option, none, some, List, [], ◌∷◌, ◌≡◌, ◌≢◌,
  refl, ◌∙◌, arith, ltb, Bool-cases, inl, inr, ◌⊎◌,
}
use libflexkube.Base.Fault.{Error, Result, success, failure}
use libflexkube.Base.Exec.{ok, hang, ◌>>=◌}
use libflexkube.Util.{pos}
use libflexkube.World.{World, Call, Ssh, ssh_dial, sleep, attempt}
use libflexkube.Host.Ssh.Dial.{before_timeout, give_up, dialed, dial_loop, rounds_of, connect_ssh}

-- The clock does not go back, and a pause takes its time.
pub record Runs (clock : List Call → ℕ) : Type 0 where
  pub onwards : (h : List Call) (c : Call) → clock h ≤ clock (c ∷ h)
  pub pauses : (h : List Call) (d : ℕ) → clock h + d ≤ clock (sleep (pos d) ∷ h)

-- The attempts among calls.
unfoldable pub attempts : List Call → ℕ
attempts [] = 0
attempts (ssh_dial s ∷ h) = suc (attempts h)
attempts (c ∷ h) = attempts h

after_round : World → Ssh → World
after_round w s = record w { history = sleep s.retry_interval ∷ ssh_dial s ∷ w.history }

-- The world after a successful attempt.
after_success : World → Ssh → World
after_success w s = record w { history = ssh_dial s ∷ w.history }

time_left : World → Ssh → ℕ → Bool
time_left w s start = before_timeout (w.clock w.history - start) s.retry_timeout

dial_loop_late :
    (n : ℕ) (s : Ssh) (start : ℕ) (last : Option Error) (w : World)
    → time_left w s start ≡ false
    → dial_loop n s start last w ≡ give_up last w
unfolding dial_loop time_left ◌>>=◌
dial_loop_late zero s start last w h = rw h refl
dial_loop_late (suc n) s start last w h = rw h refl

dial_loop_connected :
    (n : ℕ) (s : Ssh) (start : ℕ) (last : Option Error) (w : World) (u : Unit {0})
    → time_left w s start ≡ true
    → w.answer w.history (ssh_dial s) ≡ success u
    → dial_loop (suc n) s start last w ≡ (ok (some s), after_success w s)
unfolding dial_loop dialed time_left after_success attempt ◌>>=◌
dial_loop_connected n s start last w u h q = rw (h, q) refl

dial_loop_again :
    (n : ℕ) (s : Ssh) (start : ℕ) (last : Option Error) (w : World) (e : Error)
    → time_left w s start ≡ true
    → w.answer w.history (ssh_dial s) ≡ failure e
    → dial_loop (suc n) s start last w ≡ dial_loop n s start (some e) (after_round w s)
unfolding dial_loop dialed time_left after_round attempt ◌>>=◌
dial_loop_again n s start last w e h q = rw (h, q) refl

Result-cases : (r : Result (Unit {0})) → (r ≡ success tt) ⊎ ((e : Error) × (r ≡ failure e))
Result-cases (success u) = inl refl
Result-cases (failure e) = inr (e, refl)

give_up_ends : (last : Option Error) (w : World) → (give_up last w).0 ≢ hang
unfolding give_up ◌>>=◌
give_up_ends none w h = cc
give_up_ends (some e) w h = cc

give_up-attempts : (last : Option Error) (w : World) → (give_up last w).1 ≡ w
unfolding give_up ◌>>=◌
give_up-attempts none w = refl
give_up-attempts (some e) w = refl

module _ (s : Ssh) (start T i : ℕ) (timeout : s.retry_timeout ≡ pos T)
    (interval : s.retry_interval ≡ pos (suc i)) where
  time_left-test : (w : World) → time_left w s start ≡ ltb (w.clock w.history - start) T
  unfolding time_left before_timeout
  time_left-test w = rw timeout refl

  passes :
      (w : World) → Runs w.clock → w.clock w.history + suc i ≤ w.clock (after_round w s).history
  unfolding after_round
  passes w r =
      rw interval
        (omega (arith, r.onwards w.history (ssh_dial s), r.pauses (ssh_dial s ∷ w.history) (suc i)))

  loop_ends :
      (n : ℕ) (last : Option Error) (w : World)
      → Runs w.clock
      → start + T ≤ w.clock w.history + n
      → (dial_loop n s start last w).0 ≢ hang
  unfolding after_round
  loop_ends zero last w r h =
      rw (dial_loop_late zero s start last w (time_left-test w ∙ ground arith))
        (give_up_ends last w)
  loop_ends (suc n) last w r h = elim (Bool-cases (time_left w s start)) [
    | inr over ↦ rw (dial_loop_late (suc n) s start last w over) (give_up_ends last w)
    | inl left ↦ elim (Result-cases (w.answer w.history (ssh_dial s))) [
      | inl up ↦ rw (dial_loop_connected n s start last w tt left up) (λ q. cc)
      | inr (e, down) ↦
          rw (dial_loop_again n s start last w e left down)
            (loop_ends n (some e) (after_round w s) r (omega (arith, passes w r)))
    ]
  ]

  loop_attempts :
      (n k : ℕ) (last : Option Error) (w : World)
      → Runs w.clock
      → start + T ≤ w.clock w.history + k * suc i
      → attempts (dial_loop n s start last w).1.history ≤ attempts w.history + k
  unfolding dial_loop time_left after_round after_success attempts
  loop_attempts n zero last w r h =
      rw
        (dial_loop_late n s start last w (time_left-test w ∙ ground arith), give_up-attempts last w)
        (omega arith)
  loop_attempts zero (suc k) last w r h = elim (Bool-cases (time_left w s start)) [
    | inr over ↦ rw (dial_loop_late zero s start last w over, give_up-attempts last w) (omega arith)
    | inl left ↦ rw left (omega arith)
  ]
  loop_attempts (suc n) (suc k) last w r h = elim (Bool-cases (time_left w s start)) [
    | inr over ↦
        rw (dial_loop_late (suc n) s start last w over, give_up-attempts last w) (omega arith)
    | inl left ↦ elim (Result-cases (w.answer w.history (ssh_dial s))) [
      | inl up ↦ rw (dial_loop_connected n s start last w tt left up) (omega arith)
      | inr (e, down) ↦ rw (dial_loop_again n s start last w e left down) (
          let fewer =
            loop_attempts n k (some e) (after_round w s) r
              (omega (arith, suc-mul k (suc i), passes w r)) in
          omega (arith, fewer))
    ]
  ]

-- Where the retry timeout is at least 0, the retry interval is above 0, and time passes with every
-- dial and pause, an interval at the least, Connect of an SSH transport ends: the rounds followed
-- are enough, whatever the dials answer.
pub connect_ssh_ends :
    (s : Ssh) (T i : ℕ) (w : World)
    → s.retry_timeout ≡ pos T
    → s.retry_interval ≡ pos (suc i)
    → Runs w.clock
    → (connect_ssh s w).0 ≢ hang
unfolding connect_ssh rounds_of ◌>>=◌
connect_ssh_ends s T i w timeout interval r =
    loop_ends s (w.clock w.history) T i timeout interval (rounds_of s.retry_timeout) none w r
      (rw timeout (omega arith))

-- Where the retry timeout is at most k retry intervals, the interval is above 0, and time passes as
-- it should, Connect of an SSH transport dials at most k times.
pub connect_ssh-attempts :
    (s : Ssh) (T i k : ℕ) (w : World)
    → s.retry_timeout ≡ pos T
    → s.retry_interval ≡ pos (suc i)
    → Runs w.clock
    → T ≤ k * suc i
    → attempts (connect_ssh s w).1.history ≤ attempts w.history + k
unfolding connect_ssh ◌>>=◌
connect_ssh-attempts s T i k w timeout interval r h =
    loop_attempts s (w.clock w.history) T i timeout interval (rounds_of s.retry_timeout) k none w r
      (omega (arith, h))
