-- ===== src/Host/Ssh/Relay/Accepting.antt =====
-- What forwardConnection keeps track of (pkg/host/transport/ssh/ssh.go).
use libflexkube.Base.{ℕ, ◌+◌, ◌≤◌, Bool, true, false, ◌≡◌, refl, arith}
use libflexkube.Host.Ssh.Relay.{
  Phase, accepting, dialing, ended, Relay, relay, listening, RelayStep, accepts, accept_fails,
  dials, dial_fails, Steps, here, next,
}

-- The connections that are being dialed for.
abbrev pub pending : Phase → ℕ
pending accepting = 0
pending dialing = 1
pending ended = 0

abbrev pub is_open : Phase → Bool
is_open accepting = true
is_open dialing = true
is_open ended = false

abbrev pub most_lost : Phase → ℕ
most_lost accepting = 0
most_lost dialing = 0
most_lost ended = 1

-- The listener is open exactly while the loop runs; an accepted connection is being dialed for,
-- handled or lost, and at most one is lost, at the end.
abbrev pub IsAccounted : Relay → Type 0
IsAccounted (relay p o n h l) = (o ≡ is_open p) × (n ≡ pending p + h + l) × (l ≤ most_lost p)

RelayStep-IsAccounted : {s t : Relay} → RelayStep s t → IsAccounted s → IsAccounted t
RelayStep-IsAccounted accepts h = (h.0, omega (arith, h.1), h.2)
RelayStep-IsAccounted accept_fails h = (refl, omega (arith, h.1), omega (arith, h.2))
RelayStep-IsAccounted dials h = (h.0, omega (arith, h.1), h.2)
RelayStep-IsAccounted dial_fails h = (refl, omega (arith, h.1), omega (arith, h.2))

Steps-IsAccounted : {s t : Relay} → IsAccounted s → Steps RelayStep s t → IsAccounted t
Steps-IsAccounted h here = h
Steps-IsAccounted h (next r st) = RelayStep-IsAccounted st (Steps-IsAccounted h r)

-- In every state that forwardConnection reaches, its listener is open exactly while the loop runs,
-- each accepted connection is being dialed for, handed to a handler or lost, and at most one is
-- lost, which happens when the loop ends.
pub forward_connection-IsAccounted :
    (p : Phase) (o : Bool) (n h l : ℕ)
    → Steps RelayStep listening (relay p o n h l)
    → (o ≡ is_open p) × (n ≡ pending p + h + l) × (l ≤ most_lost p)
forward_connection-IsAccounted p o n h l r =
    Steps-IsAccounted {s = listening} (refl, refl, omega arith) r
