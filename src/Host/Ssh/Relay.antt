-- ===== src/Host/Ssh/Relay.antt =====
-- The goroutines behind a forwarded socket as step relations (pkg/host/transport/ssh/ssh.go):
-- handleClient with its two copiers, and the accepting loop of forwardConnection. Data, and when a
-- copy, an accept or a dial returns, are the environment's choice.
use libflexkube.Base.{ℕ, zero, suc, Bool, true, false}
pub mod Handlers
pub mod Accepting

-- A goroutine of handleClient: it copies, then waits for its report on the unbuffered channel to be
-- received, then has ended.
pub data Copier : Type 0 where
  copying reporting finished : Copier

-- handleClient itself: it waits for one report, then closes both connections and returns.
pub data Waiter : Type 0 where
  waiting closed : Waiter

-- The copiers remote to local and local to remote, and the function that started them.
pub data Handler : Type 0 where
  handler : Copier → Copier → Waiter → Handler

abbrev pub started : Handler
started = handler copying copying waiting

pub data HandlerStep : Handler → Handler → Type 0 where
  -- io.Copy returns
  first_returns :
      {u : Copier} {m : Waiter} → HandlerStep (handler copying u m) (handler reporting u m)
  second_returns :
      {d : Copier} {m : Waiter} → HandlerStep (handler d copying m) (handler d reporting m)
  -- chDone <- true meets <-chDone, and the deferred function closes both connections
  first_reports :
      {u : Copier} → HandlerStep (handler reporting u waiting) (handler finished u closed)
  second_reports :
      {d : Copier} → HandlerStep (handler d reporting waiting) (handler d finished closed)

-- Where forwardConnection is.
pub data Phase : Type 0 where
  accepting dialing ended : Phase

-- Its phase, whether its listener is open, the connections accepted, those handed to handleClient,
-- and those that were neither handed on nor closed.
pub data Relay : Type 0 where
  relay : Phase → Bool → ℕ → ℕ → ℕ → Relay

abbrev pub listening : Relay
listening = relay accepting true 0 0 0

pub data RelayStep : Relay → Relay → Type 0 where
  -- listener.Accept
  accepts :
      {n h l : ℕ} {o : Bool} → RelayStep (relay accepting o n h l) (relay dialing o (suc n) h l)
  accept_fails :
      {n h l : ℕ} {o : Bool} → RelayStep (relay accepting o n h l) (relay ended false n h l)
  -- connection.Dial
  dials : {n h l : ℕ} {o : Bool} → RelayStep (relay dialing o n h l) (relay accepting o n (suc h) l)
  dial_fails :
      {n h l : ℕ} {o : Bool} → RelayStep (relay dialing o n h l) (relay ended false n h (suc l))

pub data Steps {S : Type 0} (Step : S → S → Type 0) (s : S) : S → Type 0 where
  here : Steps Step s s
  next : {t u : S} → Steps Step s t → Step t u → Steps Step s u
