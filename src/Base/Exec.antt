-- ===== src/Base/Exec.antt =====
-- Functions that change a state and may return an error or panic. What was written before an error
-- stays written, so the state comes back beside every outcome.
pub mod Keeps
pub mod Ensures
pub mod Success
use Prim.Native.String.{String}
use mathlib.Core.Option.{Option, none, some}
use libflexkube.Base.Fault.{Error, wrapf, wrapf_arg, Result, success, failure}

pub data Outcome {ℓ} (A : Type ℓ) : Type ℓ where
  ok : A → Outcome A
  err : Error → Outcome A
  panic : Outcome A
  -- An execution that goes on longer than it is followed; the state beside it means nothing.
  hang : Outcome A

abbrev pub Exec {ℓ κ} : Type ℓ → Type κ → Type (ℓ ⊔ κ)
Exec S A = S → Outcome A × S

-- A function that returns an error only.
abbrev pub Action {ℓ} : Type ℓ → Type ℓ
Action S = Exec S (Unit {0})

module _ {ℓ} {A : Type ℓ} where
  abbrev pub of_result : Result A → Outcome A
  of_result (success a) = ok a
  of_result (failure e) = err e

  abbrev pub map_err : (Error → Error) → Outcome A → Outcome A
  map_err f (ok a) = ok a
  map_err f (err e) = err (f e)
  map_err f panic = panic
  map_err f hang = hang

module _ {ℓ κ} {S : Type ℓ} {A : Type κ} where
  pub pure : A → Exec S A
  pure a s = (ok a, s)

  -- return fmt.Errorf(…)
  pub fail : Error → Exec S A
  fail e s = (err e, s)

  pub abort : Exec S A
  abort s = (panic, s)

  -- The value behind a pointer, an interface or an index that must be there.
  pub must : Option A → Exec S A
  must none s = (panic, s)
  must (some a) s = (ok a, s)

  pub gets : (S → A) → Exec S A
  gets get s = (ok (get s), s)

  pub lift : Result A → Exec S A
  lift r s = (of_result r, s)

  -- if err := m(); err != nil { return fmt.Errorf("text: %w", err) }
  pub wrap : String → Exec S A → Exec S A
  wrap text m s = let (r, s') = m s in (map_err (wrapf text) r, s')

  pub wrap_arg : String → String → Exec S A → Exec S A
  wrap_arg text arg m s = let (r, s') = m s in (map_err (wrapf_arg text arg) r, s')

  abbrev pub caught : Outcome A → Exec S (Option Error)
  caught (ok a) s = (ok none, s)
  caught (err e) s = (ok (some e), s)
  caught panic s = (panic, s)
  caught hang s = (hang, s)

  -- `err := m()`, for a caller that goes on after an error.
  pub error_of_call : Exec S A → Exec S (Option Error)
  error_of_call m s = let (r, s') = m s in caught r s'

  abbrev pub settled : Outcome A → Exec S (Result A)
  settled (ok a) s = (ok (success a), s)
  settled (err e) s = (ok (failure e), s)
  settled panic s = (panic, s)
  settled hang s = (hang, s)

  -- `a, err := m()`, for a caller that looks at both.
  pub try : Exec S A → Exec S (Result A)
  try m s = let (r, s') = m s in settled r s'

-- An assignment.
pub modify {ℓ} : {S : Type ℓ} → (S → S) → Action S
modify f s = (ok tt, f s)

module _ {ℓ κ μ} {S : Type ℓ} {A : Type κ} {B : Type μ} where
  abbrev pub continue : Outcome A → (A → Exec S B) → Exec S B
  continue (ok a) rest s = rest a s
  continue (err e) rest s = (err e, s)
  continue panic rest s = (panic, s)
  continue hang rest s = (hang, s)

  -- defer m(): runs whatever the outcome of the body, and its own result is dropped.
  pub deferred : Exec S B → Exec S A → Exec S A
  deferred cleanup body s = let (r, s') = body s in (r, (cleanup s').1)

  infixl 5 ◌>>=◌ ◌>>◌
  -- Opening this opens the other ways to build an action.
  unfoldable pub ◌>>=◌ : Exec S A → (A → Exec S B) → Exec S B
  unfolding pure fail abort lift must gets wrap wrap_arg error_of_call try modify deferred
  ◌>>=◌ m rest s = let (result, after) = m s in continue result rest after

  abbrev pub ◌>>◌ : Exec S A → Exec S B → Exec S B
  m >> n = m >>= λ _. n

-- A call on a part of the state.
unfoldable pub zoom {ℓ κ μ} :
    {S : Type ℓ} {T : Type κ} {A : Type μ} → (S → T) → (S → T → S) → Exec T A → Exec S A
zoom get put m s = let (r, t) = m (get s) in (r, put s t)
