-- ===== src/Base/Exec/Keeps.antt =====
-- Invariants of actions, one rule for each way to build an action. They hold whatever the outcome.
use mathlib.Core.Path.{◌≡◌, refl, subst, sym}
use mathlib.Core.Bool.{Bool, true, false}
use mathlib.Core.Option.{Option, none, some}
use Prim.Native.String.{String}
use libflexkube.Base.Tests.{if◌then◌else◌}
use libflexkube.Base.Fault.{Error, Result}
use libflexkube.Base.Exec.{
  Exec, Outcome, ok, err, panic, hang, pure, fail, abort, lift, must, gets, wrap, wrap_arg, caught,
  error_of_call, settled, try, modify, continue, deferred, ◌>>=◌,
}

pub record Keeps {ℓ κ μ} {S : Type ℓ} {A : Type κ} (P : S → Type μ) (m : Exec S A)
    : Type (ℓ ⊔ μ) where
  pub at : (s : S) → P s → P (m s).1

module _ {ℓ κ μ} {S : Type ℓ} {A : Type κ} where
  caught-state : (P : S → Type μ) (r : Outcome A) (s : S) → P s → P (caught r s).1
  caught-state P (ok a) s h = h
  caught-state P (err e) s h = h
  caught-state P panic s h = h
  caught-state P hang s h = h

  settled-state : (P : S → Type μ) (r : Outcome A) (s : S) → P s → P (settled r s).1
  settled-state P (ok a) s h = h
  settled-state P (err e) s h = h
  settled-state P panic s h = h
  settled-state P hang s h = h

module _ {ℓ κ μ} {S : Type ℓ} {A : Type κ} {P : S → Type μ} where
  pub Keeps-pure : (a : A) → Keeps P (pure a)
  unfolding ◌>>=◌
  Keeps-pure a = record { at = λ s h. h }

  pub Keeps-gets : (f : S → A) → Keeps P (gets f)
  unfolding ◌>>=◌
  Keeps-gets f = record { at = λ s h. h }

  pub Keeps-fail : (e : Error) → Keeps P (fail {A = A} e)
  unfolding ◌>>=◌
  Keeps-fail e = record { at = λ s h. h }

  pub Keeps-abort : Keeps P (abort {A = A})
  unfolding ◌>>=◌
  Keeps-abort = record { at = λ s h. h }

  pub Keeps-lift : (r : Result A) → Keeps P (lift r)
  unfolding ◌>>=◌
  Keeps-lift r = record { at = λ s h. h }

  pub Keeps-must : (p : Option A) → Keeps P (must p)
  unfolding ◌>>=◌
  Keeps-must none = record { at = λ s h. h }
  Keeps-must (some a) = record { at = λ s h. h }

  pub Keeps-wrap : (text : String) (m : Exec S A) → Keeps P m → Keeps P (wrap text m)
  unfolding ◌>>=◌
  Keeps-wrap text m k = record { at = λ s h. k.at s h }

  pub Keeps-wrap_arg :
      (text arg : String) (m : Exec S A) → Keeps P m → Keeps P (wrap_arg text arg m)
  unfolding ◌>>=◌
  Keeps-wrap_arg text arg m k = record { at = λ s h. k.at s h }

  pub Keeps-error_of_call : (m : Exec S A) → Keeps P m → Keeps P (error_of_call m)
  unfolding ◌>>=◌
  Keeps-error_of_call m k = record { at = λ s h. caught-state P (m s).0 (m s).1 (k.at s h) }

  pub Keeps-try : (m : Exec S A) → Keeps P m → Keeps P (try m)
  unfolding ◌>>=◌
  Keeps-try m k = record { at = λ s h. settled-state P (m s).0 (m s).1 (k.at s h) }

  pub Keeps-if :
      (test : Bool) (body other : Exec S A)
      → (test ≡ true → Keeps P body)
      → (test ≡ false → Keeps P other)
      → Keeps P (if test then body else other)
  Keeps-if true body other then_kept else_kept = then_kept refl
  Keeps-if false body other then_kept else_kept = else_kept refl

  pub Keeps-option {ν} :
      {B : Type ν} (p : Option B) (m : Exec S A) (f : B → Exec S A)
      → (p ≡ none → Keeps P m)
      → ((b : B) → p ≡ some b → Keeps P (f b))
      → Keeps P (elim p as (λ q. Exec S A) [ none ↦ m | some b ↦ f b ])
  Keeps-option none m f km kf = km refl
  Keeps-option (some b) m f km kf = kf b refl

pub Keeps-modify {ℓ κ} :
    {S : Type ℓ} {P : S → Type κ} (f : S → S) → ((s : S) → P s → P (f s)) → Keeps P (modify f)
unfolding ◌>>=◌
Keeps-modify f k = record { at = k }

module _ {ℓ κ μ ν} {S : Type ℓ} {A : Type κ} {B : Type ν} {P : S → Type μ} where
  continue-state :
      (r : Outcome A) (f : A → Exec S B) (s : S)
      → P s
      → ((a : A) → Keeps P (f a))
      → P (continue r f s).1
  continue-state (ok a) f s h k = (k a).at s h
  continue-state (err e) f s h k = h
  continue-state panic f s h k = h
  continue-state hang f s h k = h

  pub Keeps-bind :
      (m : Exec S A) (rest : A → Exec S B)
      → Keeps P m
      → ((a : A) → Keeps P (rest a))
      → Keeps P (m >>= rest)
  unfolding ◌>>=◌
  Keeps-bind m rest first after = record {
    at = λ s h. continue-state (m s).0 rest (m s).1 (first.at s h) after;
  }

  -- A part of the state that the invariant fixes.
  pub Keeps-bind-gets :
      (get : S → A) (f : A → Exec S B) (a : A)
      → ((s : S) → P s → get s ≡ a)
      → Keeps P (f a)
      → Keeps P (gets get >>= f)
  unfolding ◌>>=◌
  Keeps-bind-gets get f a e k = record {
    at = λ s h. subst (λ b. P (f b s).1) (sym (e s h)) (k.at s h);
  }

  pub Keeps-deferred :
      (cleanup : Exec S B) (body : Exec S A)
      → Keeps P cleanup
      → Keeps P body
      → Keeps P (deferred cleanup body)
  unfolding ◌>>=◌
  Keeps-deferred cleanup body kc kb = record { at = λ s h. kc.at (body s).1 (kb.at s h) }

pub ruleset keeps_rules = (
  Keeps-pure, Keeps-fail, Keeps-abort, Keeps-lift, Keeps-gets, Keeps-must, Keeps-wrap,
  Keeps-wrap_arg, Keeps-error_of_call, Keeps-try, Keeps-if, Keeps-option, Keeps-bind,
  Keeps-deferred,
)
