-- ===== src/Base/Exec/Ensures.antt =====
-- What holds after an action that returns no error: a rule for each way to build an action.
use mathlib.Core.Path.{◌≡◌, refl, subst, sym, ap}
use mathlib.Core.Bool.{Bool, true, false}
use mathlib.Core.Option.{Option, none, some}
use Prim.Native.String.{String}
use libflexkube.Base.Tests.{if◌then◌else◌}
use libflexkube.Base.Fault.{Error}
use libflexkube.Base.Exec.{
  Exec, Outcome, ok, err, panic, hang, pure, fail, abort, must, gets, wrap, wrap_arg, map_err,
  continue, ◌>>=◌,
}
use libflexkube.Base.Exec.Keeps.{Keeps}

-- From a state with `P`, a successful `m` ends with `Q` of its result and its state.
pub record Ensures {ℓ κ μ ν} {S : Type ℓ} {A : Type κ} (P : S → Type μ) (m : Exec S A)
    (Q : A → S → Type ν) : Type (ℓ ⊔ κ ⊔ μ ⊔ ν) where
  pub at : (s : S) → P s → (a : A) → (m s).0 ≡ ok a → Q a (m s).1

pub ok-injective {ℓ} : {A : Type ℓ} (a b : A) → ok a ≡ ok b → a ≡ b
ok-injective a b e = cc

ok_of_map_err {ℓ} :
    {A : Type ℓ} (f : Error → Error) (r : Outcome A) (a : A) → map_err f r ≡ ok a → r ≡ ok a
ok_of_map_err f (ok b) a h = h
ok_of_map_err f (err e) a h = cc
ok_of_map_err f panic a h = cc
ok_of_map_err f hang a h = cc

module _ {ℓ κ μ ν} {S : Type ℓ} {A : Type κ} {P : S → Type μ} {Q : A → S → Type ν} where
  pub Ensures-fail : (e : Error) → Ensures P (fail e) Q
  unfolding ◌>>=◌
  Ensures-fail e = record { at = λ s h a q. cc }

  pub Ensures-abort : Ensures P abort Q
  unfolding ◌>>=◌
  Ensures-abort = record { at = λ s h a q. cc }

  pub Ensures-if :
      (b : Bool) (m n : Exec S A)
      → (b ≡ true → Ensures P m Q)
      → (b ≡ false → Ensures P n Q)
      → Ensures P (if b then m else n) Q
  Ensures-if true m n km kn = km refl
  Ensures-if false m n km kn = kn refl

  pub Ensures-wrap : (text : String) (m : Exec S A) → Ensures P m Q → Ensures P (wrap text m) Q
  unfolding ◌>>=◌
  Ensures-wrap text m k = record { at = λ s h a q. k.at s h a (ok_of_map_err _ (m s).0 a q) }

  pub Ensures-wrap_arg :
      (text arg : String) (m : Exec S A) → Ensures P m Q → Ensures P (wrap_arg text arg m) Q
  unfolding ◌>>=◌
  Ensures-wrap_arg text arg m k = record {
    at = λ s h a q. k.at s h a (ok_of_map_err _ (m s).0 a q);
  }

-- Two statements about one action.
pub Ensures-and {ℓ κ μ ν μ' ν'} :
    {S : Type ℓ} {A : Type κ} {P : S → Type μ} {Q : A → S → Type ν} {P' : S → Type μ'}
    {Q' : A → S → Type ν'} (m : Exec S A)
    → Ensures P m Q
    → Ensures P' m Q'
    → Ensures (λ s. P s × P' s) m (λ a s. Q a s × Q' a s)
Ensures-and m k k' = record { at = λ s h a q. (k.at s h.0 a q, k'.at s h.1 a q) }

-- An action that keeps a predicate ensures it.
pub Ensures-of_Keeps {ℓ κ μ} :
    {S : Type ℓ} {A : Type κ} {P : S → Type μ} (m : Exec S A) → Keeps P m → Ensures P m (λ a s. P s)
Ensures-of_Keeps m k = record { at = λ s h a q. k.at s h }

pub Ensures-consequence {ℓ κ μ ν} :
    {S : Type ℓ} {A : Type κ} {P P' : S → Type μ} {Q Q' : A → S → Type ν} (m : Exec S A)
    → ((s : S) → P' s → P s)
    → ((a : A) (s : S) → Q a s → Q' a s)
    → Ensures P m Q
    → Ensures P' m Q'
Ensures-consequence m f g k = record { at = λ s h a q. g a _ (k.at s (f s h) a q) }

module _ {ℓ κ κ' ν} {S : Type ℓ} {A : Type κ} {B : Type κ'} where
  continue_ensures {ρ} :
      (Q : B → S → Type ν) {R : A → S → Type ρ} (r : Outcome A) (f : A → Exec S B) (s : S)
      → ((a : A) → r ≡ ok a → R a s)
      → ((a : A) → Ensures (R a) (f a) Q)
      → (b : B) → (continue r f s).0 ≡ ok b
      → Q b (continue r f s).1
  continue_ensures Q (ok a) f s h k b q = (k a).at s (h a refl) b q
  continue_ensures Q (err e) f s h k b q = cc
  continue_ensures Q panic f s h k b q = cc
  continue_ensures Q hang f s h k b q = cc

module _ {ℓ κ κ' μ ν} {S : Type ℓ} {A : Type κ} {B : Type κ'} {P : S → Type μ}
    {Q : B → S → Type ν} where
  pub Ensures-bind {ρ} :
      {R : A → S → Type ρ} (m : Exec S A) (f : A → Exec S B)
      → Ensures P m R
      → ((a : A) → Ensures (R a) (f a) Q)
      → Ensures P (m >>= f) Q
  unfolding ◌>>=◌
  Ensures-bind m f km kf = record {
    at = λ s h b q. continue_ensures Q (m s).0 f (m s).1 (km.at s h) kf b q;
  }

  -- A value that is read is the value of the state.
  pub Ensures-bind-gets :
      (get : S → A) (f : A → Exec S B)
      → ((a : A) → Ensures (λ s. P s × (get s ≡ a)) (f a) Q)
      → Ensures P (gets get >>= f) Q
  unfolding ◌>>=◌
  Ensures-bind-gets get f k = record { at = λ s h b q. (k (get s)).at s (h, refl) b q }

  -- A part of the state that is known.
  pub Ensures-bind-known :
      (get : S → A) (f : A → Exec S B) (a : A)
      → ((s : S) → P s → get s ≡ a)
      → Ensures P (f a) Q
      → Ensures P (gets get >>= f) Q
  unfolding ◌>>=◌
  Ensures-bind-known get f a e k = record {
    at = λ s h b q.
        subst (λ x. Q b (f x s).1) (sym (e s h))
          (k.at s h b (subst (λ x. (f x s).0 ≡ ok b) (e s h) q));
  }

pub Ensures-pure {ℓ κ μ ν} :
    {S : Type ℓ} {A : Type κ} {P : S → Type μ} {Q : A → S → Type ν} (a : A)
    → ((s : S) → P s → Q a s)
    → Ensures P (pure a) Q
unfolding ◌>>=◌
Ensures-pure {Q} a f = record { at = λ s h b e. subst (λ x. Q x s) (ok-injective a b e) (f s h) }

-- The value behind a pointer that is not nil.
pub Ensures-must {ℓ κ μ} :
    {S : Type ℓ} {A : Type κ} {P : S → Type μ} (p : Option A)
    → Ensures P (must p) (λ a s. P s × (p ≡ some a))
unfolding ◌>>=◌
Ensures-must none = record { at = λ s h a q. cc }
Ensures-must (some b) = record { at = λ s h a q. (h, ap some (ok-injective b a q)) }
