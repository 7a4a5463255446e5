-- ===== src/Base/Exec/Success.antt =====
-- What the success of a composed action says of its parts.
use mathlib.Core.Path.{◌≡◌, refl}
use Prim.Native.String.{String}
use libflexkube.Base.Fault.{Error, Result, success, wrapf}
use libflexkube.Base.Exec.{
  Exec, Outcome, ok, err, panic, hang, wrap, try, settled, continue, map_err, fail, ◌>>=◌,
}

module _ {S A B : Type 0} (f : A → Exec S B) (b : B) where
  continues_ok :
      (r : Outcome A) (m : S)
      → (continue r f m).0 ≡ ok b
      → (a : A) × (r ≡ ok a) × ((f a m).0 ≡ ok b)
  continues_ok (ok a) m q = (a, refl, q)
  continues_ok (err e) m q = cc
  continues_ok panic m q = cc
  continues_ok hang m q = cc

  -- A success of a chain of two actions is one of both.
  pub bind_ok :
      (x : Exec S A) (m : S)
      → ((x >>= f) m).0 ≡ ok b
      → (a : A) × ((x m).0 ≡ ok a) × ((f a (x m).1).0 ≡ ok b)
  unfolding ◌>>=◌
  bind_ok x m q = continues_ok (x m).0 (x m).1 q

pub failed_ok : {S A : Type 0} (e : Error) (s : S) (a : A) → (fail {S = S} e s).0 ≡ ok a → ⊥
unfolding ◌>>=◌
failed_ok e s a q = cc

module _ {S A : Type 0} where
  -- What the success of a call says of the call without its wrapping.
  pub wrap_ok :
      (text : String) (x : Exec S A) (m : S) (a : A) → (wrap text x m).0 ≡ ok a → (x m).0 ≡ ok a
  unfolding ◌>>=◌
  wrap_ok text x m a q = go (x m).0 q
    where
      go : (r : Outcome A) → map_err (wrapf text) r ≡ ok a → r ≡ ok a
      go (ok b) q = q
      go (err e) q = cc
      go panic q = cc
      go hang q = cc

  pub try_ok :
      (x : Exec S A) (m : S) (r : Result A)
      → (try x m).0 ≡ ok r
      → (a : A) → r ≡ success a
      → (x m).0 ≡ ok a
  unfolding ◌>>=◌
  try_ok x m r q a s = go (x m).0 (x m).1 q
    where
      go : (o : Outcome A) (m' : S) → (settled o m').0 ≡ ok r → o ≡ ok a
      go (ok b) m' q = cc
      go (err e) m' q = cc
      go panic m' q = cc
      go hang m' q = cc
