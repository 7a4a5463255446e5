-- ===== src/Base/Fault.antt =====
-- Go's `error` values. An error keeps the format string and the arguments that `fmt.Errorf` was
-- given, so that no two messages are confused; its text is made by `fmt`.
use Prim.Native.String.{String}
use mathlib.Core.Path.{◌≡◌, refl}
use mathlib.Core.Logic.{◌⊎◌, inl, inr}
use mathlib.Core.Bool.{Bool, true, false}
use mathlib.Core.Option.{Option, none, some}
use mathlib.Core.List.{List, [], ◌∷◌}

mutual
  pub data Error : Type 0 where
    -- An error of code that is not in the repository; the Docker client marks some as "not found".
    external : String → Error
    not_found : String → Error
    -- fmt.Errorf("text"), fmt.Errorf("text %q", name)
    errorf : String → Error
    errorf_arg : String → String → Error
    -- fmt.Errorf("text: %w", err), fmt.Errorf("text %q: %w", name, err)
    wrapf : String → Error → Error
    wrapf_arg : String → String → Error → Error
    -- A value of `util.ValidateErrors`, which is not empty.
    validate : Error → Errors → Error

  pub data Errors : Type 0 where
    end : Errors
    more : Error → Errors → Errors

-- The result of a Go function with results (A, error).
pub data Result {ℓ} (A : Type ℓ) : Type ℓ where
  success : A → Result A
  failure : Error → Result A

abbrev pub is_success {ℓ} : {A : Type ℓ} → Result A → Bool
is_success (success a) = true
is_success (failure e) = false

-- client.IsErrNotFound
abbrev pub is_err_not_found : Error → Bool
is_err_not_found (not_found text) = true
is_err_not_found e = false

abbrev pub wrap_result {ℓ} : {A : Type ℓ} → String → Result A → Result A
wrap_result text (success a) = success a
wrap_result text (failure e) = failure (wrapf text e)

abbrev pub error_list : Errors → List Error
error_list end = []
error_list (more e es) = e ∷ error_list es

abbrev pub errors_of : List Error → Errors
errors_of [] = end
errors_of (e ∷ es) = more e (errors_of es)

-- One error appended, or none.
abbrev pub error_if : Bool → Error → List Error
error_if true e = e ∷ []
error_if false e = []

abbrev pub error_of {ℓ} : {A : Type ℓ} → (Error → Error) → Result A → List Error
error_of f (success a) = []
error_of f (failure e) = f e ∷ []

abbrev pub to_option {ℓ} : {A : Type ℓ} → Result A → Option A
to_option (success a) = some a
to_option (failure e) = none

-- The error of a check, if there is one.
abbrev pub option_error : (Error → Error) → Option Error → List Error
option_error f none = []
option_error f (some e) = f e ∷ []

-- To split on a result and keep the equation.
pub Result-cases :
    {A : Type 0} (r : Result A) → ((a : A) × (r ≡ success a)) ⊎ ((e : Error) × (r ≡ failure e))
Result-cases (success a) = inl (a, refl)
Result-cases (failure e) = inr (e, refl)

pub success-injective {ℓ} : {A : Type ℓ} (a b : A) → success a ≡ success b → a ≡ b
success-injective a b e = cc
