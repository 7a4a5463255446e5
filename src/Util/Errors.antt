-- ===== src/Util/Errors.antt =====
-- When a collection of validation errors is empty (internal/util/validate.go).
use libflexkube.Base.{none, List, [], ◌∷◌, ◌++◌, ◌≡◌, refl}
use libflexkube.Base.Fault.{Error}
use libflexkube.Util.{return_errors}

pub parts_empty : {A : Type 0} (xs ys : List A) → xs ++ ys ≡ [] → (xs ≡ []) × (ys ≡ [])
parts_empty [] ys q = (refl, q)
parts_empty (x ∷ xs) ys q = absurd (cc)

pub nothing_returned : (es : List Error) → return_errors es ≡ none → es ≡ []
unfolding return_errors
nothing_returned [] q = refl
nothing_returned (e ∷ es) q = cc

pub all_returned : (es : List Error) → es ≡ [] → return_errors es ≡ none
unfolding return_errors
all_returned [] q = refl
all_returned (e ∷ es) q = cc

pub not_longer : {A : Type 0} (xs : List A) (x : A) → xs ++ x ∷ [] ≡ [] → ⊥
not_longer [] x q = cc
not_longer (y ∷ ys) x q = cc
