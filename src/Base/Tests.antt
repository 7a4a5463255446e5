-- ===== src/Base/Tests.antt =====
-- The conditional, case lemmas, and a predicates on the items of a list.
use Prim.Native.Nat.{ℕ, compare, Ordering}
use Prim.Native.String
use Prim.Native.String.{String}
use mathlib.Core.Path.{◌≡◌, refl, sym, subst}
use mathlib.Core.Logic.{◌⊎◌, inl, inr}
use mathlib.Core.Bool.{Bool, true, false}
use mathlib.Core.Option.{Option, none, some}
use mathlib.Core.List.{List, [], ◌∷◌}

infix 1 if◌then◌else◌
abbrev pub if◌then◌else◌ {ℓ} : {A : Type ℓ} → Bool → A → A → A
if true then x else y = x
if false then x else y = y

-- a == b on numbers
abbrev pub nat_eq : ℕ → ℕ → Bool
nat_eq a b = elim (compare a b) [ Ordering.eq ↦ true | _ ↦ false ]

-- a < b on numbers
abbrev pub ltb : ℕ → ℕ → Bool
ltb a b = elim (compare a b) [ Ordering.lt ↦ true | _ ↦ false ]

-- To split on a computed value and keep the equation.
pub Bool-cases : (b : Bool) → (b ≡ true) ⊎ (b ≡ false)
Bool-cases true = inl refl
Bool-cases false = inr refl

pub Option-cases {ℓ} : {A : Type ℓ} (o : Option A) → (o ≡ none) ⊎ ((a : A) × (o ≡ some a))
Option-cases none = inl refl
Option-cases (some a) = inr (a, refl)

-- len(l) == 0 of a slice or a map.
abbrev pub is_empty {ℓ} : {A : Type ℓ} → List A → Bool
is_empty [] = true
is_empty (x ∷ xs) = false

abbrev pub is_some {ℓ} : {A : Type ℓ} → Option A → Bool
is_some none = false
is_some (some a) = true

-- a + b on texts, and fmt.Sprintf("%s%s", a, b)
abbrev pub append : String → String → String
append a b = String.◌++◌ a b

abbrev pub All {ℓ κ} : {A : Type ℓ} → (A → Type κ) → List A → Type κ
All P [] = Unit
All P (x ∷ xs) = P x × All P xs

abbrev pub Any {ℓ} : {A : Type ℓ} → (A → Type 0) → List A → Type 0
Any P [] = ⊥
Any P (x ∷ xs) = P x ⊎ Any P xs

-- The element that there is, and what this says of it.
pub some_of_Any :
    {A : Type 0} (P : A → Type 0) (xs : List A) → Any P xs → (x : A) × P x × Any (λ y. y ≡ x) xs
some_of_Any P [] h = absurd h
some_of_Any P (x ∷ xs) (inl p) = (x, p, inl refl)
some_of_Any P (x ∷ xs) (inr h) = let (y, p, there) = some_of_Any P xs h in (y, p, inr there)

pub Any-of_some :
    {A : Type 0} (P : A → Type 0) (x : A) (xs : List A) → P x → Any (λ y. y ≡ x) xs → Any P xs
Any-of_some P x [] p h = absurd h
Any-of_some P x (y ∷ ys) p (inl same) = inl (subst P (sym same) p)
Any-of_some P x (y ∷ ys) p (inr there) = inr (Any-of_some P x ys p there)
