-- ===== src/Util/Picks.antt =====
-- What the pickers and the sorted keys return (internal/util/util.go).
use libflexkube.Base.{
  String, List, [], ◌∷◌, ◌++◌, ◌==◌, arith, ◌≡◌, ◌≢◌, refl, ap, ◌||◌, eq_iff, All, ◌⊎◌, inl, inr,
  Bool-cases,
}
use libflexkube.Base.Map.{Map, keys, contains, has, has-keys}
use libflexkube.Util.{pick_string, insert_sorted, sort_strings, keys_string_map}

abbrev IsFirst : List String → String → Type 0
IsFirst values x =
    ((x ≡ "") × All (λ v. v ≡ "") values)
    ⊎ ((before after : List String) × (values ≡ before ++ x ∷ after)
        × All (λ v. v ≡ "") before
        × (x ≢ ""))

after_blank :
    (v : String) (values : List String) {x : String}
    → v ≡ ""
    → IsFirst values x
    → IsFirst (v ∷ values) x
after_blank v values e (inl h) = inl (h.0, (e, h.1))
after_blank v values e (inr (before, after, p, b, n)) =
    inr (v ∷ before, after, ap (λ l. v ∷ l) p, (e, b), n)

-- The picked text is the first that is not empty: it stands behind empty texts only, and is empty
-- itself only if all are.
pub pick_string_first :
    (values : List String)
    → ((pick_string values ≡ "") × All (λ v. v ≡ "") values)
      ⊎ ((before after : List String) × (values ≡ before ++ pick_string values ∷ after)
          × All (λ v. v ≡ "") before
          × (pick_string values ≢ ""))
unfolding pick_string
pick_string_first [] = inl (refl, tt)
pick_string_first (v ∷ values) = elim (Bool-cases (v == "")) [
  | inl blank ↦ rw blank (after_blank v values ((eq_iff v "").0 blank) (pick_string_first values))
  | inr set ↦ rw set (inr ([], values, refl, tt, λ e. cc (set, (eq_iff v "").1 e)))
]

contains-insert_sorted :
    (k : String) (js : List String) (j : String)
    → contains (insert_sorted k js) j ≡ ((k == j) || contains js j)
unfolding contains insert_sorted
contains-insert_sorted k [] j = ground arith
contains-insert_sorted k (i ∷ js) j = ground (arith, contains-insert_sorted k js j)

contains-sort_strings :
    (ks : List String) (j : String) → contains (sort_strings ks) j ≡ contains ks j
unfolding contains sort_strings
contains-sort_strings [] j = refl
contains-sort_strings (k ∷ ks) j =
    ground (arith, contains-insert_sorted k (sort_strings ks) j, contains-sort_strings ks j)

-- The sorted keys of a map are its keys: a name is among them exactly when the map has it.
pub contains-keys_string_map {ℓ} :
    {V : Type ℓ} (m : Map V) (k : String) → contains (keys_string_map m) k ≡ has m k
unfolding keys_string_map
contains-keys_string_map m k = ground (arith, contains-sort_strings (keys m) k, has-keys m k)
