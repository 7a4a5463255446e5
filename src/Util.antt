-- ===== src/Util.antt =====
-- internal/util/util.go and internal/util/validate.go: first non-empty value, sorted keys, and the
-- collection of validation errors.
pub mod Picks
pub mod Errors
use Prim.Native.String.{compare}
use libflexkube.Base.{
  ℕ, String, Bool, true, false, not, Option, none, some, List, [], ◌∷◌, ◌==◌, if◌then◌else◌,
  is_empty, append,
}
use libflexkube.Base.Map.{Map, keys, lookup}
use libflexkube.Base.Fault.{Error, validate, errors_of}
use text.Mathlib.Text.{is_le}

-- Go's `int`; `negsuc n` is -(n + 1).
pub data ℤ : Type 0 where
  pos : ℕ → ℤ
  negsuc : ℕ → ℤ

abbrev pub is_zero : ℤ → Bool
is_zero (pos ℕ.zero) = true
is_zero (pos (ℕ.suc n)) = false
is_zero (negsuc n) = false

unfoldable pub pick_string : List String → String
pick_string [] = ""
pick_string (v ∷ values) = if not (v == "") then v else pick_string values

unfoldable pub pick_string_slice {ℓ} : {A : Type ℓ} → List (List A) → List A
pick_string_slice [] = []
pick_string_slice (v ∷ values) = if not (is_empty v) then v else pick_string_slice values

unfoldable pub pick_string_map : List (Map String) → Map String
pick_string_map [] = []
pick_string_map (v ∷ values) = if not (is_empty v) then v else pick_string_map values

unfoldable pub pick_int : List ℤ → ℤ
pick_int [] = pos 0
pick_int (v ∷ values) = if not (is_zero v) then v else pick_int values

-- sort.Strings
unfoldable pub insert_sorted : String → List String → List String
insert_sorted k [] = k ∷ []
insert_sorted k (j ∷ js) =
    let rest = insert_sorted k js in if is_le (compare k j) then k ∷ j ∷ js else j ∷ rest

unfoldable pub sort_strings : List String → List String
unfolding insert_sorted
sort_strings [] = []
sort_strings (k ∷ ks) = insert_sorted k (sort_strings ks)

unfoldable pub keys_string_map {ℓ} : {V : Type ℓ} → Map V → List String
keys_string_map m = sort_strings (keys m)

-- The value of a string map at a key, "" where there is none.
value_at : Map String → String → String
value_at m k = elim (lookup m k) [ none ↦ "" | some v ↦ v ]

-- The loop of util.JoinSorted, and strings.Join of what it collects
unfoldable pub join_pairs : Map String → String → String → List String → String
unfolding value_at
join_pairs m value_separator key_separator [] = ""
join_pairs m value_separator key_separator (k ∷ []) =
    append k (append value_separator (value_at m k))
join_pairs m value_separator key_separator (k ∷ j ∷ ks) = append k (
    append value_separator (
      append (value_at m k)
        (append key_separator (join_pairs m value_separator key_separator (j ∷ ks)))))

-- util.JoinSorted
unfoldable pub join_sorted : Map String → String → String → String
join_sorted m value_separator key_separator =
    join_pairs m value_separator key_separator (keys_string_map m)

-- strings.Join(texts, ",")
unfoldable pub join_commas : List String → String
join_commas [] = ""
join_commas (t ∷ []) = t
join_commas (t ∷ u ∷ ts) = append t (append "," (join_commas (u ∷ ts)))

-- ValidateErrors.Return: nil, if no errors have been added.
unfoldable pub return_errors : List Error → Option Error
return_errors [] = none
return_errors (e ∷ es) = some (validate e (errors_of es))
