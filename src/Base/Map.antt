-- ===== src/Base/Map.antt =====
-- Go maps with string keys as association lists. The order of the entries is the order in which
-- `range` visits them; Go leaves it open, so theorems are stated for every list.
use libflexkube.Base.Tests.{if◌then◌else◌, is_some}
use mathlib.Core.Path.{◌≡◌, refl}
use mathlib.Core.Bool.{Bool, false, ◌||◌, ◌&&◌, not}
use mathlib.Core.Option.{Option, none, some}
use mathlib.Core.List.{List, [], ◌∷◌}
use Prim.Native.String.{String}
use native.Mathlib.Omega.{arith}
use text.Mathlib.Text.{◌==◌}
use text.Mathlib.TextEquality.{eq_iff}

abbrev pub Map {ℓ} : Type ℓ → Type ℓ
Map V = List (String × V)

-- Whether a list of names holds a name.
unfoldable pub contains : List String → String → Bool
contains [] k = false
contains (j ∷ js) k = (j == k) || contains js k

module _ {ℓ} {V : Type ℓ} where
  -- v, ok := m[k]
  unfoldable pub lookup : Map V → String → Option V
  lookup [] k = none
  lookup ((j, v) ∷ m) k = if j == k then some v else lookup m k

  -- m[k] = v
  unfoldable pub insert : Map V → String → V → Map V
  insert [] k v = (k, v) ∷ []
  insert ((j, w) ∷ m) k v = if j == k then (j, v) ∷ m else (j, w) ∷ insert m k v

  -- delete(m, k)
  unfoldable pub delete : Map V → String → Map V
  delete [] k = []
  delete ((j, w) ∷ m) k = let rest = delete m k in if j == k then rest else (j, w) ∷ rest

  -- The keys, in the order of `range`.
  unfoldable pub keys : Map V → List String
  keys [] = []
  keys ((k, v) ∷ m) = k ∷ keys m

  -- _, ok := m[k]
  abbrev pub has : Map V → String → Bool
  has m k = is_some (lookup m k)

  pub lookup-insert :
      (m : Map V) (k j : String) (v : V)
      → lookup (insert m k v) j ≡ (if k == j then some v else lookup m j)
  unfolding lookup insert
  lookup-insert [] k j v = refl
  lookup-insert ((i, w) ∷ m) k j v =
      ground (arith, eq_iff k j, eq_iff i k, eq_iff i j, lookup-insert m k j v)

  pub lookup-delete :
      (m : Map V) (k j : String) → lookup (delete m k) j ≡ (if k == j then none else lookup m j)
  unfolding lookup delete
  lookup-delete [] k j = ground arith
  lookup-delete ((i, w) ∷ m) k j =
      ground (arith, eq_iff k j, eq_iff i k, eq_iff i j, lookup-delete m k j)

  pub has-insert : (m : Map V) (k j : String) (v : V) → has (insert m k v) j ≡ ((k == j) || has m j)
  has-insert m k j v = ground (arith, lookup-insert m k j v)

  pub has-delete : (m : Map V) (k j : String) → has (delete m k) j ≡ (not (k == j) && has m j)
  has-delete m k j = ground (arith, lookup-delete m k j)

  pub has-keys : (m : Map V) (k : String) → contains (keys m) k ≡ has m k
  unfolding contains keys lookup
  has-keys [] k = refl
  has-keys ((j, v) ∷ m) k = ground (arith, has-keys m k)
