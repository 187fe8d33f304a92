-- ===== src/Prelude/Maps.antt =====
-- Go maps with string keys, as association lists in which the first entry of a key counts.
-- The program's results do not depend on the order in which it ranges over them.
use mathlib.Core.Bool.{Bool, false}
use mathlib.Core.List.{List, [], ◌∷◌}
use mathlib.Core.Option.{Option, none, some}
use mathlib.Core.Path.{◌≡◌, refl}
use native.Mathlib.Omega.{arith}
use pmoxs3backuproxy.Prelude.Tests.{if◌then◌else◌}
use pmoxs3backuproxy.Prelude.Strings.{Bytes, bytes_eq, bytes_eq_iff}

abbrev pub Map {ℓ} : Type ℓ → Type ℓ
Map V = List (Bytes × V)

module _ {ℓ} {V : Type ℓ} where
  -- v, ok := m[k]
  unfoldable pub lookup : Map V → Bytes → Option V
  lookup [] k = none
  lookup ((j, v) ∷ m) k = if bytes_eq j k then some v else lookup m k

  -- m[k] = v
  unfoldable pub insert : Map V → Bytes → V → Map V
  insert [] k v = (k, v) ∷ []
  insert ((j, w) ∷ m) k v = if bytes_eq j k then (k, v) ∷ m else (j, w) ∷ insert m k v

  -- delete(m, k)
  unfoldable pub remove : Map V → Bytes → Map V
  remove [] k = []
  remove ((j, w) ∷ m) k = let rest = remove m k in if bytes_eq j k then rest else (j, w) ∷ rest

  pub lookup-insert :
      (m : Map V) (k j : Bytes) (v : V)
      → lookup (insert m k v) j ≡ (if bytes_eq k j then some v else lookup m j)
  unfolding lookup insert
  lookup-insert [] k j v = refl
  lookup-insert ((i, w) ∷ m) k j v =
      ground (arith, bytes_eq_iff k j, bytes_eq_iff i k, bytes_eq_iff i j, lookup-insert m k j v)

  pub lookup-remove :
      (m : Map V) (k j : Bytes)
      → lookup (remove m k) j ≡ (if bytes_eq k j then none else lookup m j)
  unfolding lookup remove
  lookup-remove [] k j = ground arith
  lookup-remove ((i, w) ∷ m) k j =
      ground (arith, bytes_eq_iff k j, bytes_eq_iff i k, bytes_eq_iff i j, lookup-remove m k j)

-- m[k], with the zero value of the element type for a missing key
abbrev pub value_or {ℓ} : {V : Type ℓ} → Option V → V → V
value_or none d = d
value_or (some v) d = v

-- A `map[string]bool`: the keys set to true.
abbrev pub is_set : Map Bool → Bytes → Bool
is_set m k = value_or (lookup m k) false
