-- ===== src/Prelude/Assoc.antt =====
-- `HashMap<String, V>`: the map from texts as an association list, with the laws of its
-- operations. The program never depends on the order of a map's entries.
use mathlib.Core.Logic.{◌≢◌, ◌⊎◌}
use mathlib.Core.Path.{◌≡◌}
use mathlib.Core.Option.{Option, none, some}
use mathlib.Core.List.{List, [], ◌∷◌}
use native.Mathlib.Omega.{arith}
use grinbox.Prelude.Tests.{if◌then◌else◌}
use grinbox.Prelude.Text.{Text, text_eq, text_eq_iff}

abbrev pub Assoc {ℓ} : Type ℓ → Type ℓ
Assoc V = List (Text × V)

module _ {ℓ} {V : Type ℓ} where
  -- `map.get(key)`
  unfoldable pub lookup : Text → Assoc V → Option V
  lookup k [] = none
  lookup k ((j, v) ∷ m) = if text_eq j k then some v else lookup k m

  -- `map.remove(key)`, the map that is left
  unfoldable pub remove : Text → Assoc V → Assoc V
  remove k [] = []
  remove k ((j, v) ∷ m) = let rest = remove k m in if text_eq j k then rest else (j, v) ∷ rest

  -- `map.insert(key, value)`
  unfoldable pub insert : Text → V → Assoc V → Assoc V
  unfolding remove
  insert k v m = (k, v) ∷ remove k m

  pub lookup-remove :
      (k j : Text) (m : Assoc V)
      → lookup j (remove k m) ≡ (if text_eq k j then none else lookup j m)
  unfolding lookup remove
  lookup-remove k j [] = ground arith
  lookup-remove k j ((i, v) ∷ m) =
      ground (arith, lookup-remove k j m, text_eq_iff i k, text_eq_iff i j, text_eq_iff k j)

  pub lookup-insert :
      (k j : Text) (v : V) (m : Assoc V)
      → lookup j (insert k v m) ≡ (if text_eq k j then some v else lookup j m)
  unfolding lookup insert
  lookup-insert k j v m = ground (arith, lookup-remove k j m)

module _ {ℓ} {V : Type ℓ} where
  pub lookup-remove-some :
      (k j : Text) (m : Assoc V) (v : V)
      → lookup j (remove k m) ≡ some v
      → (k ≢ j) × (lookup j m ≡ some v)
  lookup-remove-some k j m v h = ground (arith, lookup-remove k j m, text_eq_iff k j)

  pub lookup-insert-some :
      (k j : Text) (w : V) (m : Assoc V) (v : V)
      → lookup j (insert k w m) ≡ some v
      → ((k ≡ j) × (w ≡ v)) ⊎ ((k ≢ j) × (lookup j m ≡ some v))
  lookup-insert-some k j w m v h = ground (arith, lookup-insert k j w m, text_eq_iff k j)

pub ruleset map_laws = (lookup-remove, lookup-insert)
