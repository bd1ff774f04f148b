-- ===== src/Prelude/Assoc.antt =====
-- `std::unordered_map` of texts as an association list: the order of the entries is never read.
use mathlib.Core.Path.{◌≡◌, refl}
use mathlib.Core.Option.{Option, none, some}
use mathlib.Core.List.{List, [], ◌∷◌}
use native.Mathlib.Omega.{arith}
use p4ls.Prelude.Tests.{if◌then◌else◌, is_some}
use p4ls.Prelude.Text.{Bytes, equal, equal_iff}

module _ {ℓ} {V : Type ℓ} where
  -- `find`
  unfoldable pub lookup : Bytes → List (Bytes × V) → Option V
  lookup k [] = none
  lookup k ((j, v) ∷ m) = if equal j k then some v else lookup k m

  -- `m[k] = v`
  unfoldable pub assign : Bytes → V → List (Bytes × V) → List (Bytes × V)
  assign k v [] = (k, v) ∷ []
  assign k v ((j, w) ∷ m) = if equal j k then (k, v) ∷ m else (j, w) ∷ assign k v m

  -- `m.emplace(k, v)`: an entry that is there stays.
  unfoldable pub emplace : Bytes → V → List (Bytes × V) → List (Bytes × V)
  emplace k v [] = (k, v) ∷ []
  emplace k v ((j, w) ∷ m) = if equal j k then (j, w) ∷ m else (j, w) ∷ emplace k v m

  pub lookup-assign :
      (k j : Bytes) (v : V) (m : List (Bytes × V))
      → lookup j (assign k v m) ≡ (if equal k j then some v else lookup j m)
  unfolding lookup assign
  lookup-assign k j v [] = refl
  lookup-assign k j v ((i, w) ∷ m) =
      ground (arith, equal_iff k j, equal_iff i k, equal_iff i j, lookup-assign k j v m)

  pub lookup-emplace :
      (k j : Bytes) (v : V) (m : List (Bytes × V))
      → lookup j (emplace k v m)
        ≡ (if is_some (lookup j m) then lookup j m else if equal k j then some v else none)
  unfolding lookup emplace
  lookup-emplace k j v [] = refl
  lookup-emplace k j v ((i, w) ∷ m) =
      ground (arith, equal_iff k j, equal_iff i k, equal_iff i j, lookup-emplace k j v m)
