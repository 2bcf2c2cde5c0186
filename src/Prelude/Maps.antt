-- ===== src/Prelude/Maps.antt =====
-- `std::map` with string keys, as an association list in the order of its keys.
use mathlib.Core.Path.{◌≡◌, refl}
use mathlib.Core.Option.{Option, none, some}
use mathlib.Core.List.{List, [], ◌∷◌}
use native.Mathlib.Omega.{arith}
use attractor.Prelude.Tests.{if◌then◌else◌}
use attractor.Prelude.Bytes.{Text, ◌==◌, ==_iff, text_lt}

abbrev pub Map : Type 0 → Type 0
Map V = List (Text × V)

module _ {V : Type 0} where
  unfoldable pub map_get : Text → Map V → Option V
  map_get k [] = none
  map_get k ((j, v) ∷ m) = if j == k then some v else map_get k m

  unfoldable pub map_set : Text → V → Map V → Map V
  map_set k v [] = (k, v) ∷ []
  map_set k v ((j, w) ∷ m) =
      let rest = map_set k v m in
      if j == k then (k, v) ∷ m else if text_lt k j then (k, v) ∷ (j, w) ∷ m else (j, w) ∷ rest

  unfoldable pub map_erase : Text → Map V → Map V
  map_erase k [] = []
  map_erase k ((j, v) ∷ m) = let rest = map_erase k m in if j == k then rest else (j, v) ∷ rest

  pub map_get-map_set :
      (k j : Text) (v : V) (m : Map V)
      → map_get j (map_set k v m) ≡ (if k == j then some v else map_get j m)
  unfolding map_get map_set
  map_get-map_set k j v [] = refl
  map_get-map_set k j v ((i, w) ∷ m) =
      ground (arith, ==_iff k j, ==_iff i k, ==_iff i j, map_get-map_set k j v m)

  pub map_get-map_erase :
      (k j : Text) (m : Map V) → map_get j (map_erase k m) ≡ (if k == j then none else map_get j m)
  unfolding map_get map_erase
  map_get-map_erase k j [] = ground arith
  map_get-map_erase k j ((i, w) ∷ m) =
      ground (arith, ==_iff k j, ==_iff i k, ==_iff i j, map_get-map_erase k j m)
