-- ===== src/Prelude/Map.antt =====
-- Rust's `BTreeMap<String, V>` (and, where the order does not matter, `HashMap`) as a list of pairs
-- in the order of their keys, which is the order of its iterators.
pub mod Laws
pub mod Entries
use mathlib.Core.Bool.{Bool, true, false}
use mathlib.Core.List.{List, [], ◌∷◌}
use mathlib.Core.Path.{◌≡◌}
use mathlib.Core.Option.{Option, none, some}
use convergio_mesh.Prelude.Tests.{if◌then◌else◌}
use convergio_mesh.Prelude.Text.{Text, text_eq, text_ltb}

abbrev pub Map {ℓ} : Type ℓ → Type ℓ
Map V = List (Text × V)

module _ {ℓ} {V : Type ℓ} where
  unfoldable pub lookup : Text → Map V → Option V
  unfolding text_eq
  lookup k [] = none
  lookup k ((j, v) ∷ m) = if text_eq j k then some v else lookup k m

  unfoldable pub insert : Text → V → Map V → Map V
  unfolding text_eq text_ltb
  insert k v [] = (k, v) ∷ []
  insert k v ((j, w) ∷ m) =
      let rest = insert k v m in
      if text_eq j k
      then (k, v) ∷ m
      else if text_ltb k j
      then (k, v) ∷ (j, w) ∷ m
      else (j, w) ∷ rest

  unfoldable pub remove : Text → Map V → Map V
  unfolding text_eq
  remove k [] = []
  remove k ((j, v) ∷ m) = let rest = remove k m in if text_eq j k then rest else (j, v) ∷ rest

  -- A write through `get_mut`.
  unfoldable pub modify : Text → (V → V) → Map V → Map V
  unfolding text_eq
  modify k f [] = []
  modify k f ((j, v) ∷ m) =
      let rest = modify k f m in if text_eq j k then (j, f v) ∷ rest else (j, v) ∷ rest

-- Every key of the map comes after `k`.
abbrev pub Above {ℓ} : {V : Type ℓ} → Text → Map V → Type 0
Above k [] = Unit
Above k ((j, v) ∷ m) = (text_ltb k j ≡ true) × Above k m
