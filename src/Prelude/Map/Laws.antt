-- ===== src/Prelude/Map/Laws.antt =====
-- What a lookup finds after a write, and that the writes keep the keys in order.
use mathlib.Core.Bool.{true}
use mathlib.Core.List.{[], ◌∷◌}
use mathlib.Core.Option
use mathlib.Core.Option.{Option, none, some}
use mathlib.Core.Path.{◌≡◌, refl}
use native.Mathlib.Omega.{arith}
use convergio_mesh.Prelude.Tests.{if◌then◌else◌}
use convergio_mesh.Prelude.Text.{Text, text_eq, text_ltb}
use convergio_mesh.Prelude.Text.Order.{text_eq_iff, text_ltb_trans, text_ltb_connex}
use convergio_mesh.Prelude.Map.{Map, lookup, insert, remove, modify, Above}

module _ {ℓ} {V : Type ℓ} where
  pub lookup-insert :
      (k j : Text) (v : V) (m : Map V)
      → lookup j (insert k v m) ≡ (if text_eq k j then some v else lookup j m)
  unfolding lookup insert
  lookup-insert k j v [] = refl
  lookup-insert k j v ((i, w) ∷ m) =
      ground (arith, text_eq_iff k j, text_eq_iff i k, text_eq_iff i j, lookup-insert k j v m)

  pub lookup-remove :
      (k j : Text) (m : Map V) → lookup j (remove k m) ≡ (if text_eq k j then none else lookup j m)
  unfolding lookup remove
  lookup-remove k j [] = ground arith
  lookup-remove k j ((i, w) ∷ m) =
      ground (arith, text_eq_iff k j, text_eq_iff i k, text_eq_iff i j, lookup-remove k j m)

  pub lookup-modify :
      (k j : Text) (f : V → V) (m : Map V)
      → lookup j (modify k f m) ≡ (if text_eq k j then Option.map f (lookup j m) else lookup j m)
  unfolding lookup modify
  lookup-modify k j f [] = ground arith
  lookup-modify k j f ((i, w) ∷ m) =
      ground (arith, text_eq_iff k j, text_eq_iff i k, text_eq_iff i j, lookup-modify k j f m)

  -- The keys are in strict order, so none stands twice.
  abbrev pub IsSorted : Map V → Type 0
  IsSorted [] = Unit
  IsSorted ((k, v) ∷ m) = Above k m × IsSorted m

  Above-insert :
      (i k : Text) (v : V) (m : Map V) → text_ltb i k ≡ true → Above i m → Above i (insert k v m)
  unfolding insert
  Above-insert i k v [] h a = (h, tt)
  Above-insert i k v ((j, w) ∷ m) h a = ground (arith, Above-insert i k v m, text_eq_iff j k)

  Above-trans : (i k : Text) (m : Map V) → text_ltb i k ≡ true → Above k m → Above i m
  Above-trans i k [] h a = tt
  Above-trans i k ((j, w) ∷ m) h a = (text_ltb_trans i k j h a.0, Above-trans i k m h a.1)

  pub insert-IsSorted : (k : Text) (v : V) (m : Map V) → IsSorted m → IsSorted (insert k v m)
  unfolding insert
  insert-IsSorted k v [] s = (tt, tt)
  insert-IsSorted k v ((j, w) ∷ m) s = ground (
    arith,
    text_eq_iff j k,
    text_ltb_connex j k,
    insert-IsSorted k v m,
    Above-insert j k v m,
    Above-trans k j m,
  )
