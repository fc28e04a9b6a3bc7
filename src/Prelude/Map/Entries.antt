-- ===== src/Prelude/Map/Entries.antt =====
-- The entries of a map against what its lookups give.
use mathlib.Core.Bool.{true, false}
use mathlib.Core.List.{[], ◌∷◌}
use mathlib.Core.Option.{none, some}
use mathlib.Core.Path.{◌≡◌, refl, sym, subst}
use native.Mathlib.Omega.{arith}
use convergio_mesh.Prelude.Lists.{any, All, is_some}
use convergio_mesh.Prelude.Text.{Text, text_eq, text_ltb}
use convergio_mesh.Prelude.Text.Order.{
  text_eq_iff, text_eq_refl, text_ltb_irrefl, text_ltb_trans, text_ltb_connex,
}
use convergio_mesh.Prelude.Map.{Map, lookup, insert, Above}
use convergio_mesh.Prelude.Map.Laws.{IsSorted}

module _ {ℓ} {V : Type ℓ} where
  -- A predicate on every value.
  abbrev pub Values {κ} : (V → Type κ) → Map V → Type κ
  Values P = All (λ (e : Text × V). P e.1)

  pub Values-insert {κ} :
      (P : V → Type κ) (k : Text) (v : V) (m : Map V) → P v → Values P m → Values P (insert k v m)
  unfolding insert
  Values-insert P k v [] h a = (h, tt)
  Values-insert P k v ((j, w) ∷ m) h a = ground (arith, Values-insert P k v m h)

  pub Values-lookup {κ} :
      (P : V → Type κ) (k : Text) (m : Map V) {v : V} → Values P m → lookup k m ≡ some v → P v
  unfolding lookup
  Values-lookup P k [] a e = cc
  Values-lookup P k ((j, w) ∷ m) {v = v} a e = ground (arith, Values-lookup P k m {v = v})

  pub any-lookup :
      (k : Text) (m : Map V) → any (λ (e : Text × V). text_eq e.0 k) m ≡ is_some (lookup k m)
  unfolding lookup
  any-lookup k [] = refl
  any-lookup k ((j, w) ∷ m) = ground (arith, any-lookup k m)

  Found : Map V → Text × V → Type ℓ
  Found m e = lookup e.0 m ≡ some e.1

  Found-cons :
      (k : Text) (v : V) (m rest : Map V)
      → Above k rest
      → All (Found m) rest
      → All (Found ((k, v) ∷ m)) rest
  unfolding Found lookup
  Found-cons k v m [] a h = tt
  Found-cons k v m ((j, w) ∷ rest) a h =
      ground (arith, text_eq_iff k j, text_ltb_irrefl j, Found-cons k v m rest)

  -- In a map in order every entry is found by its key.
  pub All-lookup : (m : Map V) → IsSorted m → All (λ (e : Text × V). lookup e.0 m ≡ some e.1) m
  unfolding Found lookup
  All-lookup [] s = tt
  All-lookup ((k, v) ∷ m) s = (rw (text_eq_refl k) refl, Found-cons k v m m s.0 (All-lookup m s.1))

  pub lookup-below : (k j : Text) (m : Map V) → text_ltb k j ≡ true → Above j m → lookup k m ≡ none
  unfolding lookup
  lookup-below k j [] h a = refl
  lookup-below k j ((i, w) ∷ m) h a =
      ground (arith, text_eq_iff i k, text_ltb_trans k j i, text_ltb_irrefl k, lookup-below k j m h)

  pub lookup-Above : (k : Text) (m : Map V) → Above k m → lookup k m ≡ none
  unfolding lookup
  lookup-Above k [] a = refl
  lookup-Above k ((i, w) ∷ m) a =
      ground (arith, text_eq_iff i k, text_ltb_irrefl k, lookup-Above k m)

  -- The first key of two maps that agree.
  head_agrees :
      (k j : Text) (v w : V) (m n : Map V)
      → Above j n
      → lookup k ((k, v) ∷ m) ≡ lookup k ((j, w) ∷ n)
      → text_ltb k j ≡ false
  unfolding lookup
  head_agrees k j v w m n a h =
      ground (arith, text_eq_refl k, text_eq_iff j k, text_ltb_irrefl k, lookup-below k j n)

  not_found : (k : Text) (v : V) (m : Map V) → ¬ (lookup k [] ≡ lookup k ((k, v) ∷ m))
  unfolding lookup
  not_found k v m h = ground (arith, text_eq_refl k)

  ext_cons :
      (k : Text) (v w : V) (m n : Map V)
      → Above k m
      → Above k n
      → ((i : Text) → lookup i ((k, v) ∷ m) ≡ lookup i ((k, w) ∷ n))
      → (v ≡ w) × ((i : Text) → lookup i m ≡ lookup i n)
  unfolding lookup
  ext_cons k v w m n a b h = (
    ground (arith, text_eq_refl k, h k),
    λ i. ground (arith, text_eq_iff k i, lookup-Above k m a, lookup-Above k n b, h i),
  )

  -- Maps in order are equal if they agree at every key.
  pub Map-ext :
      (m n : Map V) → IsSorted m → IsSorted n → ((k : Text) → lookup k m ≡ lookup k n) → m ≡ n
  Map-ext [] [] s t h = refl
  Map-ext [] ((j, w) ∷ n) s t h = absurd (not_found j w n (h j))
  Map-ext ((k, v) ∷ m) [] s t h = absurd (not_found k v m (sym (h k)))
  Map-ext ((k, v) ∷ m) ((j, w) ∷ n) s t h =
      let e : k ≡ j =
        text_ltb_connex k j (head_agrees j k w v n m s.0 (sym (h j)))
          (head_agrees k j v w m n t.0 (h k)) in
      let parts =
        ext_cons k v w m n s.0 (subst (λ i. Above i n) (sym e) t.0)
          (λ i. subst (λ x. lookup i ((k, v) ∷ m) ≡ lookup i ((x, w) ∷ n)) (sym e) (h i)) in
      let tails = Map-ext m n s.1 t.1 parts.1 in ground arith
