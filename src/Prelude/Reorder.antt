-- ===== src/Prelude/Reorder.antt =====
-- Lists with the same elements in another order, such as the entries of a HashMap.
use mathlib.Core.Bool.{Bool, true, false, ◌||◌}
use mathlib.Core.List.{List, [], ◌∷◌, map}
use mathlib.Core.Path.{◌≡◌, refl, ap, ◌∙◌}
use native.Mathlib.Omega.{arith}
use convergio_mesh.Prelude.Lists.{any, All, keep}
use convergio_mesh.Prelude.Tests.{if◌then◌else◌}

pub data Reordered {ℓ} {A : Type ℓ} : List A → List A → Type ℓ where
  nil : Reordered [] []
  cons : (x : A) {xs ys : List A} → Reordered xs ys → Reordered (x ∷ xs) (x ∷ ys)
  swap : (x y : A) (xs : List A) → Reordered (x ∷ y ∷ xs) (y ∷ x ∷ xs)
  trans : {xs ys zs : List A} → Reordered xs ys → Reordered ys zs → Reordered xs zs

module _ {ℓ} {A : Type ℓ} where
  pub Reordered-refl : (xs : List A) → Reordered xs xs
  Reordered-refl [] = nil
  Reordered-refl (x ∷ xs) = cons x (Reordered-refl xs)

  pub Reordered-sym : {xs ys : List A} → Reordered xs ys → Reordered ys xs
  Reordered-sym nil = nil
  Reordered-sym (cons x r) = cons x (Reordered-sym r)
  Reordered-sym (swap x y xs) = swap y x xs
  Reordered-sym (trans r s) = trans (Reordered-sym s) (Reordered-sym r)

  pub Reordered-any : {xs ys : List A} (p : A → Bool) → Reordered xs ys → any p ys ≡ any p xs
  Reordered-any p nil = refl
  Reordered-any p (cons x r) = ap (λ b. p x || b) (Reordered-any p r)
  Reordered-any p (swap x y xs) = ground arith
  Reordered-any p (trans r s) = Reordered-any p s ∙ Reordered-any p r

  pub Reordered-All {κ} : {xs ys : List A} (P : A → Type κ) → Reordered xs ys → All P xs → All P ys
  Reordered-All P nil h = h
  Reordered-All P (cons x r) h = (h.0, Reordered-All P r h.1)
  Reordered-All P (swap x y xs) h = (h.1.0, (h.0, h.1.1))
  Reordered-All P (trans r s) h = Reordered-All P s (Reordered-All P r h)

  keep-cons :
      (b : Bool) (x : A) {xs ys : List A}
      → Reordered xs ys
      → Reordered (if b then x ∷ xs else xs) (if b then x ∷ ys else ys)
  keep-cons true x r = cons x r
  keep-cons false x r = r

  keep-swap :
      (b c : Bool) (x y : A) (xs : List A)
      → Reordered
          (if b then x ∷ (if c then y ∷ xs else xs) else (if c then y ∷ xs else xs))
          (if c then y ∷ (if b then x ∷ xs else xs) else (if b then x ∷ xs else xs))
  keep-swap true true x y xs = swap x y xs
  keep-swap true false x y xs = Reordered-refl (x ∷ xs)
  keep-swap false true x y xs = Reordered-refl (y ∷ xs)
  keep-swap false false x y xs = Reordered-refl xs

  pub Reordered-keep :
      {xs ys : List A} (p : A → Bool) → Reordered xs ys → Reordered (keep p xs) (keep p ys)
  Reordered-keep p nil = nil
  Reordered-keep p (cons x r) = keep-cons (p x) x (Reordered-keep p r)
  Reordered-keep p (swap x y xs) = keep-swap (p x) (p y) x y (keep p xs)
  Reordered-keep p (trans r s) = trans (Reordered-keep p r) (Reordered-keep p s)

  pub Reordered-map {κ} :
      {B : Type κ} {xs ys : List A} (f : A → B) → Reordered xs ys → Reordered (map f xs) (map f ys)
  Reordered-map f nil = nil
  Reordered-map f (cons x r) = cons (f x) (Reordered-map f r)
  Reordered-map f (swap x y xs) = swap (f x) (f y) (map f xs)
  Reordered-map f (trans r s) = trans (Reordered-map f r) (Reordered-map f s)
