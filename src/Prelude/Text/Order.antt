-- ===== src/Prelude/Text/Order.antt =====
-- Equality of texts is decided by `text_eq`, and `text_ltb` is a strict total order.
use mathlib.Core.Bool.{true, false}
use mathlib.Core.Option.{Option, none, some}
use mathlib.Core.List.{[], ◌∷◌}
use mathlib.Core.Logic.{◌↔◌}
use mathlib.Core.Path.{◌≡◌, refl, ap}
use native.Mathlib.Omega.{arith}
use convergio_mesh.Prelude.Tests.{if◌then◌else◌}
use convergio_mesh.Prelude.Text.{Text, text_eq, text_ltb, ◌≼◌}

pub text_eq_iff : (a b : Text) → (text_eq a b ≡ true) ↔ (a ≡ b)
unfolding text_eq
text_eq_iff [] [] = (λ _. refl, λ _. refl)
text_eq_iff (x ∷ xs) (y ∷ ys) = ground (arith, text_eq_iff xs ys)
text_eq_iff _ _ = ground arith

pub text_eq_refl : (a : Text) → text_eq a a ≡ true
text_eq_refl a = (text_eq_iff a a).1 refl

pub text_ltb_irrefl : (a : Text) → text_ltb a a ≡ false
unfolding text_ltb
text_ltb_irrefl [] = refl
text_ltb_irrefl (x ∷ xs) = ground (arith, text_ltb_irrefl xs)

pub text_ltb_trans :
    (a b c : Text) → text_ltb a b ≡ true → text_ltb b c ≡ true → text_ltb a c ≡ true
unfolding text_ltb
text_ltb_trans (x ∷ xs) (y ∷ ys) (z ∷ zs) h k = ground (arith, text_ltb_trans xs ys zs)
text_ltb_trans [] b (z ∷ zs) h k = refl
text_ltb_trans [] [] [] h k = cc
text_ltb_trans [] (y ∷ ys) [] h k = cc
text_ltb_trans (x ∷ xs) [] c h k = cc
text_ltb_trans (x ∷ xs) (y ∷ ys) [] h k = cc

-- Two texts that neither precedes are equal.
pub text_ltb_connex : (a b : Text) → a ≼ b → b ≼ a → a ≡ b
unfolding text_ltb
text_ltb_connex [] [] h k = refl
text_ltb_connex (x ∷ xs) (y ∷ ys) h k = ground (arith, text_ltb_connex xs ys)
text_ltb_connex [] (y ∷ ys) h k = cc
text_ltb_connex (x ∷ xs) [] h k = cc

pub text_ltb_asym : (a b : Text) → text_ltb a b ≡ true → text_ltb b a ≡ false
text_ltb_asym a b h = ground (arith, text_ltb_trans a b a, text_ltb_irrefl a)

pub ≼_refl : (a : Text) → a ≼ a
≼_refl = text_ltb_irrefl

pub ≼_trans : (a b c : Text) → a ≼ b → b ≼ c → a ≼ c
≼_trans a b c h k = ground (
  arith,
  text_ltb_trans c a b,
  text_ltb_trans b c a,
  text_ltb_connex b c,
  text_ltb_connex a b,
  text_ltb_asym c a,
)

-- The order of `Option<String>`: `o` is at most `u`, where an absent value is the least.
abbrev pub Within : Option Text → Option Text → Type 0
Within u none = Unit
Within none (some t) = ⊥
Within (some u) (some t) = t ≼ u

pub Within-refl : (o : Option Text) → Within o o
Within-refl none = tt
Within-refl (some t) = ≼_refl t

pub Within-trans : (a b u : Option Text) → Within b a → Within u b → Within u a
Within-trans none b u h k = tt
Within-trans (some a) none u h k = elim h [ ]
Within-trans (some a) (some b) none h k = elim k [ ]
Within-trans (some a) (some b) (some u) h k = ≼_trans a b u h k

-- The bounds of the larger of two texts.
pub larger_lub :
    (a b : Text) (u : Option Text)
    → Within u (some (if text_ltb a b then b else a)) ↔ (Within u (some a) × Within u (some b))
larger_lub a b none = ground arith
larger_lub a b (some u) = ground (arith, ≼_trans a b u, ≼_trans b a u, text_ltb_asym a b)

-- Two values with the same upper bounds are equal.
pub Within-ext : (a b : Option Text) → ((u : Option Text) → Within u a ↔ Within u b) → a ≡ b
Within-ext none none h = refl
Within-ext none (some y) h = elim ((h none).0 tt) [ ]
Within-ext (some x) none h = elim ((h none).1 tt) [ ]
Within-ext (some x) (some y) h =
    ap some (text_ltb_connex x y ((h (some y)).1 (≼_refl y)) ((h (some x)).0 (≼_refl x)))

pub ruleset order_laws = (text_ltb_irrefl, text_ltb_trans, text_ltb_connex, text_ltb_asym)
