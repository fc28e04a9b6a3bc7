-- ===== src/Prelude/Text/Number.antt =====
-- `str::parse` for unsigned and signed integers, with the bounds of the type.
use Prim.Native.Nat.{ℕ, ◌+◌, ◌-◌, ◌*◌, ◌^◌, ◌≤◌}
use mathlib.Core.Bool.{Bool, false, ◌&&◌}
use mathlib.Core.List.{[], ◌∷◌}
use mathlib.Core.Option.{Option, none, some}
use mathlib.Core.Logic.{inl, inr}
use mathlib.Core.Path.{◌≡◌, refl}
use native.Mathlib.Omega.{arith}
use convergio_mesh.Prelude.Tests.{leb, ◌==◌, Bool-cases, if◌then◌else◌}
use convergio_mesh.Prelude.Int.{ℤ, pos, sub_ℕ}
use convergio_mesh.Prelude.Text.{Text, has}

unfoldable pub is_digit : ℕ → Bool
is_digit c = leb b'0' c && leb c b'9'

-- The digits of a text behind those of `n`. No text of digits starts over, so the checks against
-- overflow at each digit refuse what the one check at the end refuses.
unfoldable pub digits_from : ℕ → Text → Option ℕ
unfolding is_digit
digits_from n [] = some n
digits_from n (c ∷ cs) =
    let rest = digits_from (n * 10 + (c - b'0')) cs in if is_digit c then rest else none

unfoldable pub digits : Text → Option ℕ
unfolding digits_from
digits [] = none
digits (c ∷ cs) = digits_from 0 (c ∷ cs)

unfoldable pub up_to : ℕ → Option ℕ → Option ℕ
up_to max none = none
up_to max (some n) = if leb n max then some n else none

-- An unsigned type takes one plus sign.
unfoldable pub parse_unsigned : ℕ → Text → Option ℕ
unfolding digits up_to
parse_unsigned max [] = none
parse_unsigned max (c ∷ cs) = up_to max (if c == b'+' then digits cs else digits (c ∷ cs))

unfoldable pub to_negative : Option ℕ → Option ℤ
to_negative none = none
to_negative (some n) = some (sub_ℕ 0 n)

unfoldable pub to_positive : Option ℕ → Option ℤ
to_positive none = none
to_positive (some n) = some (pos n)

-- A signed type takes one sign of either kind.
unfoldable pub parse_i64 : Text → Option ℤ
unfolding digits up_to to_negative to_positive
parse_i64 [] = none
parse_i64 (c ∷ cs) =
    if c == b'-'
    then to_negative (up_to (2 ^ 63) (digits cs))
    else if c == b'+'
    then to_positive (up_to (2 ^ 63 - 1) (digits cs))
    else to_positive (up_to (2 ^ 63 - 1) (digits (c ∷ cs)))

pub parse_unsigned-le : (max : ℕ) (t : Text) {n : ℕ} → parse_unsigned max t ≡ some n → n ≤ max
unfolding parse_unsigned
parse_unsigned-le max [] h = cc
parse_unsigned-le max (c ∷ cs) h = ground arith

-- What parses holds digits only, but for one sign.
digits_from-has :
    (d n : ℕ) (t : Text) (m : ℕ) → is_digit d ≡ false → digits_from n t ≡ some m → has d t ≡ false
unfolding digits_from has
digits_from-has d n [] m h e = refl
digits_from-has d n (c ∷ cs) m h e = ground (arith, digits_from-has d (n * 10 + (c - b'0')) cs m)

digits-has : (d : ℕ) (t : Text) (m : ℕ) → is_digit d ≡ false → digits t ≡ some m → has d t ≡ false
unfolding digits
digits-has d [] m h e = cc
digits-has d (c ∷ cs) m h e = digits_from-has d 0 (c ∷ cs) m h e

up_to-eq-some : (max : ℕ) (o : Option ℕ) {n : ℕ} → up_to max o ≡ some n → o ≡ some n
unfolding up_to
up_to-eq-some max none e = cc
up_to-eq-some max (some k) e = ground arith

pub parse_unsigned-has :
    (d max : ℕ) (t : Text) (n : ℕ)
    → is_digit d ≡ false
    → (d == b'+') ≡ false
    → parse_unsigned max t ≡ some n
    → has d t ≡ false
unfolding parse_unsigned has
parse_unsigned-has d max [] n h p e = refl
parse_unsigned-has d max (c ∷ cs) n h p e = elim (Bool-cases (c == b'+')) [
  | inl plus ↦
      let rest = digits-has d cs n h (up_to-eq-some max (digits cs) (rw plus at e)) in ground arith
  | inr digit ↦ digits-has d (c ∷ cs) n h (up_to-eq-some max (digits (c ∷ cs)) (rw digit at e))
]
