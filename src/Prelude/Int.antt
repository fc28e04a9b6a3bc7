-- ===== src/Prelude/Int.antt =====
-- Integers over the native numbers; `negsuc n` is -(n + 1).
use Prim.Native.Nat.{ℕ, suc, ◌+◌, ◌-◌, ◌%◌, ◌^◌, ◌≤◌, ◌<◌}
use mathlib.Core.Bool.{Bool}
use convergio_mesh.Prelude.Tests.{leb, ltb, if◌then◌else◌}

pub data ℤ : Type 0 where
  pos : ℕ → ℤ
  negsuc : ℕ → ℤ

abbrev pub pos_part : ℤ → ℕ
pos_part (pos n) = n
pos_part (negsuc n) = 0

abbrev pub neg_part : ℤ → ℕ
neg_part (pos n) = 0
neg_part (negsuc n) = suc n

-- a - b, as an integer.
abbrev pub sub_ℕ : ℕ → ℕ → ℤ
sub_ℕ a b = if leb b a then pos (a - b) else negsuc (b - a - 1)

infixl 65 ◌+ℤ◌ ◌-ℤ◌
unfoldable pub ◌+ℤ◌ : ℤ → ℤ → ℤ
a +ℤ b = sub_ℕ (pos_part a + pos_part b) (neg_part a + neg_part b)

unfoldable pub ◌-ℤ◌ : ℤ → ℤ → ℤ
a -ℤ b = sub_ℕ (pos_part a + neg_part b) (neg_part a + pos_part b)

-- An i64 that overflows wraps around, as it does in a release build.
unfoldable pub bits_i64 : ℤ → ℕ
bits_i64 (pos n) = n % 2 ^ 64
bits_i64 (negsuc n) = 2 ^ 64 - 1 - n % 2 ^ 64

unfoldable pub of_bits_i64 : ℕ → ℤ
of_bits_i64 b = if ltb b (2 ^ 63) then pos b else negsuc (2 ^ 64 - 1 - b)

unfoldable pub wrapping_sub : ℤ → ℤ → ℤ
unfolding bits_i64 of_bits_i64 ◌-ℤ◌
wrapping_sub a b = of_bits_i64 (bits_i64 (a -ℤ b))

unfoldable pub wrapping_abs : ℤ → ℤ
unfolding wrapping_sub
wrapping_abs (pos n) = pos n
wrapping_abs (negsuc n) = wrapping_sub (pos 0) (negsuc n)

abbrev pub ltb_ℤ : ℤ → ℤ → Bool
ltb_ℤ a b = ltb (pos_part a + neg_part b) (pos_part b + neg_part a)

abbrev pub IsI64 : ℤ → Type 0
IsI64 z = (pos_part z < 2 ^ 63) × (neg_part z ≤ 2 ^ 63)
