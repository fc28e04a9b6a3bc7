-- ===== src/Peers/RoundTrip/Number.antt =====
-- A number that is printed is parsed again.
use convergio_mesh.Prelude.{
  ℕ, zero, suc, ◌+◌, ◌-◌, ◌*◌, ◌/◌, ◌%◌, ◌^◌, ◌≡◌, ◌<◌, ◌≤◌, refl, true, false, [], ◌∷◌, ◌++◌, some,
  ltb, arith, Bool-cases, inl, inr, all, is_empty, if_cases, ap, ◌∙◌,
}
use convergio_mesh.Prelude.Text.{Text}
use convergio_mesh.Prelude.Text.Number.{is_digit, digits_from, parse_unsigned}
use convergio_mesh.Peers.Printer.Values.{to_decimal-digits}
use convergio_mesh.Prelude.Text.Decimal.{to_decimal}

digits_from-append :
    (a : ℕ) (t : Text) (c m : ℕ)
    → is_digit c ≡ true
    → digits_from a t ≡ some m
    → digits_from a (t ++ c ∷ []) ≡ some (m * 10 + (c - b'0'))
unfolding digits_from
digits_from-append a [] c m d e = ground arith
digits_from-append a (x ∷ xs) c m d e =
    ground (arith, digits_from-append (a * 10 + (x - b'0')) xs c m)

is_digit_of : (n : ℕ) → n < 10 → is_digit (b'0' + n) ≡ true
unfolding is_digit
is_digit_of n h = ground arith

-- A number of at most that many digits.
abbrev Fits : ℕ → ℕ → Type 0
Fits zero n = n < 1
Fits (suc f) n = Fits f (n / 10)

one_digit : (n : ℕ) → n < 10 → digits_from 0 ((b'0' + n) ∷ []) ≡ some n
unfolding digits_from
one_digit n h = ground arith

no_digit : (n : ℕ) → n < 1 → digits_from 0 [] ≡ some n
unfolding digits_from
no_digit n h = ground arith

digits_from-to_decimal : (f n : ℕ) → Fits f n → digits_from 0 (to_decimal f n) ≡ some n
unfolding to_decimal
digits_from-to_decimal zero n h = no_digit n h
digits_from-to_decimal (suc f) n h = elim (Bool-cases (ltb n 10)) [
  | inl one ↦ rw one (one_digit n (ground arith))
  | inr more ↦ rw more (
      digits_from-append 0 (to_decimal f (n / 10)) (b'0' + n % 10) (n / 10)
        (is_digit_of (n % 10) (omega arith)) (digits_from-to_decimal f (n / 10) h)
      ∙ ap some (omega arith))
]

parse-digits :
    (max n : ℕ) (t : Text)
    → all is_digit t ≡ true
    → is_empty t ≡ false
    → digits_from 0 t ≡ some n
    → n ≤ max
    → parse_unsigned max t ≡ some n
unfolding parse_unsigned is_digit
parse-digits max n [] d e h l = cc
parse-digits max n (c ∷ cs) d e h l = ground arith

append-is_empty : (t : Text) (c : ℕ) → is_empty (t ++ c ∷ []) ≡ false
append-is_empty [] c = refl
append-is_empty (x ∷ xs) c = refl

to_decimal-is_empty : (f n : ℕ) → is_empty (to_decimal (suc f) n) ≡ false
unfolding to_decimal
to_decimal-is_empty f n =
    if_cases (λ (t : Text). is_empty t ≡ false) (ltb n 10) (λ _. refl)
      (λ _. append-is_empty (to_decimal f (n / 10)) (b'0' + n % 10))

-- The number of runners, which is a u32.
pub parse-to_decimal : (n : ℕ) → n < 2 ^ 32 → parse_unsigned (2 ^ 32 - 1) (to_decimal 10 n) ≡ some n
parse-to_decimal n h =
    parse-digits (2 ^ 32 - 1) n (to_decimal 10 n) (to_decimal-digits 10 n) (to_decimal-is_empty 9 n)
      (digits_from-to_decimal 10 n (omega arith)) (omega arith)
