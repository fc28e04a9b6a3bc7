-- ===== src/Peers/Printer/Values.antt =====
-- The values that are printed: no line ends in them and no white space at their ends.
use convergio_mesh.Prelude.{
  ℕ, suc, zero, ◌+◌, ◌≡◌, refl, ap, ◌∙◌, Bool, true, false, ◌&&◌, not, [], ◌∷◌, ◌++◌, arith, all,
  keep, Bool-cases, inl, inr, ltb, ◌==◌,
}
use Prim.Native.Nat.{◌/◌, ◌%◌}
use convergio_mesh.Prelude.Text.{Text, has}
use convergio_mesh.Prelude.Text.Number.{is_digit}
use convergio_mesh.Prelude.Text.Decimal.{to_decimal}
use convergio_mesh.Prelude.Text.Trim.{
  trim, trim_start, trim_end, push_front, is_whitespace, trim_idem,
}
use convergio_mesh.Peers.Printer.{sanitize_ini_value}
use convergio_mesh.Peers.Printer.Lines.{IsPlain}

trim_start-has : (k : ℕ) (t : Text) → has k t ≡ false → has k (trim_start t) ≡ false
unfolding trim_start has
trim_start-has k [] h = h
trim_start-has k (c ∷ cs) h = ground (arith, trim_start-has k cs)

push_front-has :
    (k c : ℕ) (t : Text) → (c == k) ≡ false → has k t ≡ false → has k (push_front c t) ≡ false
unfolding push_front has
push_front-has k c [] e h = ground arith
push_front-has k c (d ∷ ds) e h = ground arith

trim_end-has : (k : ℕ) (t : Text) → has k t ≡ false → has k (trim_end t) ≡ false
unfolding trim_end has
trim_end-has k [] h = h
trim_end-has k (c ∷ cs) h =
    push_front-has k c (trim_end cs) (ground arith) (trim_end-has k cs (ground arith))

keep-has : (k : ℕ) (p : ℕ → Bool) (t : Text) → p k ≡ false → has k (keep p t) ≡ false
unfolding has
keep-has k p [] h = refl
keep-has k p (c ∷ cs) h = ground (arith, keep-has k p cs h)

-- A value of the file: one line, trimmed.
abbrev pub IsValue : Text → Type 0
IsValue v = IsPlain v × (trim v ≡ v)

pub sanitize-IsValue : (s : Text) → IsValue (sanitize_ini_value s)
unfolding sanitize_ini_value trim
sanitize-IsValue s =
    let p : ℕ → Bool = λ c. not (c == 0x0A) && not (c == 0x0D) in
    (
      (
        trim_end-has 0x0A (trim_start (keep p s))
            (trim_start-has 0x0A (keep p s) (keep-has 0x0A p s refl)),
        trim_end-has 0x0D (trim_start (keep p s))
            (trim_start-has 0x0D (keep p s) (keep-has 0x0D p s refl)),
      ),
      trim_idem (keep p s),
    )

digit-black : (c : ℕ) → is_digit c ≡ true → is_whitespace c ≡ false
unfolding is_digit is_whitespace
digit-black c h = ground arith

digits-has : (k : ℕ) (t : Text) → is_digit k ≡ false → all is_digit t ≡ true → has k t ≡ false
unfolding has is_digit
digits-has k [] d h = refl
digits-has k (c ∷ cs) d h = ground (arith, digits-has k cs d)

pub push_front-black : (c : ℕ) (t : Text) → is_whitespace c ≡ false → push_front c t ≡ c ∷ t
unfolding push_front
push_front-black c [] h = rw h refl
push_front-black c (d ∷ ds) h = refl

digits-trim_start : (t : Text) → all is_digit t ≡ true → trim_start t ≡ t
unfolding trim_start
digits-trim_start [] h = refl
digits-trim_start (c ∷ cs) h = ground (arith, digit-black c)

digits-trim_end : (t : Text) → all is_digit t ≡ true → trim_end t ≡ t
unfolding trim_end
digits-trim_end [] h = refl
digits-trim_end (c ∷ cs) h =
    rw (digits-trim_end cs (ground arith)) (push_front-black c cs (digit-black c (ground arith)))

all_digits-IsValue : (t : Text) → all is_digit t ≡ true → IsValue t
unfolding trim is_digit
all_digits-IsValue t h = (
  (digits-has 0x0A t refl h, digits-has 0x0D t refl h),
  ap trim_end (digits-trim_start t h) ∙ digits-trim_end t h,
)

all-append : (p : ℕ → Bool) (xs ys : Text) → all p (xs ++ ys) ≡ (all p xs && all p ys)
all-append p [] ys = refl
all-append p (x ∷ xs) ys = ground (arith, all-append p xs ys)

pub to_decimal-digits : (f n : ℕ) → all is_digit (to_decimal f n) ≡ true
unfolding to_decimal is_digit
to_decimal-digits zero n = refl
to_decimal-digits (suc f) n = elim (Bool-cases (ltb n 10)) [
  | inl one ↦ rw one (ground arith)
  | inr more ↦
      rw
        (
          more,
          all-append is_digit (to_decimal f (n / 10)) ((b'0' + n % 10) ∷ []),
          to_decimal-digits f (n / 10),
        )
        (ground arith)
]

pub to_decimal-IsValue : (f n : ℕ) → IsValue (to_decimal f n)
to_decimal-IsValue f n = all_digits-IsValue (to_decimal f n) (to_decimal-digits f n)
