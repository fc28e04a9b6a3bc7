-- ===== src/Prelude/Text/Trim.antt =====
-- `str::trim` and `char::is_whitespace` (Unicode White_Space).
use mathlib.Core.Bool.{Bool, false, ◌&&◌, ◌||◌}
use mathlib.Core.List.{[], ◌∷◌}
use mathlib.Core.Logic.{inl, inr}
use mathlib.Core.Path.{◌≡◌, refl, ap, ◌∙◌, subst}
use native.Mathlib.Omega.{arith}
use Prim.Native.Nat.{ℕ}
use convergio_mesh.Prelude.Tests.{leb, ◌==◌, if◌then◌else◌, Bool-cases}
use convergio_mesh.Prelude.Text.{Text}

unfoldable pub is_whitespace : ℕ → Bool
is_whitespace c =
    leb 9 c && leb c 13
    || c == 0x20
    || c == 0x85
    || c == 0xA0
    || c == 0x1680
    || leb 0x2000 c && leb c 0x200A
    || c == 0x2028
    || c == 0x2029
    || c == 0x202F
    || c == 0x205F
    || c == 0x3000

unfoldable pub trim_start : Text → Text
trim_start [] = []
trim_start (c ∷ cs) = let rest = trim_start cs in if is_whitespace c then rest else c ∷ cs

-- What a character leaves of the text behind it, once that is trimmed at its end.
unfoldable pub push_front : ℕ → Text → Text
push_front c [] = if is_whitespace c then [] else c ∷ []
push_front c (d ∷ ds) = c ∷ d ∷ ds

unfoldable pub trim_end : Text → Text
unfolding push_front
trim_end [] = []
trim_end (c ∷ cs) = push_front c (trim_end cs)

unfoldable pub trim : Text → Text
unfolding trim_start trim_end
trim t = trim_end (trim_start t)

pub trim_end_idem : (t : Text) → trim_end (trim_end t) ≡ trim_end t
unfolding trim_end
trim_end_idem [] = refl
trim_end_idem (c ∷ cs) = again c (trim_end cs) (trim_end_idem cs)
  where
    again : (c : ℕ) (r : Text) → trim_end r ≡ r → trim_end (push_front c r) ≡ push_front c r
    again c [] h = ground arith
    again c (d ∷ ds) h = ap (push_front c) h

-- The text is empty or starts with a character that is no blank.
abbrev Starts : Text → Type 0
Starts [] = Unit
Starts (c ∷ cs) = is_whitespace c ≡ false

Starts-trim_start : (t : Text) → Starts (trim_start t)
unfolding trim_start
Starts-trim_start [] = tt
Starts-trim_start (c ∷ cs) = elim (Bool-cases (is_whitespace c)) [
  | inl blank ↦ rw blank (Starts-trim_start cs)
  | inr other ↦ rw other other
]

trim_start-Starts : (t : Text) → Starts t → trim_start t ≡ t
unfolding trim_start
trim_start-Starts [] s = refl
trim_start-Starts (c ∷ cs) s = ground arith

push_front-Starts : (c : ℕ) (r : Text) → is_whitespace c ≡ false → push_front c r ≡ c ∷ r
unfolding push_front
push_front-Starts c [] s = ground arith
push_front-Starts c (d ∷ ds) s = refl

Starts-trim_end : (t : Text) → Starts t → Starts (trim_end t)
unfolding trim_end
Starts-trim_end [] s = tt
Starts-trim_end (c ∷ cs) s = rw (push_front-Starts c (trim_end cs) s) s

pub trim_idem : (t : Text) → trim (trim t) ≡ trim t
unfolding trim
trim_idem t =
    ap trim_end (trim_start-Starts _ (Starts-trim_end _ (Starts-trim_start t)))
    ∙ trim_end_idem (trim_start t)

Starts-trim : (t : Text) → Starts (trim t)
unfolding trim
Starts-trim t = Starts-trim_end _ (Starts-trim_start t)

-- A trimmed text starts with no blank.
pub trimmed_first : (c : ℕ) (cs : Text) → trim (c ∷ cs) ≡ c ∷ cs → is_whitespace c ≡ false
trimmed_first c cs h = subst Starts h (Starts-trim (c ∷ cs))
