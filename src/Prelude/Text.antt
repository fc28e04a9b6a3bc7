-- ===== src/Prelude/Text.antt =====
-- Rust's `str` as the list of its code points. `str` orders by UTF-8 bytes, which is the order of
-- the code points; `text_ltb` is `<`, and `◌≼◌` is `≤`.
pub mod Order
pub mod Trim
pub mod Number
pub mod Utf8
pub mod Decimal
pub mod Lines
use Prim.Native.Char.{code}
use convergio_mesh.Prelude.Tests.{ltb, leb, ◌==◌, if◌then◌else◌}
use Prim.Native.Nat.{ℕ, zero, suc, ◌+◌, ◌-◌}
use Prim.Native.String.{String}
use mathlib.Core.Bool.{Bool, true, false, ◌&&◌, ◌||◌}
use mathlib.Core.List.{List, [], ◌∷◌, ◌++◌}
use mathlib.Core.Path.{◌≡◌}

abbrev pub Text : Type 0
Text = List ℕ

-- The code points of a literal.
abbrev pub codes : String → Text
codes String.[] = []
codes (String.◌∷◌ c s) = code c ∷ codes s

unfoldable pub text_eq : Text → Text → Bool
text_eq [] [] = true
text_eq (x ∷ xs) (y ∷ ys) = x == y && text_eq xs ys
text_eq _ _ = false

unfoldable pub text_ltb : Text → Text → Bool
text_ltb [] [] = false
text_ltb [] (y ∷ ys) = true
text_ltb (x ∷ xs) [] = false
text_ltb (x ∷ xs) (y ∷ ys) =
    let later = text_ltb xs ys in if ltb x y then true else if x == y then later else false

infix 50 ◌≼◌
abbrev pub ◌≼◌ : Text → Text → Type 0
a ≼ b = text_ltb b a ≡ false

-- `contains` of a slice of texts, and of a text with one character.
unfoldable pub elem : Text → List Text → Bool
unfolding text_eq
elem t [] = false
elem t (x ∷ xs) = text_eq x t || elem t xs

unfoldable pub has : ℕ → Text → Bool
has c [] = false
has c (x ∷ xs) = x == c || has c xs

unfoldable pub starts_with : Text → Text → Bool
starts_with [] t = true
starts_with (p ∷ ps) [] = false
starts_with (p ∷ ps) (x ∷ xs) = p == x && starts_with ps xs

-- `char::len_utf8` and `str::len`, in bytes.
unfoldable pub len_utf8 : ℕ → ℕ
len_utf8 c = if ltb c 0x80 then 1 else if ltb c 0x800 then 2 else if ltb c 0x10000 then 3 else 4

unfoldable pub len : Text → ℕ
unfolding len_utf8
len [] = 0
len (c ∷ cs) = len_utf8 c + len cs

-- `to_ascii_lowercase` and `is_ascii_alphanumeric`.
unfoldable pub lower : ℕ → ℕ
lower c = if leb b'A' c && leb c b'Z' then c + 32 else c

unfoldable pub is_alnum : ℕ → Bool
is_alnum c = leb b'0' c && leb c b'9' || leb b'A' c && leb c b'Z' || leb b'a' c && leb c b'z'

unfoldable pub lowercase : Text → Text
unfolding lower
lowercase [] = []
lowercase (c ∷ cs) = lower c ∷ lowercase cs

-- `eq_ignore_ascii_case`.
unfoldable pub eq_ignore_case : Text → Text → Bool
unfolding lowercase text_eq
eq_ignore_case a b = text_eq (lowercase a) (lowercase b)

-- `replace(from, to)` of one character.
unfoldable pub replace : ℕ → ℕ → Text → Text
replace a b [] = []
replace a b (c ∷ cs) = (if c == a then b else c) ∷ replace a b cs

-- `join` with a separator.
unfoldable pub join : Text → List Text → Text
join sep [] = []
join sep (x ∷ []) = x
join sep (x ∷ y ∷ ys) = x ++ (sep ++ join sep (y ∷ ys))
