-- ===== src/Prelude/Text/Utf8.antt =====
-- `str::as_bytes`: the UTF-8 encoding of a text.
use Prim.Native.Nat.{ℕ, ◌+◌, ◌/◌, ◌%◌, ◌^◌}
use mathlib.Core.List.{List, [], ◌∷◌, ◌++◌}
use mathlib.Core.Path.{◌≡◌, refl}
use convergio_mesh.Prelude.Tests.{ltb, if◌then◌else◌}
use convergio_mesh.Prelude.Text.{Text}

abbrev tail_byte : ℕ → ℕ
tail_byte n = 0x80 + n % 2 ^ 6

unfoldable pub encode_char : ℕ → List ℕ
encode_char c =
    if ltb c 0x80
    then c ∷ []
    else if ltb c 0x800
    then (0xC0 + c / 2 ^ 6) ∷ tail_byte c ∷ []
    else if ltb c 0x10000
    then (0xE0 + c / 2 ^ 12) ∷ tail_byte (c / 2 ^ 6) ∷ tail_byte c ∷ []
    else (0xF0 + c / 2 ^ 18) ∷ tail_byte (c / 2 ^ 12) ∷ tail_byte (c / 2 ^ 6) ∷ tail_byte c ∷ []

unfoldable pub as_bytes : Text → List ℕ
unfolding encode_char
as_bytes [] = []
as_bytes (c ∷ cs) = encode_char c ++ as_bytes cs

euro : as_bytes (0x20AC ∷ []) ≡ 0xE2 ∷ 0x82 ∷ 0xAC ∷ []
unfolding as_bytes
euro = refl
