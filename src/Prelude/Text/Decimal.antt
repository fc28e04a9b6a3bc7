-- ===== src/Prelude/Text/Decimal.antt =====
-- How `{}` prints an unsigned number; the first argument is the number of digits at most.
use Prim.Native.Nat.{ℕ, zero, suc, ◌+◌, ◌/◌, ◌%◌}
use mathlib.Core.List.{[], ◌∷◌, ◌++◌}
use convergio_mesh.Prelude.Tests.{ltb, if◌then◌else◌}
use convergio_mesh.Prelude.Text.{Text}

unfoldable pub to_decimal : ℕ → ℕ → Text
to_decimal zero n = []
to_decimal (suc digits) n =
    let front = to_decimal digits (n / 10) in
    if ltb n 10 then (b'0' + n) ∷ [] else front ++ (b'0' + n % 10) ∷ []
