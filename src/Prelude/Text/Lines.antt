-- ===== src/Prelude/Text/Lines.antt =====
-- `str::lines`, `split_once` and `split` at one character.
use Prim.Native.Nat.{ℕ}
use mathlib.Core.List.{List, [], ◌∷◌}
use mathlib.Core.Option.{Option, none, some}
use convergio_mesh.Prelude.Tests.{◌==◌, if◌then◌else◌}
use convergio_mesh.Prelude.Text.{Text}

-- A piece with one more character in front.
unfoldable pub cons_first : ℕ → List Text → List Text
cons_first c [] = (c ∷ []) ∷ []
cons_first c (piece ∷ pieces) = (c ∷ piece) ∷ pieces

-- `split(sep)`: there is always a first piece.
unfoldable pub split : ℕ → Text → List Text
unfolding cons_first
split sep [] = [] ∷ []
split sep (c ∷ cs) = let rest = split sep cs in if c == sep then [] ∷ rest else cons_first c rest

-- A carriage return at the end of a line belongs to its end.
unfoldable pub strip_return : Text → Text
strip_return [] = []
strip_return (c ∷ []) = if c == 0x0D then [] else c ∷ []
strip_return (c ∷ d ∷ ds) = c ∷ strip_return (d ∷ ds)

-- The pieces between the newlines; the empty piece behind a last newline is no line, and the piece
-- that no newline ends keeps its carriage return.
unfoldable pub as_lines : List Text → List Text
unfolding strip_return
as_lines [] = []
as_lines ([] ∷ []) = []
as_lines ((c ∷ cs) ∷ []) = (c ∷ cs) ∷ []
as_lines (piece ∷ next ∷ pieces) = strip_return piece ∷ as_lines (next ∷ pieces)

unfoldable pub lines : Text → List Text
unfolding as_lines split
lines t = as_lines (split 0x0A t)

unfoldable pub before : ℕ → Option (Text × Text) → Option (Text × Text)
before c none = none
before c (some (left, right)) = some (c ∷ left, right)

-- What stands before and behind the first separator.
unfoldable pub split_once : ℕ → Text → Option (Text × Text)
unfolding before
split_once sep [] = none
split_once sep (c ∷ cs) =
    let rest = split_once sep cs in if c == sep then some ([], cs) else before c rest
