-- ===== src/Peers/Name.antt =====
-- crates/convergio-mesh/src/peers_types.rs: canonical_peer_name. A panic is `none`.
pub mod Collapse
pub mod Ascii
use mathlib.Core.Option
use convergio_mesh.Prelude.{
  ℕ, ◌-◌, Bool, List, [], ◌∷◌, Option, none, some, ltb, leb, ◌==◌, if◌then◌else◌,
}
use convergio_mesh.Prelude.Text.{Text, codes, len, len_utf8, lowercase, eq_ignore_case}
use convergio_mesh.Prelude.Text.Trim.{trim}

abbrev pub cons_left : ℕ → Text × Text → Text × Text
cons_left c (head, tail) = (c ∷ head, tail)

-- `split_at`: the index is in bytes and has to be a boundary of a character.
unfoldable pub split_at : ℕ → Text → Option (Text × Text)
unfolding len_utf8
split_at n [] = if n == 0 then some ([], []) else none
split_at n (c ∷ cs) =
    let rest = split_at (n - len_utf8 c) cs in
    if n == 0
    then some ([], c ∷ cs)
    else if leb (len_utf8 c) n
    then Option.map (cons_left c) rest
    else none

unfoldable pub strip_local : Text → Text × Text → Text
unfolding eq_ignore_case
strip_local trimmed (head, tail) = if eq_ignore_case tail (codes ".local") then head else trimmed

unfoldable pub stripped : Text → Option Text
unfolding len split_at strip_local
stripped trimmed =
    if leb 6 (len trimmed)
    then Option.map (strip_local trimmed) (split_at (len trimmed - 6) trimmed)
    else some trimmed

unfoldable pub canonical_peer_name : Text → Option Text
unfolding trim stripped lowercase
canonical_peer_name raw = Option.map lowercase (stripped (trim raw))
