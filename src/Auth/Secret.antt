-- ===== src/Auth/Secret.antt =====
-- crates/convergio-mesh/src/auth.rs: the shared secret in the text of peers.conf.
pub mod Usable
use convergio_mesh.Prelude.{
  ℕ, ◌≡◌, ◌≢◌, Bool, true, false, ◌&&◌, not, List, [], ◌∷◌, Option, none, some, is_empty, ◌==◌,
  if◌then◌else◌,
}
use convergio_mesh.Prelude.Text.{Text, codes, text_eq, eq_ignore_case, starts_with}
use convergio_mesh.Prelude.Text.Trim.{trim}
use convergio_mesh.Prelude.Text.Lines.{lines, split_once}

-- The secret of one `key = value` line.
unfoldable pub secret_of : Option (Text × Text) → Option Text
unfolding text_eq trim
secret_of none = none
secret_of (some (key, value)) =
    if text_eq (trim key) (codes "shared_secret") && not (is_empty (trim value))
    then some (trim value)
    else none

-- The flag is `in_mesh_section`.
unfoldable pub scan_secret : Bool → List Text → Option Text
unfolding eq_ignore_case starts_with secret_of split_once trim
scan_secret in_mesh [] = none
scan_secret in_mesh (raw ∷ rest) =
    let line = trim raw in
    let inside = scan_secret true rest in
    let outside = scan_secret false rest in
    let same = scan_secret in_mesh rest in
    if eq_ignore_case line (codes "[mesh]")
    then inside
    else if starts_with (codes "[") line
    then outside
    else if in_mesh
    then (elim (secret_of (split_once b'=' line)) [ none ↦ same | some secret ↦ some secret ])
    else same

-- `none` is a file that cannot be read.
unfoldable pub load_shared_secret : Option Text → Option Text
unfolding scan_secret lines
load_shared_secret none = none
load_shared_secret (some content) = scan_secret false (lines content)
