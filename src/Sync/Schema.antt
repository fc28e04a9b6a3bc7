-- ===== src/Sync/Schema.antt =====
-- crates/convergio-mesh/src/sync.rs: check_schema_compatibility. What the local table
-- _schema_registry and the peer's /api/health hold is a parameter.
pub mod Compatible
use convergio_mesh.Prelude.{
  ℕ, ◌%◌, ◌^◌, Bool, true, false, List, [], ◌∷◌, Option, none, some, keep_map, ◌==◌, if◌then◌else◌,
}
use convergio_mesh.Prelude.Text.{Text}
use convergio_mesh.Prelude.Map.{Map, lookup}

-- The rows of SELECT module, version: none if the statement fails, and a row is none if its cells are
-- no text and 32-bit number.
unfoldable pub local_schema_versions : Option (List (Option (Text × ℕ))) → List (Text × ℕ)
local_schema_versions none = []
local_schema_versions (some rows) = keep_map (λ row. row) rows

-- The peer's answer: a failure of the request, the status or the parser, or the versions that are
-- unsigned numbers, if the answer has an object of versions.
pub data Health : Type 0 where
  failed : Text → Health
  versions : Option (Map ℕ) → Health

pub data Mismatch : Type 0 where
  no_health : Text → Mismatch
  schema_mismatch : Text → ℕ → ℕ → Mismatch

-- `remote_ver as u32 != *local_ver`
unfoldable pub mismatch_of : Text → ℕ → Option ℕ → Option Mismatch
mismatch_of module_name local_ver none = none
mismatch_of module_name local_ver (some remote_ver) =
    if remote_ver % 2 ^ 32 == local_ver
    then none
    else some (schema_mismatch module_name local_ver remote_ver)

unfoldable pub or_later : Option Mismatch → Option Mismatch → Option Mismatch
or_later none later = later
or_later (some m) later = some m

unfoldable pub compare_versions : List (Text × ℕ) → Map ℕ → Option Mismatch
unfolding mismatch_of or_later lookup
compare_versions [] remote = none
compare_versions ((module_name, local_ver) ∷ rest) remote =
    or_later (mismatch_of module_name local_ver (lookup module_name remote))
      (compare_versions rest remote)

unfoldable pub compare_health : List (Text × ℕ) → Health → Option Mismatch
unfolding compare_versions
compare_health locals (failed e) = some (no_health e)
compare_health locals (versions none) = none
compare_health locals (versions (some remote)) = compare_versions locals remote

-- `none` is Ok. A node without versions asks nobody.
unfoldable pub check_schema_compatibility : List (Text × ℕ) → Health → Option Mismatch
unfolding compare_health
check_schema_compatibility [] health = none
check_schema_compatibility (l ∷ locals) health = compare_health (l ∷ locals) health

-- The check on what the table and the peer give.
unfoldable pub check_node : Option (List (Option (Text × ℕ))) → Health → Option Mismatch
unfolding local_schema_versions
check_node rows health = check_schema_compatibility (local_schema_versions rows) health
