-- ===== src/Sync/Cursor.antt =====
-- crates/convergio-mesh/src/sync_cursor.rs: the rule by which `last_synced` advances.
pub mod Advance
use mathlib.Core.Option
use convergio_mesh.Prelude.{Option, none, some, if◌then◌else◌}
use convergio_mesh.Prelude.Text.{Text, text_ltb}

-- The later of what was exported and what was applied; `a >= b` keeps the exported one.
candidate : Option Text → Option Text → Option Text
candidate (some a) (some b) = some (if text_ltb a b then b else a)
candidate (some a) none = some a
candidate none (some a) = some a
candidate none none = none

-- At most the start of the round.
unfoldable pub cap : Text → Text → Text
cap round_start_at c = if text_ltb c round_start_at then c else round_start_at

or : Option Text → Option Text → Option Text
or none q = q
or (some a) q = some a

-- Never behind the previous cursor.
no_regress : Option Text → Option Text → Option Text
no_regress (some a) (some p) = some (if text_ltb a p then p else a)
no_regress a _ = a

unfoldable pub compute_new_cursor : Option Text → Option Text → Option Text → Text → Option Text
unfolding candidate cap or no_regress
compute_new_cursor prev_since exported_max applied_max round_start_at =
    let capped = Option.map (cap round_start_at) (candidate exported_max applied_max) in
    let advanced = or capped prev_since in no_regress advanced prev_since
