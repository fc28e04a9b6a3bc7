-- ===== src/Sync/Examples.antt =====
-- Runs of delta sync on concrete data, and the theorems applied to them.
pub mod Exchange
use convergio_mesh.Prelude.{ℕ, ◌≡◌, refl, true, List, [], ◌∷◌, none, some, All, ◌↔◌}
use convergio_mesh.Prelude.Text.{Text, codes, text_ltb}
use convergio_mesh.Prelude.Text.Order.{Within}
use convergio_mesh.Prelude.Map.{Map, lookup}
use convergio_mesh.Sync.Json.{Json, end, field}
use convergio_mesh.Sync.Types.{SyncChange}
use convergio_mesh.Sync.Sqlite.{text, Row}
use convergio_mesh.Sync.Memory.{
  Memory, memory, memory-StoresRows, memory-Executes, memory-KeepsMeta,
}
use convergio_mesh.Sync.Cursor.{compute_new_cursor}
use convergio_mesh.Sync.Cursor.Advance.{capped, IsBounded, cursor_lub, cursor_bounds}
use convergio_mesh.Sync.Export.{
  ok, normalise, export_changes_since, row_change, is_identifier_char, detect_timestamp_column,
}
use convergio_mesh.Sync.Export.Window.{In, IsNew, IsStamped, export_window}
use convergio_mesh.Sync.Apply.{
  apply_changes_detailed, apply_changes_inner, apply_change, execute_verdict, check_change,
  check_row,
}
use convergio_mesh.Sync.Apply.Frame.{apply_frame}
use convergio_mesh.Sync.Apply.Batch.{after}
use convergio_mesh.Sync.Round.{World, sync_table_with_peer}
use convergio_mesh.Sync.Interval.{resolve_interval_secs}
use convergio_mesh.Sync.Schema.{versions, check_schema_compatibility}
use convergio_mesh.Sync.Schema.Compatible.{IsCompatible, check_schema_compatibility_iff}
use convergio_mesh.Sync.Round.Progress.{
  IsQuiet, Progress, SameMeta, SameMeta-IsKept, round-Progress,
}

abbrev morning : Text
morning = codes "2026-04-21 08:00:00"

abbrev pub noon : Text
noon = codes "2026-04-21 12:00:00"

abbrev future : Text
future = codes "2099-01-01 00:00:00"

abbrev pub plans : Text
plans = codes "plans"

capped_by_start : compute_new_cursor none (some future) (some morning) noon ≡ some noon
unfolding compute_new_cursor text_ltb
capped_by_start = refl

exported_max : compute_new_cursor none (some morning) none noon ≡ some morning
unfolding compute_new_cursor text_ltb
exported_max = refl

cursor_lub_example :
    Within (some noon) (compute_new_cursor none (some future) (some morning) noon) ↔ (
      Within (some noon) none
      × Within (some noon) (capped noon (some future))
      × Within (some noon) (capped noon (some morning)))
cursor_lub_example = cursor_lub none (some future) (some morning) noon (some noon)

cursor_bounds_example : IsBounded none noon noon
cursor_bounds_example = cursor_bounds none (some future) (some morning) noon capped_by_start

-- A plan as a peer exports it.
abbrev change : Text → Text → SyncChange
change i stamp = record {
  table_name = plans;
  pk = Json.string i;
  row =
      Json.object
        (field (codes "id") (Json.string i) (field (codes "updated_at") (Json.string stamp) end));
}

abbrev pub two_changes : List SyncChange
two_changes = change (codes "p1") noon ∷ change (codes "p2") morning ∷ []

-- A peer may send a table that is not synchronised, or a row that is no object.
abbrev pub bad_changes : List SyncChange
bad_changes =
    record { table_name = codes "secrets"; pk = Json.null; row = Json.null }
    ∷ record { table_name = plans; pk = Json.null; row = Json.bool true }
    ∷ change (codes "p1") morning
    ∷ []

abbrev plan_row : Text → Text → Row
plan_row i stamp = record {
  id = text i;
  cells = (codes "id", text i) ∷ (codes "updated_at", text stamp) ∷ [];
}

abbrev plan_rows : List Row
plan_rows = plan_row (codes "p1") noon ∷ plan_row (codes "p2") morning ∷ []

abbrev pub empty : Memory
empty = record { stamps = λ t i. none; meta = λ p t. none; rows = λ t. plan_rows }

abbrev pub peer : Text
peer = codes "10.0.0.2:8420"

-- A peer that takes every change and has two of its own; nobody else writes.
abbrev pub world : World memory
world = record {
  round_start_at = noon;
  http = record { post_import = λ p xs. true; get_export = λ p t since. some two_changes };
  during_send = λ c. c;
  during_fetch = λ c. c;
}

counts_run :
    (apply_changes_detailed memory empty bad_changes).1
    ≡ ok (record { applied = 1; rejected = 2; applied_max_updated_at = some morning })
unfolding apply_changes_detailed apply_changes_inner apply_change execute_verdict check_change
    check_row
counts_run = refl

apply_frame_example :
    SameMeta memory memory-KeepsMeta world peer plans empty
      (apply_changes_detailed memory empty bad_changes).0
apply_frame_example =
    apply_frame memory (SameMeta-IsKept memory memory-KeepsMeta world peer plans empty) empty
      bad_changes (λ p t. refl)

abbrev schema : Text → List Text
schema t = codes "id" ∷ codes "name" ∷ codes "updated_at" ∷ []

abbrev both : Memory → List SyncChange → Memory
both = after memory memory-StoresRows schema memory-Executes

world-IsQuiet : IsQuiet memory memory-KeepsMeta world peer plans
world-IsQuiet = record { send_kept = λ c p t. refl; fetch_kept = λ c p t. refl }

round-Progress_example :
    Progress memory memory-KeepsMeta world peer plans empty
      (sync_table_with_peer memory world peer plans empty).0
round-Progress_example = round-Progress memory memory-KeepsMeta world peer plans world-IsQuiet empty

plan_row-IsStamped : (i stamp : Text) → IsStamped memory (λ s. refl) (plan_row i stamp)
unfolding lookup
plan_row-IsStamped i stamp = record {
  distinct = (refl, (refl, tt));
  stamp = stamp;
  has_stamp = refl;
}

export_window_example :
    (changes : List SyncChange) × (export_changes_since memory empty plans (some morning)
      ≡ ok changes)
    × All (IsNew memory (λ s. refl) (normalise morning)) changes
    × ((r : Row) (s : IsStamped memory (λ s. refl) r)
        → In r plan_rows
        → text_ltb (normalise morning) (normalise s.stamp) ≡ true
        → In (row_change memory plans r) changes)
unfolding is_identifier_char detect_timestamp_column
export_window_example =
    export_window memory (λ s. refl) empty plans morning plan_rows refl refl refl refl
      (plan_row-IsStamped (codes "p1") noon, (plan_row-IsStamped (codes "p2") morning, tt))

abbrev local_versions : List (Text × ℕ)
local_versions = (codes "mesh", 3) ∷ (codes "core", 7) ∷ []

abbrev remote_versions : Map ℕ
remote_versions = (codes "mesh", 3) ∷ []

check_schema_compatibility_iff_example :
    (check_schema_compatibility local_versions (versions (some remote_versions)) ≡ none)
    ↔ All (IsCompatible remote_versions) local_versions
check_schema_compatibility_iff_example =
    check_schema_compatibility_iff local_versions remote_versions

-- A variable that is no number is passed over.
default_interval : resolve_interval_secs none (some (codes "10s")) ≡ 30
unfolding resolve_interval_secs
default_interval = refl
