-- ===== src/Sync/Apply.antt =====
-- crates/convergio-mesh/src/sync_apply.rs: the import of remote rows, last writer wins. A change is
-- checked against the local schema and the local row; what passes is one INSERT OR REPLACE.
pub mod Report
pub mod Frame
pub mod Laws
pub mod Merge
pub mod Batch
use mathlib.Core.Option
use convergio_mesh.Prelude.{
  ℕ, zero, ◌+◌, Bool, true, false, ◌&&◌, not, List, [], ◌∷◌, Option, none, some, any, all, keep,
  keep_map, is_empty, or_else, ◌>>=◌, if◌then◌else◌,
}
use convergio_mesh.Prelude.Text.{Text, codes, text_ltb, elem}
use convergio_mesh.Sync.Json.{Json, Fields, as_object, as_str, as_i64, get, keys}
use convergio_mesh.Sync.Types.{SyncChange, in_sync_tables}
use convergio_mesh.Sync.Sqlite.{Key, by_int, by_text, Sqlite}
use convergio_mesh.Sync.Export.{Result, ok, err, sqlite_failure, is_identifier_char, normalise}

unfoldable pub is_safe_identifier : Text → Bool
unfolding is_identifier_char
is_safe_identifier name = not (is_empty name) && all is_identifier_char name

pub record ApplyReport : Type 0 where
  pub applied : ℕ
  pub rejected : ℕ
  pub applied_max_updated_at : Option Text

abbrev pub empty_report : ApplyReport
empty_report = record { applied = 0; rejected = 0; applied_max_updated_at = none }

abbrev pub count_reject : ApplyReport → ApplyReport
count_reject report = record report { rejected = report.rejected + 1 }

unfoldable pub raise_max : Option Text → Option Text → Option Text
raise_max current none = current
raise_max none (some ts) = some ts
raise_max (some current) (some ts) = if text_ltb current ts then some ts else some current

-- The timestamp of an object, in canonical form.
unfoldable pub remote_updated_at : Fields → Option Text
unfolding get normalise
remote_updated_at obj = Option.map normalise (get (codes "updated_at") obj >>= as_str)

-- The key by which the local row is looked up.
unfoldable pub pk_key : Json → Option Key
pk_key (Json.number n) = Option.map by_int (as_i64 n)
pk_key (Json.string s) = some (by_text s)
pk_key _ = none

-- The remote row is not strictly newer than the local one.
unfoldable pub is_stale : Option Text → Option Text → Bool
unfolding normalise
is_stale (some remote_ts) (some local_ts) = not (text_ltb (normalise local_ts) remote_ts)
is_stale _ _ = false

-- What the checks make of a change: a `continue`, or the columns and values to write.
pub data Verdict : Type 0 where
  reject : Verdict
  write : List Text → List Text → Option Text → Verdict

module _ (db : Sqlite) where
  open db use {Conn, table_info, select_updated_at, set_foreign_keys, insert_or_replace, to_string}

  unfoldable pub local_table_columns : Conn → Text → List Text
  local_table_columns conn table = or_else (table_info conn table) []

  -- `.ok().flatten()`
  unfoldable pub local_updated_at : Conn → Text → Json → Option Text
  unfolding pk_key
  local_updated_at conn table pk = do
    key ← pk_key pk
    found ← select_updated_at conn table key
    found

  unfoldable pub json_to_sql_string : Json → Text
  json_to_sql_string (Json.string s) = s
  json_to_sql_string Json.null = []
  json_to_sql_string other = to_string other

  -- The columns of the object that the local table has, and their values.
  unfoldable pub shared_columns : Conn → Text → Fields → List Text
  unfolding local_table_columns elem keys
  shared_columns conn table obj = keep (λ c. elem c (local_table_columns conn table)) (keys obj)

  unfoldable pub values_of : Fields → List Text → List Text
  unfolding get json_to_sql_string
  values_of obj cols = keep_map (λ c. Option.map json_to_sql_string (get c obj)) cols

  unfoldable pub check_row : Conn → SyncChange → Fields → List Text → Verdict
  unfolding is_stale local_updated_at remote_updated_at values_of
  check_row conn change obj cols =
      let remote_updated = remote_updated_at obj in
      if is_stale remote_updated (local_updated_at conn change.table_name change.pk)
      then reject
      else write cols (values_of obj cols) remote_updated

  unfoldable pub check_columns : Conn → SyncChange → Fields → Verdict
  unfolding local_table_columns shared_columns is_safe_identifier
  check_columns conn change obj =
      let cols = shared_columns conn change.table_name obj in
      if is_empty (local_table_columns conn change.table_name)
      then reject
      else if is_empty cols
      then reject
      else if any (λ c. not (is_safe_identifier c)) cols
      then reject
      else check_row conn change obj cols

  unfoldable pub check_object : Conn → SyncChange → Option Fields → Verdict
  unfolding check_columns
  check_object conn change none = reject
  check_object conn change (some obj) = check_columns conn change obj

  unfoldable pub check_change : Conn → SyncChange → Verdict
  unfolding in_sync_tables check_object
  check_change conn change =
      if not (in_sync_tables change.table_name)
      then reject
      else check_object conn change (as_object change.row)

  -- An error of SQLite counts as a reject and leaves the database as it was.
  unfoldable pub record_outcome :
      Option Text → Conn × ApplyReport → Option Conn → Conn × ApplyReport
  unfolding raise_max
  record_outcome remote (conn, report) none = (conn, count_reject report)
  record_outcome remote (conn, report) (some conn') = (
    conn',
    record report {
      applied = report.applied + 1;
      applied_max_updated_at = raise_max report.applied_max_updated_at remote;
    },
  )

  unfoldable pub execute_verdict : Text → Verdict → Conn × ApplyReport → Conn × ApplyReport
  unfolding record_outcome
  execute_verdict table reject (conn, report) = (conn, count_reject report)
  execute_verdict table (write cols vals remote) (conn, report) =
      record_outcome remote (conn, report) (insert_or_replace conn table cols vals)

  unfoldable pub apply_change : SyncChange → Conn × ApplyReport → Conn × ApplyReport
  apply_change change (conn, report) =
      execute_verdict change.table_name (check_change conn change) (conn, report)

  unfoldable pub apply_changes_inner : List SyncChange → Conn × ApplyReport → Conn × ApplyReport
  apply_changes_inner [] state = state
  apply_changes_inner (c ∷ changes) state = apply_changes_inner changes (apply_change c state)

  -- The database as it is left, and the result, by the outcome of PRAGMA foreign_keys = ON.
  unfoldable pub after_on : Conn × ApplyReport → Option Conn → Conn × Result ApplyReport
  after_on (conn, report) none = (conn, err sqlite_failure)
  after_on (conn, report) (some conn') = (conn', ok report)

  -- The same by the outcome of PRAGMA foreign_keys = OFF.
  unfoldable pub after_off : Conn → List SyncChange → Option Conn → Conn × Result ApplyReport
  unfolding after_on
  after_off conn changes none = (conn, err sqlite_failure)
  after_off conn changes (some conn') =
      let written = apply_changes_inner changes (conn', empty_report) in
      after_on written (set_foreign_keys written.0 true)

  unfoldable pub apply_changes_detailed : Conn → List SyncChange → Conn × Result ApplyReport
  unfolding after_off
  apply_changes_detailed conn changes =
      if is_empty changes
      then (conn, ok empty_report)
      else after_off conn changes (set_foreign_keys conn false)

  unfoldable pub count_applied : Conn × Result ApplyReport → Conn × Result ℕ
  count_applied (conn, ok report) = (conn, ok report.applied)
  count_applied (conn, err e) = (conn, err e)

  unfoldable pub apply_changes : Conn → List SyncChange → Conn × Result ℕ
  unfolding count_applied
  apply_changes conn changes = count_applied (apply_changes_detailed conn changes)
