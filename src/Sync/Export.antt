-- ===== src/Sync/Export.antt =====
-- crates/convergio-mesh/src/sync_apply.rs: the export of local rows.
pub mod Maximum
pub mod Rows
pub mod Window
pub mod Honest
pub mod Delta
pub mod Skipped
use convergio_mesh.Prelude.{
  ℕ, ◌/◌, ◌%◌, ◌^◌, Bool, true, false, ◌||◌, not, List, [], ◌∷◌, map, Option, none, some, ◌==◌, all,
  keep, keep_map, ◌>>=◌, if◌then◌else◌,
}
use convergio_mesh.Prelude.Text.{Text, codes, text_ltb, elem, is_alnum, replace}
use convergio_mesh.Prelude.Map.{lookup}
use convergio_mesh.Sync.Json.{Json, int, float, Fields, end, as_object, as_str, get, put}
use convergio_mesh.Prelude.Int.{pos}
use convergio_mesh.Sync.Types.{SyncChange}
use convergio_mesh.Sync.Sqlite.{Value, null, integer, real, text, blob, Row, Sqlite}

-- The errors of rusqlite that the code can tell apart.
pub data DbError : Type 0 where
  invalid_parameter_name : Text → DbError
  sqlite_failure : DbError

pub data Result {ℓ} (A : Type ℓ) : Type ℓ where
  ok : A → Result A
  err : DbError → Result A

unfoldable pub is_identifier_char : ℕ → Bool
unfolding is_alnum
is_identifier_char c = is_alnum c || c == b'_'

unfoldable pub normalise : Text → Text
unfolding replace
normalise ts = replace b'T' b' ' ts

-- updated_at is preferred, created_at the fallback.
unfoldable pub timestamp_of : List Text → Option Text
unfolding elem
timestamp_of cols =
    if elem (codes "updated_at") cols
    then some (codes "updated_at")
    else if elem (codes "created_at") cols
    then some (codes "created_at")
    else none

unfoldable pub is_after : Text → Option Text → Bool
unfolding text_ltb
is_after since none = false
is_after since (some ts) = text_ltb since ts

module _ (db : Sqlite) where
  open db use {Conn, table_exists, table_info, select_rows, replace_t, encode_base64}

  -- json!(f) is null where the float is not finite.
  unfoldable pub sqlite_to_json : Value → Json
  sqlite_to_json null = Json.null
  sqlite_to_json (integer i) = Json.number (int i)
  sqlite_to_json (real f) = if (f / 2 ^ 52) % 2048 == 2047 then Json.null else Json.number (float f)
  sqlite_to_json (text s) = Json.string s
  sqlite_to_json (blob b) = Json.string (encode_base64 b)

  unfoldable pub row_pk : Value → Json
  row_pk (integer i) = Json.number (int i)
  row_pk (text s) = Json.string s
  row_pk _ = Json.number (int (pos 0))

  unfoldable pub row_data : List (Text × Value) → Fields → Fields
  unfolding put sqlite_to_json
  row_data [] o = o
  row_data ((name, v) ∷ cells) o = row_data cells (put name (sqlite_to_json v) o)

  unfoldable pub row_change : Text → Row → SyncChange
  unfolding row_pk row_data
  row_change table r = record {
    table_name = table;
    pk = row_pk r.id;
    row = Json.object (row_data r.cells end);
  }

  unfoldable pub detect_timestamp_column : Conn → Text → Option Text
  unfolding timestamp_of
  detect_timestamp_column conn table = table_info conn table >>= timestamp_of

  -- WHERE REPLACE(col, 'T', ' ') > since. A comparison with NULL does not hold.
  unfoldable pub is_newer : Text → Text → Row → Bool
  unfolding lookup is_after
  is_newer col since r = is_after since (lookup col r.cells >>= replace_t)

  select_since : Option Text → Option Text → List Row → List Row
  unfolding is_newer normalise
  select_since (some since) (some col) rows = keep (is_newer col (normalise since)) rows
  select_since _ _ rows = rows

  exported : Text → Option Text → Option Text → Option (List Row) → Result (List SyncChange)
  unfolding select_since row_change
  exported table since ts_col none = err sqlite_failure
  exported table since ts_col (some rows) =
      ok (map (row_change table) (select_since since ts_col rows))

  -- By whether the table exists.
  exported_if : Conn → Text → Option Text → Option Bool → Result (List SyncChange)
  unfolding exported detect_timestamp_column
  exported_if conn table since none = err sqlite_failure
  exported_if conn table since (some false) = ok []
  exported_if conn table since (some true) =
      exported table since (detect_timestamp_column conn table) (select_rows conn table)

  unfoldable pub export_changes_since : Conn → Text → Option Text → Result (List SyncChange)
  unfolding exported_if is_identifier_char
  export_changes_since conn table since =
      if not (all is_identifier_char table)
      then err (invalid_parameter_name (codes "invalid table name"))
      else exported_if conn table since (table_exists conn table)

-- The timestamp that a change carries, in canonical form.
unfoldable pub change_updated_at : SyncChange → Option Text
unfolding get normalise
change_updated_at c = do
  o ← as_object c.row
  v ← get (codes "updated_at") o
  s ← as_str v
  some (normalise s)

-- `Iterator::max`.
unfoldable pub maximum : List Text → Option Text
unfolding text_ltb
maximum [] = none
maximum (x ∷ xs) = elim (maximum xs) [
  | none ↦ some x
  | some m ↦ some (if text_ltb m x then x else m)
]

unfoldable pub max_updated_at : List SyncChange → Option Text
unfolding change_updated_at maximum
max_updated_at changes = maximum (keep_map change_updated_at changes)
