-- ===== src/Sync/Sqlite.antt =====
-- What delta sync uses of SQLite (rusqlite), which is not part of this repository: one operation for
-- each statement that sync_apply.rs and sync.rs send. The WHERE clauses are part of the source and
-- are written out where they are used. `none` is an error that the statement returns.
use native.Mathlib.Decide.{ℕ_discrete}
use convergio_mesh.Prelude.{ℕ, Bool, List, Option}
use convergio_mesh.Prelude.Text.{Text}
use convergio_mesh.Sync.Json.{Json}
use convergio_mesh.Prelude.Int.{ℤ}

-- A cell (rusqlite::types::Value); a real is given by the bits of its f64.
pub data Value : Type 0 where
  null : Value
  integer : ℤ → Value
  real : ℕ → Value
  text : Text → Value
  blob : List ℕ → Value

-- A row of `SELECT id, *`: its first column, and the named columns behind it.
pub record Row : Type 0 where
  pub id : Value
  pub cells : List (Text × Value)

-- The key of a row in a query by `id = ?1`.
pub data Key : Type 0 where
  by_int : ℤ → Key
  by_text : Text → Key

pub Key-discrete : Discrete Key
Key-discrete = hlevel ℕ_discrete

pub record Sqlite : Type 1 where
  pub Conn : Type 0
  -- SELECT 1 FROM sqlite_master WHERE type='table' AND name=?1
  pub table_exists : Conn → Text → Option Bool
  -- The columns that PRAGMA table_info lists, or the error of preparing it.
  pub table_info : Conn → Text → Option (List Text)
  -- SELECT id, * FROM table ORDER BY id
  pub select_rows : Conn → Text → Option (List Row)
  -- REPLACE(column, 'T', ' '), as a text; none for NULL.
  pub replace_t : Value → Option Text
  -- SELECT updated_at FROM table WHERE id = ?1, read as Option<String>.
  pub select_updated_at : Conn → Text → Key → Option (Option Text)
  -- PRAGMA foreign_keys = ON or OFF
  pub set_foreign_keys : Conn → Bool → Option Conn
  -- INSERT OR REPLACE INTO table (columns) VALUES (values), every value bound as a text.
  pub insert_or_replace : Conn → Text → List Text → List Text → Option Conn
  -- SELECT last_synced FROM _sync_meta WHERE peer = ?1 AND table_name = ?2; the row is optional.
  pub select_sync_meta : Conn → Text → Text → Option (Option Text)
  -- The INSERT ... ON CONFLICT (peer, table_name) DO UPDATE of _sync_meta.
  pub upsert_sync_meta : Conn → Text → Text → Text → Option Conn
  -- The base64 of a blob, and `Value::to_string` of a JSON value (base64, serde_json).
  pub encode_base64 : List ℕ → Text
  pub to_string : Json → Text
