-- ===== src/Routes/Sync.antt =====
-- crates/convergio-mesh/src/routes.rs: handle_export and handle_import. The pool, the JSON parser of
-- the body and the clock are parameters.
pub mod Access
use convergio_mesh.Prelude.{
  ℕ, Bool, true, false, ◌&&◌, not, List, Option, none, some, any, ltb, if◌then◌else◌,
}
use convergio_mesh.Prelude.Int.{ℤ}
use convergio_mesh.Prelude.Text.{Text, codes, text_eq}
use convergio_mesh.Auth.Hmac.{Bytes, Mac}
use convergio_mesh.Auth.Signed.{Hex, Headers, Refusal, authorize}
use convergio_mesh.Sync.Types.{SyncChange, in_sync_tables}
use convergio_mesh.Sync.Sqlite.{Sqlite}
use convergio_mesh.Sync.Export.{DbError, Result, ok, err, export_changes_since}
use convergio_mesh.Sync.Apply.{apply_changes}

-- What the handlers answer: 403, 401, an error in JSON, and the two successes.
pub data Reply : Type 0 where
  forbidden : Reply
  unauthorized : Refusal → Reply
  invalid_json no_connection : Reply
  failed : DbError → Reply
  changes : List SyncChange → Reply
  applied : ℕ → Reply

module _ (db : Sqlite) where
  open db use {Conn}

  unfoldable pub export_reply : Result (List SyncChange) → Reply
  export_reply (ok cs) = changes cs
  export_reply (err e) = failed e

  unfoldable pub export_with : Text → Option Text → Option Conn → Reply
  unfolding export_reply
  export_with table since none = no_connection
  export_with table since (some conn) = export_reply (export_changes_since db conn table since)

  -- The connection is what the pool gives.
  unfoldable pub handle_export : Option Conn → Text → Option Text → Reply
  unfolding in_sync_tables export_with
  handle_export pool table since =
      if not (in_sync_tables table) then forbidden else export_with table since pool

  -- Whether the receivers of messages are woken.
  unfoldable pub wakes : ℕ → List SyncChange → Bool
  unfolding text_eq
  wakes n cs = ltb 0 n && any (λ c. text_eq c.table_name (codes "ipc_messages")) cs

  -- What a request leaves: the database, if there is a connection to it, whether the receivers are
  -- woken, and the answer.
  pub record Outcome : Type 0 where
    pub database : Option Conn
    pub woken : Bool
    pub reply : Reply

  abbrev pub refuse : Option Conn → Reply → Outcome
  refuse pool reply = record { database = pool; woken = false; reply = reply }

  unfoldable pub import_outcome : List SyncChange → Conn × Result ℕ → Outcome
  unfolding wakes
  import_outcome cs (conn, ok n) = record {
    database = some conn;
    woken = wakes n cs;
    reply = applied n;
  }
  import_outcome cs (conn, err e) = refuse (some conn) (failed e)

  unfoldable pub import_changes : Option Conn → Option (List SyncChange) → Outcome
  unfolding import_outcome
  import_changes pool none = refuse pool invalid_json
  import_changes none (some cs) = refuse none no_connection
  import_changes (some conn) (some cs) = import_outcome cs (apply_changes db conn cs)

  unfoldable pub import_authorized :
      Option Conn → Option (List SyncChange) → Option Refusal → Outcome
  unfolding import_changes
  import_authorized pool payload (some r) = refuse pool (unauthorized r)
  import_authorized pool payload none = import_changes pool payload

  module _ (mac : Mac) (hex : Hex) (from_slice : Bytes → Option (List SyncChange)) where
    unfoldable pub handle_import : ℤ → Option Bytes → Option Conn → Headers → Bytes → Outcome
    unfolding import_authorized
    handle_import now shared_secret pool headers body =
        import_authorized pool (from_slice body)
          (authorize mac hex now (codes "/api/sync/import") shared_secret headers)
