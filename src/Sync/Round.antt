-- ===== src/Sync/Round.antt =====
-- crates/convergio-mesh/src/sync.rs: one round of sync of one table with one peer. What the rest of
-- the node writes to the database while the round waits for the network is a parameter.
pub mod Progress
pub mod Exchange
use mathlib.Core.Option
use convergio_mesh.Prelude.{
  ℕ, Bool, true, false, not, List, [], ◌∷◌, Option, none, some, length, is_empty, or_else, ◌>>=◌,
  if◌then◌else◌,
}
use convergio_mesh.Prelude.Text.{Text}
use convergio_mesh.Sync.Types.{SyncMeta, SyncChange}
use convergio_mesh.Sync.Sqlite
use convergio_mesh.Sync.Sqlite.{Sqlite}
use convergio_mesh.Sync.Cursor.{compute_new_cursor}
use convergio_mesh.Sync.Export.{Result, ok, err, export_changes_since, max_updated_at}
use convergio_mesh.Sync.Apply.{ApplyReport, apply_changes_detailed}
use convergio_mesh.Transport.Client.{Http, send_changes_to_peer, fetch_changes_from_peer}

-- (sent, received, applied)
pub record Counts : Type 0 where
  pub sent : ℕ
  pub received : ℕ
  pub applied : ℕ

abbrev pub nothing : Counts
nothing = record { sent = 0; received = 0; applied = 0 }

-- `.ok().flatten().map(|m| m.last_synced)`
unfoldable pub since_of : Option (Option SyncMeta) → Option Text
since_of none = none
since_of (some o) = Option.map (λ m. m.last_synced) o

module _ (db : Sqlite) where
  open db use {Conn, select_sync_meta}

  meta_of : Text → Text → Text → SyncMeta
  meta_of peer table last = record { peer = peer; table_name = table; last_synced = last }

  unfoldable pub get_sync_meta : Conn → Text → Text → Option (Option SyncMeta)
  unfolding meta_of
  get_sync_meta conn peer table =
      Option.map (Option.map (meta_of peer table)) (select_sync_meta conn peer table)

  unfoldable pub upsert_sync_meta : Conn → SyncMeta → Option Conn
  upsert_sync_meta conn m = db.upsert_sync_meta conn m.peer m.table_name m.last_synced

  -- The world around a round: the clock at its start, the HTTP client, and what other connections
  -- do to the database during the two requests.
  pub record World : Type 0 where
    pub round_start_at : Text
    pub http : Http
    pub during_send : Conn → Conn
    pub during_fetch : Conn → Conn

  module _ (w : World) (peer table : Text) where
    -- The cursor is written only if there is one; a failure to write it is only logged.
    unfoldable pub save_cursor : Conn → Option Text → Conn
    unfolding upsert_sync_meta meta_of
    save_cursor conn none = conn
    save_cursor conn (some cursor) =
        or_else (upsert_sync_meta conn (meta_of peer table cursor)) conn

    unfoldable pub after_apply :
        Option Text → List SyncChange → List SyncChange → Conn × Result ApplyReport → Conn × Counts
    unfolding save_cursor
    after_apply since local remote (conn, err e) = (conn, nothing)
    after_apply since local remote (conn, ok report) =
        let cursor =
          compute_new_cursor since (max_updated_at local) report.applied_max_updated_at
            w.round_start_at in
        (
          save_cursor conn cursor,
          record { sent = length local; received = length remote; applied = report.applied },
        )

    unfoldable pub after_fetch :
        Option Text → List SyncChange → Conn → Option (List SyncChange) → Conn × Counts
    unfolding after_apply
    after_fetch since local conn none = (conn, nothing)
    after_fetch since local conn (some remote) =
        after_apply since local remote (apply_changes_detailed db conn remote)

    unfoldable pub after_send : Option Text → List SyncChange → Conn → Bool → Conn × Counts
    unfolding after_fetch
    after_send since local conn false = (conn, nothing)
    after_send since local conn true =
        after_fetch since local (w.during_fetch conn)
          (fetch_changes_from_peer w.http peer table since)

    unfoldable pub after_export : Option Text → Conn → Result (List SyncChange) → Conn × Counts
    unfolding after_send
    after_export since conn (err e) = (conn, nothing)
    after_export since conn (ok []) = after_send since [] conn true
    after_export since conn (ok (c ∷ local)) =
        after_send since (c ∷ local) (w.during_send conn)
          (send_changes_to_peer w.http peer (c ∷ local))

    unfoldable pub sync_table_with_peer : Conn → Conn × Counts
    unfolding after_export get_sync_meta since_of
    sync_table_with_peer conn =
        let since = since_of (get_sync_meta conn peer table) in
        after_export since conn (export_changes_since db conn table since)
