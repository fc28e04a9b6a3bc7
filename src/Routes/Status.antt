-- ===== src/Routes/Status.antt =====
-- crates/convergio-mesh/src/routes.rs: handle_status, handle_sync_status and handle_node_readiness.
-- Each table is what its query finds, or `none` if the query fails.
pub mod Ready
use convergio_mesh.Prelude.{
  ℕ, ◌+◌, ◌^◌, Bool, true, false, List, [], ◌∷◌, Option, none, some, ◌&&◌, ltb, or_else, map,
  if◌then◌else◌, ◌>>=◌,
}
use mathlib.Core.Option
use convergio_mesh.Prelude.Int.{ℤ}
use convergio_mesh.Prelude.Text.{Text, codes}
use convergio_mesh.Prelude.Map.{Map}
use convergio_mesh.Node.Stats.{SyncStats}
use convergio_mesh.Routes.Rows.{Rows, unprepared, unread, table}
use convergio_mesh.Routes.Heartbeat.{Heartbeat, count_online}

pub record Tables : Type 0 where
  pub heartbeats : Option (Map Heartbeat)
  pub stats : Option (Map SyncStats)

unfoldable pub online_count : ℤ → Tables → ℕ
unfolding count_online
online_count now db = or_else (Option.map (count_online now) db.heartbeats) 0

unfoldable pub sum_applied : Map SyncStats → ℕ
sum_applied [] = 0
sum_applied ((peer, row) ∷ rest) = (row.totals).applied + sum_applied rest

-- COALESCE(SUM(total_applied), 0): a sum that is no i64 is an error of SQLite.
unfoldable pub sum_total : Map SyncStats → Option ℕ
unfolding sum_applied
sum_total stats = if ltb (sum_applied stats) (2 ^ 63) then some (sum_applied stats) else none

unfoldable pub total_synced : Tables → ℕ
unfolding sum_total
total_synced db = or_else (db.stats >>= sum_total) 0

pub record MeshStatus : Type 0 where
  pub peers_online : ℕ
  pub total_synced : ℕ

-- `none` for a pool without a connection.
unfoldable pub handle_status : ℤ → Option Tables → Option MeshStatus
unfolding online_count total_synced
handle_status now none = none
handle_status now (some db) =
    some (record { peers_online = online_count now db + 1; total_synced = total_synced db })

pub record SyncStatus : Type 0 where
  pub peer : Text
  pub total_applied : ℕ
  pub last_sync_at : Text
  pub latency_ms : ℕ
  pub failures : ℕ

unfoldable pub sync_status_of : Text × SyncStats → SyncStatus
sync_status_of (peer, row) = record {
  peer = peer;
  total_applied = (row.totals).applied;
  last_sync_at = row.last_sync_at;
  latency_ms = row.last_latency_ms;
  failures = row.consecutive_failures;
}

-- `none` for a pool without a connection and for a statement that is refused. The map is in the order
-- of the names.
unfoldable pub handle_sync_status : Option (Rows (Map SyncStats)) → Option (List SyncStatus)
unfolding sync_status_of
handle_sync_status none = none
handle_sync_status (some unprepared) = none
handle_sync_status (some unread) = some []
handle_sync_status (some (table stats)) = some (map sync_status_of stats)

-- COALESCE(MAX(consecutive_failures), 0)
unfoldable pub max_failures : Map SyncStats → ℕ
max_failures [] = 0
max_failures ((peer, row) ∷ rest) =
    let later = max_failures rest in
    if ltb later row.consecutive_failures then row.consecutive_failures else later

unfoldable pub sync_healthy : Tables → Bool
unfolding max_failures
sync_healthy db = or_else (Option.map (λ stats. ltb (max_failures stats) 5) db.stats) true

pub record Readiness : Type 0 where
  pub ready : Bool
  pub database : Text
  pub mesh_peers : ℕ
  pub sync_healthy : Bool

-- The flag is whether SELECT 1 succeeds. Without a connection the answer says not ready, with the
-- error.
unfoldable pub handle_node_readiness : ℤ → Bool → Option Tables → Option Readiness
unfolding online_count sync_healthy
handle_node_readiness now db_ok none = none
handle_node_readiness now db_ok (some db) = some (record {
  ready = db_ok && sync_healthy db;
  database = if db_ok then codes "ok" else codes "down";
  mesh_peers = online_count now db;
  sync_healthy = sync_healthy db;
})
