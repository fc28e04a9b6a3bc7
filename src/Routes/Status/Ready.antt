-- ===== src/Routes/Status/Ready.antt =====
-- When a node says that it is ready.
use convergio_mesh.Prelude.{
  ℕ, ◌≡◌, ◌<◌, ◌↔◌, refl, Bool, true, [], ◌∷◌, some, ◌&&◌, arith, if◌then◌else◌,
}
use convergio_mesh.Prelude.Int.{ℤ}
use convergio_mesh.Prelude.Text.{codes}
use convergio_mesh.Prelude.Map.{Map}
use convergio_mesh.Prelude.Map.Entries.{Values}
use convergio_mesh.Node.Stats.{SyncStats}
use convergio_mesh.Routes.Status.{
  Tables, Readiness, max_failures, sync_healthy, online_count, handle_node_readiness,
}

max_failures_iff :
    (n : ℕ) (stats : Map SyncStats)
    → 0 < n
    → (max_failures stats < n) ↔ Values (λ (row : SyncStats). row.consecutive_failures < n) stats
unfolding max_failures
max_failures_iff n [] h = (λ _. tt, λ _. h)
max_failures_iff n ((peer, row) ∷ rest) h = ground (arith, max_failures_iff n rest h)

-- Over a table of statistics that can be read, a node is ready exactly if SELECT 1 succeeds and no
-- peer has five failures in a row.
pub ready_iff :
    (now : ℤ) (db_ok : Bool) (db : Tables) (stats : Map SyncStats)
    → db.stats ≡ some stats
    → (r : Readiness) × (handle_node_readiness now db_ok (some db) ≡ some r)
      × ((r.ready ≡ true)
          ↔ ((db_ok ≡ true) × Values (λ (row : SyncStats). row.consecutive_failures < 5) stats))
unfolding handle_node_readiness sync_healthy
ready_iff now db_ok db stats e = (
  record {
    ready = db_ok && sync_healthy db;
    database = if db_ok then codes "ok" else codes "down";
    mesh_peers = online_count now db;
    sync_healthy = sync_healthy db;
  },
  refl,
  ground (arith, max_failures_iff 5 stats),
)
