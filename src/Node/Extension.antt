-- ===== src/Node/Extension.antt =====
-- crates/convergio-mesh/src/ext.rs: the statistics, the health and the metrics of MeshExtension. The
-- manifest, the merge of the routers and the start of the loop are left out.
pub mod Online
use convergio_mesh.Prelude.{
  ℕ, Bool, true, false, List, [], ◌∷◌, ◌++◌, Option, none, some, ltb, if◌then◌else◌, ◌>>=◌,
}
use mathlib.Core.Option
use convergio_mesh.Prelude.Int.{ℤ}
use convergio_mesh.Prelude.Text.{Text, codes, text_ltb}
use convergio_mesh.Prelude.Text.Decimal.{to_decimal}
use convergio_mesh.Prelude.Map.{Map}
use convergio_mesh.Node.Stats.{SyncStats}
use convergio_mesh.Routes.Status.{Tables, online_count, total_synced}

-- crates/convergio-mesh/src/types.rs
pub record MeshStats : Type 0 where
  pub peers_online : ℕ
  pub total_synced : ℕ
  pub last_sync_latency_ms : Option ℕ

-- What the pool gives: the text of its error, or the tables.
pub data Pool : Type 0 where
  refused : Text → Pool
  connected : Tables → Pool

pub data StatsResult : Type 0 where
  ok : MeshStats → StatsResult
  err : Text → StatsResult

-- ORDER BY last_sync_at DESC LIMIT 1; SQL leaves open which of the rows of one time is taken, and
-- here it is the first by name.
unfoldable pub latest : Map SyncStats → Option SyncStats
unfolding text_ltb
latest [] = none
latest ((peer, row) ∷ rest) = elim (latest rest) [
  | none ↦ some row
  | some later ↦ if text_ltb row.last_sync_at later.last_sync_at then some later else some row
]

unfoldable pub last_latency : Option (Map SyncStats) → Option ℕ
unfolding latest
last_latency none = none
last_latency (some stats) = Option.map (λ (row : SyncStats). row.last_latency_ms) (latest stats)

unfoldable pub stats : ℤ → Pool → StatsResult
unfolding online_count total_synced last_latency
stats now (refused e) = err e
stats now (connected db) = ok (record {
  peers_online = online_count now db;
  total_synced = total_synced db;
  last_sync_latency_ms = last_latency db.stats;
})

-- convergio_types::extension::Health
pub data Health : Type 0 where
  healthy : Health
  degraded down : Text → Health

unfoldable pub health_of : StatsResult → Health
health_of (ok s) = if ltb 0 s.peers_online then healthy else degraded (codes "no peers online")
health_of (err e) = down (codes "mesh stats failed: " ++ e)

unfoldable pub health : ℤ → Pool → Health
unfolding health_of stats
health now pool = health_of (stats now pool)

-- A value is an f64; it is kept as the number that is converted. No metric has a label.
pub record Metric : Type 0 where
  pub name : Text
  pub value : ℕ

unfoldable pub latency_metric : Option ℕ → List Metric
latency_metric none = []
latency_metric (some lat) = (record { name = codes "mesh_sync_latency_ms"; value = lat }) ∷ []

unfoldable pub metrics_of : StatsResult → List Metric
unfolding latency_metric
metrics_of (ok s) =
    (record { name = codes "mesh_peers_online"; value = s.peers_online })
    ∷ (record { name = codes "mesh_total_synced"; value = s.total_synced })
    ∷ latency_metric s.last_sync_latency_ms
metrics_of (err e) = []

unfoldable pub metrics : ℤ → Pool → List Metric
unfolding metrics_of stats
metrics now pool = metrics_of (stats now pool)

-- convergio_telemetry::health::ComponentHealth; a u64 has at most 20 digits.
pub record ComponentHealth : Type 0 where
  pub name : Text
  pub status : Health
  pub message : Option Text

unfoldable pub check_of : StatsResult → ComponentHealth
unfolding to_decimal
check_of (ok s) = record {
  name = codes "mesh";
  status = if ltb 0 s.peers_online then healthy else degraded (codes "no peers");
  message = some (
      to_decimal 20 s.peers_online
      ++ (codes " peers, " ++ (to_decimal 20 s.total_synced ++ codes " synced")));
}
check_of (err e) = record { name = codes "mesh"; status = down e; message = none }

unfoldable pub check : ℤ → Pool → ComponentHealth
unfolding check_of stats
check now pool = check_of (stats now pool)
