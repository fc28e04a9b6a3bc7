-- ===== src/Node/Stats.antt =====
-- crates/convergio-mesh/src/transport.rs: update_mesh_sync_stats, on the table mesh_sync_stats as a
-- map from addresses to rows. SQLite's counters are of 64 bits, and the model's have no bound.
pub mod Totals
use convergio_mesh.Prelude.{ℕ, ◌+◌, Bool, true, false, Option, none, some, if◌then◌else◌}
use convergio_mesh.Prelude.Text.{Text}
use convergio_mesh.Prelude.Map.{Map, lookup, insert}
use convergio_mesh.Sync.Round.{Counts}

pub record SyncStats : Type 0 where
  pub totals : Counts
  pub last_sync_at : Text
  pub last_latency_ms : ℕ
  pub last_error : Option Text
  pub consecutive_failures : ℕ

abbrev pub add_counts : Counts → Counts → Counts
add_counts a b = record {
  sent = a.sent + b.sent;
  received = a.received + b.received;
  applied = a.applied + b.applied;
}

-- The row of `VALUES`, with the default of the column that it does not name.
abbrev pub new_stats : Text → Counts → ℕ → SyncStats
new_stats now counts latency_ms = record {
  totals = counts;
  last_sync_at = now;
  last_latency_ms = latency_ms;
  last_error = none;
  consecutive_failures = 0;
}

-- ON CONFLICT(peer_name) DO UPDATE: the totals are added up, the failures are not among the columns
-- that are set, the rest is replaced.
unfoldable pub upsert_stats : Text → SyncStats → Option SyncStats → Map SyncStats → Map SyncStats
unfolding insert
upsert_stats peer new none stats = insert peer new stats
upsert_stats peer new (some old) stats =
    insert peer
      (record new {
        totals = add_counts old.totals new.totals;
        consecutive_failures = old.consecutive_failures;
      })
      stats

-- The flag is whether the statement fails, which is only logged.
unfoldable pub update_mesh_sync_stats :
    Bool → Text → Text → Counts → ℕ → Map SyncStats → Map SyncStats
unfolding upsert_stats lookup
update_mesh_sync_stats fails now peer_addr counts latency_ms stats =
    if fails
    then stats
    else upsert_stats peer_addr (new_stats now counts latency_ms) (lookup peer_addr stats) stats
