-- ===== src/Node/Stats/Totals.antt =====
-- The totals add up.
use convergio_mesh.Prelude.{ℕ, ◌+◌, ◌≡◌, ◌≢◌, refl, false, Option, none, some, arith}
use convergio_mesh.Prelude.Text.{Text}
use convergio_mesh.Prelude.Text.Order.{text_eq_iff, text_eq_refl}
use convergio_mesh.Prelude.Map.{Map, lookup}
use convergio_mesh.Prelude.Map.Laws.{lookup-insert}
use convergio_mesh.Sync.Round.{Counts, nothing}
use convergio_mesh.Node.Stats.{
  SyncStats, add_counts, new_stats, upsert_stats, update_mesh_sync_stats,
}

-- The totals of a peer; a peer without a row has none.
abbrev pub totals_of : Option SyncStats → Counts
totals_of none = nothing
totals_of (some row) = row.totals

-- What one update makes of the table.
pub record Updated (now peer : Text) (counts : Counts) (latency_ms : ℕ)
    (stats stats' : Map SyncStats) : Type 0 where
  pub row : SyncStats
  pub entry : lookup peer stats' ≡ some row
  pub total : row.totals ≡ add_counts (totals_of (lookup peer stats)) counts
  pub time : row.last_sync_at ≡ now
  pub latency : row.last_latency_ms ≡ latency_ms
  pub cleared : row.last_error ≡ none
  pub others : (j : Text) → peer ≢ j → lookup j stats' ≡ lookup j stats

zero_add : (n : ℕ) → 0 + n ≡ n
zero_add n = omega arith

add_nothing : (c : Counts) → c ≡ add_counts nothing c
add_nothing c = rw (zero_add c.sent, zero_add c.received, zero_add c.applied) refl

upsert_stats-Updated :
    (now peer : Text) (counts : Counts) (latency_ms : ℕ) (stats : Map SyncStats)
    (o : Option SyncStats)
    → lookup peer stats ≡ o
    → Updated now peer counts latency_ms stats
        (upsert_stats peer (new_stats now counts latency_ms) o stats)
unfolding upsert_stats
upsert_stats-Updated now peer counts latency_ms stats none e =
    let row = new_stats now counts latency_ms in
    record {
      row = row;
      entry = rw (lookup-insert peer peer row stats, text_eq_refl peer) refl;
      total = rw e (add_nothing counts);
      time = refl;
      latency = refl;
      cleared = refl;
      others = λ j n. ground (arith, lookup-insert peer j row stats, text_eq_iff peer j);
    }
upsert_stats-Updated now peer counts latency_ms stats (some old) e =
    let row : SyncStats = record (new_stats now counts latency_ms) {
      totals = add_counts old.totals counts;
      consecutive_failures = old.consecutive_failures;
    } in
    record {
      row = row;
      entry = rw (lookup-insert peer peer row stats, text_eq_refl peer) refl;
      total = rw e refl;
      time = refl;
      latency = refl;
      cleared = refl;
      others = λ j n. ground (arith, lookup-insert peer j row stats, text_eq_iff peer j);
    }

-- An update of the statistics that SQLite takes adds the counts of the round to the totals of the
-- peer, which start from nothing, records the time and the latency, clears the error, and leaves the
-- rows of all other peers.
pub update_mesh_sync_stats-Updated :
    (now peer : Text) (counts : Counts) (latency_ms : ℕ) (stats : Map SyncStats)
    → Updated now peer counts latency_ms stats
        (update_mesh_sync_stats false now peer counts latency_ms stats)
unfolding update_mesh_sync_stats
update_mesh_sync_stats-Updated now peer counts latency_ms stats =
    upsert_stats-Updated now peer counts latency_ms stats (lookup peer stats) refl
