-- ===== src/Node/Healthy.antt =====
-- crates/convergio-mesh/src/sync_loop.rs and routes.rs: what the rounds of the loop leave for the
-- check of readiness, which reads the failures in mesh_sync_stats.
use convergio_mesh.Prelude.{
  ℕ, ◌≡◌, refl, Bool, true, false, List, [], ◌∷◌, Option, none, some, arith, if◌then◌else◌, ◌&&◌,
}
use convergio_mesh.Prelude.Int.{ℤ}
use convergio_mesh.Prelude.Text.{Text, codes}
use convergio_mesh.Prelude.Map.{Map, lookup}
use convergio_mesh.Prelude.Map.Entries.{Values, Values-insert, Values-lookup}
use convergio_mesh.Peers.Config.{Outcome, ok, err, panics, PeerConfig, PeersRegistry}
use convergio_mesh.Peers.Registry.{list_active}
use convergio_mesh.Sync.Sqlite.{Sqlite}
use convergio_mesh.Sync.Round.{Counts}
use convergio_mesh.Node.Stats.{SyncStats, new_stats, upsert_stats, update_mesh_sync_stats}
use convergio_mesh.Node.Round.{Env, Node, with_addr, target, run_peers, run_sync_round}
use convergio_mesh.Routes.Status.{
  Tables, Readiness, max_failures, sync_healthy, online_count, handle_node_readiness,
}

-- No peer has a failure.
abbrev pub IsClean : Map SyncStats → Type 0
IsClean = Values (λ (row : SyncStats). row.consecutive_failures ≡ 0)

upsert-IsClean :
    (peer now : Text) (counts : Counts) (latency_ms : ℕ) (stats : Map SyncStats)
    (o : Option SyncStats)
    → lookup peer stats ≡ o
    → IsClean stats
    → IsClean (upsert_stats peer (new_stats now counts latency_ms) o stats)
unfolding upsert_stats
upsert-IsClean peer now counts latency_ms stats none e h =
    Values-insert (λ (row : SyncStats). row.consecutive_failures ≡ 0) peer _ stats refl h
upsert-IsClean peer now counts latency_ms stats (some old) e h =
    Values-insert (λ (row : SyncStats). row.consecutive_failures ≡ 0) peer _ stats
      (Values-lookup (λ (row : SyncStats). row.consecutive_failures ≡ 0) peer stats h e) h

update-IsClean :
    (fails : Bool) (now peer : Text) (counts : Counts) (latency_ms : ℕ) (stats : Map SyncStats)
    → IsClean stats
    → IsClean (update_mesh_sync_stats fails now peer counts latency_ms stats)
unfolding update_mesh_sync_stats
update-IsClean true now peer counts latency_ms stats h = h
update-IsClean false now peer counts latency_ms stats h =
    upsert-IsClean peer now counts latency_ms stats (lookup peer stats) refl h

max_failures_clean : (stats : Map SyncStats) → IsClean stats → max_failures stats ≡ 0
unfolding max_failures
max_failures_clean [] h = refl
max_failures_clean ((peer, row) ∷ rest) h = ground (arith, max_failures_clean rest)

tables_healthy :
    (tables : Tables) (stats : Map SyncStats)
    → tables.stats ≡ some stats
    → max_failures stats ≡ 0
    → sync_healthy tables ≡ true
unfolding sync_healthy
tables_healthy tables stats e h = ground arith

module _ (db : Sqlite) where
  with_addr-IsClean :
      (env : Env db) (addr : Option Text) (node : Node db)
      → IsClean node.stats
      → IsClean (with_addr db env addr node).stats
  unfolding with_addr
  with_addr-IsClean env none node h = h
  with_addr-IsClean env (some addr) node h =
      update-IsClean (env.stats_fail addr) (env.now addr) addr _ (env.latency_ms addr) node.stats h

  run_peers-IsClean :
      (env : Env db) (local_ts : Option Text) (peers : List (Text × PeerConfig)) (node : Node db)
      → IsClean node.stats
      → IsClean (run_peers db env local_ts peers node).stats
  unfolding run_peers
  run_peers-IsClean env local_ts [] node h = h
  run_peers-IsClean env local_ts ((name, peer) ∷ rest) node h =
      run_peers-IsClean env local_ts rest _
        (with_addr-IsClean env (target db env local_ts peer) node h)

  -- Rounds of the loop one after the other, whatever each of them meets.
  pub data Rounds (node : Node db) : Node db → Type 0 where
    start : Rounds node node
    round :
        {node' : Node db}
        → Rounds node node'
        → (env : Env db) (registry : Outcome PeersRegistry) (pool : Bool) (local_ts : Option Text)
        → Rounds node (run_sync_round db env registry pool local_ts node')

  round-IsClean :
      (env : Env db) (registry : Outcome PeersRegistry) (pool : Bool) (local_ts : Option Text)
      (node : Node db)
      → IsClean node.stats
      → IsClean (run_sync_round db env registry pool local_ts node).stats
  unfolding run_sync_round
  round-IsClean env (ok registry) true local_ts node h =
      run_peers-IsClean env local_ts (list_active registry) node h
  round-IsClean env (ok registry) false local_ts node h = h
  round-IsClean env (err e) pool local_ts node h = h
  round-IsClean env panics pool local_ts node h = h

  Rounds-IsClean :
      {node node' : Node db} → Rounds node node' → IsClean node.stats → IsClean node'.stats
  Rounds-IsClean start h = h
  Rounds-IsClean (round r env registry pool local_ts) h =
      round-IsClean env registry pool local_ts _ (Rounds-IsClean r h)

  -- From a table of statistics without failures, such as the empty one, whatever the rounds meet, also
  -- if no peer answers in any of them, the check of readiness finds no failure: the node is ready
  -- exactly if SELECT 1 succeeds.
  pub rounds-ready :
      {node node' : Node db}
      → Rounds node node'
      → IsClean node.stats
      → (now : ℤ) (db_ok : Bool) (tables : Tables) → tables.stats ≡ some node'.stats
      → (r : Readiness) × (handle_node_readiness now db_ok (some tables) ≡ some r)
        × (r.sync_healthy ≡ true)
        × (r.ready ≡ db_ok)
  unfolding handle_node_readiness
  rounds-ready r h now db_ok tables e =
      let healthy = tables_healthy tables _ e (max_failures_clean _ (Rounds-IsClean r h)) in
      (
        record {
          ready = db_ok && sync_healthy tables;
          database = if db_ok then codes "ok" else codes "down";
          mesh_peers = online_count now tables;
          sync_healthy = sync_healthy tables;
        },
        refl,
        healthy,
        ground (arith, healthy),
      )
