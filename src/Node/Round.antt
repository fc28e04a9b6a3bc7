-- ===== src/Node/Round.antt =====
-- crates/convergio-mesh/src/sync_loop.rs: run_sync_round. The peers that answer, what each round of
-- a table meets, the clock and the failures of the statistics are parameters. The table
-- mesh_sync_stats is kept apart from the rest of the database, and a heartbeat that is sent is noted
-- with its address.
pub mod Contacts
use convergio_mesh.Prelude.{
  ℕ, ◌+◌, Bool, true, false, not, List, [], ◌∷◌, ◌++◌, Option, none, some, is_empty, if◌then◌else◌,
}
use convergio_mesh.Prelude.Text.{Text, codes, text_eq}
use convergio_mesh.Prelude.Map.{Map, insert}
use convergio_mesh.Peers.Config.{Outcome, ok, err, panics, PeerConfig, PeersRegistry}
use convergio_mesh.Peers.Registry.{list_active}
use convergio_mesh.Sync.Types.{sync_tables}
use convergio_mesh.Sync.Sqlite.{Sqlite}
use convergio_mesh.Sync.Round.{Counts, nothing, World, sync_table_with_peer}
use convergio_mesh.Transport.Reach.{resolve_best_addr}
use convergio_mesh.Node.Stats.{SyncStats, add_counts, update_mesh_sync_stats}

unfoldable pub add_field : Text → Option Text → Map Text → Map Text
unfolding insert
add_field key none map = map
add_field key (some ip) map = insert key ip map

unfoldable pub peer_to_fields : PeerConfig → Map Text
unfolding add_field insert
peer_to_fields peer =
    let map =
      add_field (codes "lan_ip") peer.lan_ip
        (add_field (codes "thunderbolt_ip") peer.thunderbolt_ip []) in
    if not (is_empty peer.tailscale_ip)
    then insert (codes "tailscale_ip") peer.tailscale_ip map
    else map

-- Whether a peer is the node itself, by its Tailscale address.
unfoldable pub is_self : Option Text → PeerConfig → Bool
unfolding text_eq
is_self none peer = false
is_self (some local_ip) peer = text_eq peer.tailscale_ip local_ip

module _ (db : Sqlite) where
  open db use {Conn}

  pub record Env : Type 0 where
    pub is_socket_addr : Text → Bool
    pub connects : Text → Bool
    pub world : Text → Text → World db
    pub now : Text → Text
    pub latency_ms : Text → ℕ
    pub stats_fail : Text → Bool

  pub record Node : Type 0 where
    pub conn : Conn
    pub stats : Map SyncStats
    pub heartbeats : List Text

  module _ (env : Env) where
    -- One after the other, on one connection, with the counts added up.
    unfoldable pub sync_all : Text → List Text → Conn × Counts → Conn × Counts
    unfolding sync_table_with_peer
    sync_all addr [] s = s
    sync_all addr (table ∷ tables) (conn, counts) =
        let (conn', more) = sync_table_with_peer db (env.world addr table) addr table conn in
        sync_all addr tables (conn', add_counts counts more)

    unfoldable pub with_addr : Option Text → Node → Node
    unfolding sync_all update_mesh_sync_stats
    with_addr none node = node
    with_addr (some addr) node =
        let (conn, counts) = sync_all addr sync_tables (node.conn, nothing) in
        record {
          conn = conn;
          stats =
              update_mesh_sync_stats (env.stats_fail addr) (env.now addr) addr counts
                (env.latency_ms addr) node.stats;
          heartbeats = node.heartbeats ++ addr ∷ [];
        }

    unfoldable pub target : Option Text → PeerConfig → Option Text
    unfolding is_self resolve_best_addr peer_to_fields
    target local_ts peer =
        if is_self local_ts peer
        then none
        else resolve_best_addr env.is_socket_addr env.connects (peer_to_fields peer)

    unfoldable pub run_peers : Option Text → List (Text × PeerConfig) → Node → Node
    unfolding with_addr target
    run_peers local_ts [] node = node
    run_peers local_ts ((name, peer) ∷ rest) node =
        run_peers local_ts rest (with_addr (target local_ts peer) node)

    -- The flag is whether the pool gives a connection. A panic ends the task of this round only.
    unfoldable pub run_sync_round : Outcome PeersRegistry → Bool → Option Text → Node → Node
    unfolding run_peers list_active
    run_sync_round (ok registry) true local_ts node = run_peers local_ts (list_active registry) node
    run_sync_round (ok registry) false local_ts node = node
    run_sync_round (err e) pool local_ts node = node
    run_sync_round panics pool local_ts node = node
