-- ===== src/Lib.antt =====
-- Verification library of convergio-mesh: peer discovery, delta sync and delegation between the nodes
-- of a mesh. All paths are from the root of the repository; the program is the crate
-- crates/convergio-mesh, in Rust.
--
-- The parts and the files that model them:
--   Sync.Types, Sync.Json      types.rs, and the JSON values of a row (serde_json).
--   Sync.Sqlite                the statements that the code sends to SQLite, as an interface; what the
--                              theorems need of it are named hypotheses (StoresRows, Executes,
--                              ReplacesText, KeepsMeta, Reads, MetaApart), and Sync.Memory and Sync.Shelf
--                              are databases that have them.
--   Sync.Export, Sync.Apply    sync_apply.rs: export_changes_since, max_updated_at and
--                              apply_changes_detailed, with the check of each change (check_change), the
--                              statement (execute_verdict) and the report (record_outcome) apart.
--   Sync.Cursor                sync_cursor.rs: compute_new_cursor.
--   Sync.Round                 sync.rs: sync_table_with_peer, one function for each early return;
--                              Sync.Round.Exchange puts the import and export of a second node behind it.
--   Transport.Addr, .Client    transport.rs: validate_peer_addr and the two requests, over an HTTP client.
--   Transport.Reach, .Local    transport.rs: resolve_best_addr, and detect_local_tailscale_ip.
--   Node.Round, .Heartbeat     sync_loop.rs: run_sync_round, and the headers of a heartbeat.
--   Node.Delegation            delegation.rs: the progress of delegations.
--   Node.Capability            capability_types.rs: the tags.
--   Capabilities               capability_registry.rs and capability_routes.rs: the table of what each node
--                              can do (Table), the query by tags (Query), the listing (Listing) and the
--                              handlers (Handlers).
--   Node.Convergence           convergence.rs: the checksum of a node's tables, and who has diverged.
--   Node.Extension             ext.rs: statistics, health and metrics.
--   Node.Healthy               the rounds of the loop against the check of readiness.
--   Sync.Schema, .Interval     sync.rs: check_schema_compatibility, and resolve_interval_secs.
--   Node.Stats                 transport.rs: update_mesh_sync_stats.
--   Auth.Hmac, .Secret, .Signed  auth.rs, the headers of transport.rs (apply_mesh_auth) and the check of
--                              them in routes.rs.
--   Routes.Sync, .Heartbeat    routes.rs: handle_export, handle_import, handle_heartbeat.
--   Routes.Status, .Peers      routes.rs: handle_status, handle_sync_status, handle_node_readiness and
--                              handle_peers.
--   Routes.Roles               routes_role_config.rs: handle_set_role, handle_get_role, handle_topology.
--   Routes.Table               the routes of all handlers (ext.rs) and the tools of mcp_defs.rs.
--   Routes.CrossPoll           routes_cross_poll.rs: the summary of the plans, here or at a peer.
--   Routes.SyncRepo            routes_sync_repo.rs: the update of the repository, as a list of commands.
--   Peers.Config, .Name        peers_types.rs: the data, and canonical_peer_name with its panic.
--   Peers.Parser, .Ini         peers_parser.rs: build_peer and flush_section, and parse_ini.
--   Peers.Printer              peers_parser.rs: peer_to_ini, with PeersRegistry::save of peers_registry.rs.
--   Peers.Registry             peers_registry.rs: the registry and its operations.
--   Peers.RoundTrip            the registry that is saved and loaded again.
--   Prelude                    texts as lists of code points with the functions of str that the code
--                              calls, maps in key order (BTreeMap), and i64 with its wrap-around.
--
-- How they interact: the loop (Node.Round) takes the active peers of the registry, finds the address
-- of each with Transport.Reach, and runs a round for each table. A round (Sync.Round) reads its
-- cursor, exports, sends and fetches through Transport.Client, applies the changes with Sync.Apply
-- and moves the cursor with Sync.Cursor. The requests arrive at the handlers of Routes, which check
-- them with Auth.Signed and then call Sync.Export or Sync.Apply on the database. The peers come from
-- peers.conf through Peers.Ini into the registry. The rounds write the statistics (Node.Stats) and the
-- heartbeats the table of peers, which Routes.Status, Routes.Peers and Node.Extension read.
--
-- A stateful function takes the database and returns it with its result. A fallible one returns an
-- Option or a result type with the error. All loops are structural recursion on the list they read, so
-- no fuel is needed. Timestamps are texts, compared by code point, as the code compares them.
--
-- Parameters: SQLite, the HTTP client and the peer behind it, the clock, HMAC-SHA256, SHA-256, hex and
-- base64, the JSON parser of request bodies, and what other connections write to the database while a
-- round waits; the order in which a HashMap gives its entries, the programs that the update of the
-- repository runs, the name of the host and the dates of SQLite. Not modelled: logging, timeouts, the
-- schema of the tables, and the registration with the host program.
pub mod Prelude
pub mod Auth
pub mod Transport
pub mod Sync
pub mod Peers
pub mod Routes
pub mod Capabilities
pub mod Node
