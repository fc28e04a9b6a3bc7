-- ===== src/Transport/Client.antt =====
-- crates/convergio-mesh/src/transport.rs: the two requests of delta sync. The HTTP client (reqwest)
-- and the peer behind it are a parameter: what a request that was sent comes back with.
use convergio_mesh.Prelude.{Bool, false, not, List, Option, none, some, if◌then◌else◌}
use convergio_mesh.Prelude.Text.{Text}
use convergio_mesh.Sync.Types.{SyncChange, in_sync_tables}
use convergio_mesh.Transport.Addr.{AddrError, validate_peer_addr}

pub record Http : Type 0 where
  -- POST /api/sync/import: whether the peer answered with a success.
  pub post_import : Text → List SyncChange → Bool
  -- GET /api/sync/export: the changes of a success whose body parses.
  pub get_export : Text → Text → Option Text → Option (List SyncChange)

module _ (http : Http) where
  unfoldable pub send_checked : Text → List SyncChange → Option AddrError → Bool
  send_checked peer_addr changes (some e) = false
  send_checked peer_addr changes none = http.post_import peer_addr changes

  -- Whether the changes were taken.
  unfoldable pub send_changes_to_peer : Text → List SyncChange → Bool
  unfolding send_checked
  send_changes_to_peer peer_addr changes =
      send_checked peer_addr changes (validate_peer_addr peer_addr)

  unfoldable pub fetch_checked :
      Text → Text → Option Text → Option AddrError → Option (List SyncChange)
  fetch_checked peer_addr table since (some e) = none
  fetch_checked peer_addr table since none =
      if not (in_sync_tables table) then none else http.get_export peer_addr table since

  unfoldable pub fetch_changes_from_peer : Text → Text → Option Text → Option (List SyncChange)
  unfolding fetch_checked
  fetch_changes_from_peer peer_addr table since =
      fetch_checked peer_addr table since (validate_peer_addr peer_addr)
