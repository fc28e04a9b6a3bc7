-- ===== src/Routes/CrossPoll/Resolve.antt =====
-- Where a proxied request goes.
use convergio_mesh.Prelude.{◌≡◌, Bool, ◌++◌, Option, some}
use convergio_mesh.Prelude.Text.{Text, codes}
use convergio_mesh.Sync.Json.{Json}
use convergio_mesh.Peers.Config.{PeerConfig, PeersRegistry}
use convergio_mesh.Peers.Registry.{get_peer}
use convergio_mesh.Transport.Reach.{resolve_best_addr}
use convergio_mesh.Node.Round.{peer_to_fields}
use convergio_mesh.Routes.CrossPoll.{Fetched, body}

-- The address that a request for a peer is proxied to.
abbrev sync_addr : (Text → Bool) → (Text → Bool) → PeerConfig → Option Text
sync_addr is_socket_addr connects cfg =
    resolve_best_addr is_socket_addr connects (peer_to_fields cfg)

-- What a proxied answer comes from: a registered peer, under its name or an alias, at the address at
-- which the loop syncs with it, that answered with the value at its own summary.
pub record Source (is_socket_addr connects : Text → Bool) (fetch : Text → Fetched)
    (registry : PeersRegistry) (peer_name name : Text) (json : Json) : Type 0 where
  pub cfg : PeerConfig
  pub addr : Text
  pub known : get_peer peer_name registry ≡ some (name, cfg)
  pub reached : resolve_best_addr is_socket_addr connects (peer_to_fields cfg) ≡ some addr
  pub answered : fetch (codes "http://" ++ (addr ++ codes "/api/mesh/plans/summary")) ≡ body json
