-- ===== src/Routes/CrossPoll.antt =====
-- crates/convergio-mesh/src/routes_cross_poll.rs: the summary of the plans of the node or of one of
-- its peers. The file peers.conf, the peers that answer and the HTTP client are parameters.
pub mod Resolve
use convergio_mesh.Prelude.{
  ℕ, Bool, true, false, List, [], ◌∷◌, ◌++◌, Option, none, some, length, ltb, leb, is_empty, ◌&&◌,
  or_else, if◌then◌else◌,
}
use convergio_mesh.Prelude.Text.{Text, codes}
use convergio_mesh.Prelude.Map.{Map, insert}
use convergio_mesh.Sync.Json.{Json}
use convergio_mesh.Peers.Config.{PeerConfig, PeersRegistry}
use convergio_mesh.Peers.Registry.{get_peer}
use convergio_mesh.Transport.Reach.{resolve_best_addr}
use convergio_mesh.Node.Round.{add_field}

-- Every peer has its Tailscale address here, also an empty one.
unfoldable pub peer_config_to_fields : PeerConfig → Map Text
unfolding add_field insert
peer_config_to_fields cfg =
    add_field (codes "thunderbolt_ip") cfg.thunderbolt_ip
      (add_field (codes "lan_ip") cfg.lan_ip (insert (codes "tailscale_ip") cfg.tailscale_ip []))

-- What the peer is asked over HTTP comes to: the client cannot be built, the request fails, a status
-- that is no success, a body that is no JSON, or a JSON value.
pub data Fetched : Type 0 where
  no_client unreachable bad_status bad_body : Fetched
  body : Json → Fetched

pub data Reply : Type 0 where
  no_connection client_error join_error : Reply
  local_summary : ℕ → Option ℕ → Reply
  -- Status 502, with the reason.
  bad_gateway : Text → Reply
  -- The body of the peer, with `source` set to the name.
  proxied : Text → Json → Reply

-- The ids of the table plans, or `none` if the queries fail.
unfoldable pub latest_id : List ℕ → Option ℕ
latest_id [] = none
latest_id (id ∷ ids) = elim (latest_id ids) [
  | none ↦ some id
  | some later ↦ if ltb id later then some later else some id
]

unfoldable pub local_plans_summary : Option (Option (List ℕ)) → Reply
unfolding latest_id
local_plans_summary none = no_connection
local_plans_summary (some none) = local_summary 0 none
local_plans_summary (some (some ids)) = local_summary (length ids) (latest_id ids)

-- What PeersRegistry::load comes to: its error as text, or the registry.
pub data Loaded : Type 0 where
  load_error : Text → Loaded
  loaded : PeersRegistry → Loaded

pub data Resolved : Type 0 where
  unresolved : Text → Resolved
  resolved : Text → Text → Resolved

unfoldable pub addr_of : Text → Option Text → Resolved
addr_of canonical none = unresolved (codes "peer '" ++ (canonical ++ codes "' unreachable"))
addr_of canonical (some addr) = resolved canonical addr

unfoldable pub reply_of : Text → Fetched → Reply
reply_of canonical no_client = client_error
reply_of canonical unreachable = bad_gateway (codes "peer request failed")
reply_of canonical bad_status = bad_gateway (codes "peer returned")
reply_of canonical bad_body = bad_gateway (codes "parse peer response")
reply_of canonical (body json) = proxied canonical json

-- The client asks the summary of the peer at its URL, which has no `via`, so that the peer answers
-- from its own plans. What the errors of the client add to the reasons is left out.
unfoldable pub proxy_resolved : (Text → Fetched) → Resolved → Reply
unfolding reply_of
proxy_resolved fetch (unresolved msg) = bad_gateway msg
proxy_resolved fetch (resolved canonical addr) =
    reply_of canonical (fetch (codes "http://" ++ (addr ++ codes "/api/mesh/plans/summary")))

module _ (is_socket_addr connects : Text → Bool) where
  unfoldable pub resolve_found : Text → Option (Text × PeerConfig) → Resolved
  unfolding addr_of resolve_best_addr peer_config_to_fields
  resolve_found peer_name none = unresolved (codes "peer '" ++ (peer_name ++ codes "' not found"))
  resolve_found peer_name (some (canonical, cfg)) =
      addr_of canonical (resolve_best_addr is_socket_addr connects (peer_config_to_fields cfg))

  unfoldable pub resolve_peer_addr : Loaded → Text → Resolved
  unfolding resolve_found get_peer
  resolve_peer_addr (load_error e) peer_name = unresolved (codes "load peers.conf: " ++ e)
  resolve_peer_addr (loaded registry) peer_name =
      resolve_found peer_name (get_peer peer_name registry)

  -- The flag is whether the blocking task panics or is cancelled.
  unfoldable pub proxy_to_peer : (Text → Fetched) → Bool → Loaded → Text → Reply
  unfolding proxy_resolved resolve_peer_addr
  proxy_to_peer fetch true registry peer_name = join_error
  proxy_to_peer fetch false registry peer_name =
      proxy_resolved fetch (resolve_peer_addr registry peer_name)

  unfoldable pub handle_plans_summary :
      (Text → Fetched) → Bool → Loaded → Option (Option (List ℕ)) → Option Text → Reply
  unfolding proxy_to_peer local_plans_summary
  handle_plans_summary fetch panics registry plans (some peer_name) =
      proxy_to_peer fetch panics registry peer_name
  handle_plans_summary fetch panics registry plans none = local_plans_summary plans
