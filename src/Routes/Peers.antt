-- ===== src/Routes/Peers.antt =====
-- crates/convergio-mesh/src/routes.rs: handle_peers. The name and the role of the node, the version
-- of the crate and the clock are parameters.
pub mod Local
use convergio_mesh.Prelude.{
  ℕ, Bool, true, false, List, [], ◌∷◌, ◌++◌, Option, none, some, ◌||◌, any, map, if◌then◌else◌,
}
use convergio_mesh.Prelude.Int.{ℤ}
use convergio_mesh.Prelude.Text.{Text, codes, text_eq, starts_with}
use convergio_mesh.Prelude.Map.{Map}
use convergio_mesh.Routes.Rows.{Rows, unprepared, unread, table}
use convergio_mesh.Routes.Heartbeat.{Heartbeat, is_online}

pub record PeerView : Type 0 where
  pub peer : Text
  pub last_seen : ℤ
  pub version : Option Text
  pub status : Text
  pub role : Option Text

-- The node itself: gethostname, CONVERGIO_NODE_ROLE, CARGO_PKG_VERSION.
pub record Host : Type 0 where
  pub name : Text
  pub role : Text
  pub version : Text

-- CASE WHEN last_seen > unixepoch() - 600
unfoldable pub view_of : ℤ → Text × Heartbeat → PeerView
unfolding is_online
view_of now (name, row) = record {
  peer = name;
  last_seen = row.last_seen;
  version = row.version;
  status = if is_online now row then codes "online" else codes "offline";
  role = row.role;
}

unfoldable pub is_local : Text → Text → Bool
unfolding text_eq starts_with
is_local local_name name =
    text_eq name local_name
    || starts_with (local_name ++ codes ".") name
    || starts_with (name ++ codes ".") local_name

unfoldable pub self_view : ℤ → Host → PeerView
self_view now host = record {
  peer = host.name;
  last_seen = now;
  version = some host.version;
  status = codes "online";
  role = some host.role;
}

unfoldable pub fix_self : ℤ → Host → PeerView → PeerView
unfolding is_local
fix_self now host p =
    if is_local host.name p.peer
    then record p { status = codes "online"; version = some host.version; last_seen = now }
    else p

unfoldable pub with_self : ℤ → Host → List PeerView → List PeerView
unfolding is_local self_view fix_self
with_self now host peers =
    if any (λ (p : PeerView). is_local host.name p.peer) peers
    then map (fix_self now host) peers
    else self_view now host ∷ peers

-- `none` for a pool without a connection and for a statement that is refused.
unfoldable pub handle_peers : ℤ → Host → Option (Rows (Map Heartbeat)) → Option (List PeerView)
unfolding with_self view_of
handle_peers now host none = none
handle_peers now host (some unprepared) = none
handle_peers now host (some unread) = some (with_self now host [])
handle_peers now host (some (table t)) = some (with_self now host (map (view_of now) t))
