-- ===== src/Routes/Roles.antt =====
-- crates/convergio-mesh/src/routes_role_config.rs: the handlers of the roles, on the table
-- mesh_role_assignments as a map from peers to rows. The errors of the database, the name of the host
-- and the clocks are parameters.
pub mod Valid
use convergio_mesh.Prelude.{
  Bool, true, false, not, List, [], ◌∷◌, ◌++◌, Option, none, some, or_else, ◌>>=◌, if◌then◌else◌,
}
use mathlib.Core.Option
use convergio_mesh.Prelude.Int.{ℤ}
use convergio_mesh.Prelude.Text.{Text, codes, elem, join}
use convergio_mesh.Prelude.Map.{Map, lookup, insert}
use convergio_mesh.Routes.Rows.{Rows, unprepared, unread, table}
use convergio_mesh.Routes.Heartbeat.{Heartbeat, is_online}

abbrev pub valid_roles : List Text
valid_roles =
    codes "all"
    ∷ codes "orchestrator"
    ∷ codes "kernel"
    ∷ codes "voice"
    ∷ codes "worker"
    ∷ codes "nightagent"
    ∷ []

-- The ids and descriptions.
abbrev pub handle_available_roles : List (Text × Text)
handle_available_roles =
    (codes "all", codes "All extensions loaded (single-node default)")
    ∷ (codes "orchestrator", codes "Plans DB, platform services, worker coordination")
    ∷ (codes "kernel", codes "Local AI kernel, Telegram, voice")
    ∷ (codes "voice", codes "Voice I/O only")
    ∷ (codes "worker", codes "Receives delegated tasks, runs agents")
    ∷ (codes "nightagent", codes "Night agent workloads (knowledge sync, nightly jobs)")
    ∷ []

pub record Assignment : Type 0 where
  pub role : Text
  pub updated_at : Text

pub data Reply : Type 0 where
  invalid_role : Text → Reply
  no_connection failed : Reply
  assigned : Text → Text → Reply

-- The table is what the pool gives; the time is that of the statement, or `none` if it fails.
unfoldable pub assign :
    Option Text → Text → Text → Option (Map Assignment) → Option (Map Assignment) × Reply
unfolding insert
assign now peer_name role none = (none, no_connection)
assign none peer_name role (some rows) = (some rows, failed)
assign (some now) peer_name role (some rows) = (
  some (insert peer_name (record { role = role; updated_at = now }) rows),
  assigned peer_name role,
)

unfoldable pub handle_set_role :
    Option Text → Text → Text → Option (Map Assignment) → Option (Map Assignment) × Reply
unfolding assign elem join
handle_set_role now peer_name role pool =
    if not (elem role valid_roles)
    then (
      pool,
      invalid_role (
          codes "invalid role '"
          ++ (role ++ (codes "'; valid: " ++ join (codes ", ") valid_roles))),
    )
    else assign now peer_name role pool

pub record NodeRole : Type 0 where
  pub peer_name : Text
  pub role : Text

-- `none` for a pool without a connection; a query that fails, or finds no row, gives "all".
unfoldable pub handle_get_role : Text → Option (Option (Map Assignment)) → Option NodeRole
unfolding lookup
handle_get_role hostname none = none
handle_get_role hostname (some rows) = some (record {
  peer_name = hostname;
  role =
      or_else
        (Option.map (λ (row : Assignment). row.role)
          (rows >>= λ (t : Map Assignment). lookup hostname t))
        (codes "all");
})

pub record TopologyNode : Type 0 where
  pub peer_name : Text
  pub assigned_role : Text
  pub assigned_at : Text
  pub last_seen : Option ℤ
  pub status : Text
  pub heartbeat_role : Option Text

-- CASE WHEN ph.last_seen > unixepoch() - 600: a peer without a heartbeat is offline.
unfoldable pub status_of : ℤ → Option Heartbeat → Text
unfolding is_online
status_of now none = codes "offline"
status_of now (some row) = if is_online now row then codes "online" else codes "offline"

-- LEFT JOIN peer_heartbeats.
unfoldable pub join_row : ℤ → Map Heartbeat → Text × Assignment → TopologyNode
unfolding status_of lookup
join_row now heartbeats (peer_name, row) =
    let heartbeat = lookup peer_name heartbeats in
    record {
      peer_name = peer_name;
      assigned_role = row.role;
      assigned_at = row.updated_at;
      last_seen = Option.map (λ (h : Heartbeat). h.last_seen) heartbeat;
      status = status_of now heartbeat;
      heartbeat_role = heartbeat >>= λ (h : Heartbeat). h.role;
    }

unfoldable pub join_rows : ℤ → Map Heartbeat → Map Assignment → List TopologyNode
unfolding join_row
join_rows now heartbeats [] = []
join_rows now heartbeats (row ∷ rows) = join_row now heartbeats row ∷ join_rows now heartbeats rows

-- The nodes of the answer; their count is their length.
unfoldable pub handle_topology :
    ℤ → Option (Rows (Map Assignment × Map Heartbeat)) → Option (List TopologyNode)
unfolding join_rows
handle_topology now none = none
handle_topology now (some unprepared) = none
handle_topology now (some unread) = some []
handle_topology now (some (table (rows, heartbeats))) = some (join_rows now heartbeats rows)
