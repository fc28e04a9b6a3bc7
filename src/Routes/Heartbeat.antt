-- ===== src/Routes/Heartbeat.antt =====
-- crates/convergio-mesh/src/routes.rs: handle_heartbeat and the count of handle_status. The table
-- peer_heartbeats is a map from names to rows; the JSON parser of the body, the clock and the errors
-- of the database are parameters.
pub mod Online
use convergio_mesh.Prelude.{
  ℕ, ◌+◌, Bool, true, false, List, [], ◌∷◌, Option, none, some, if◌then◌else◌,
}
use convergio_mesh.Prelude.Int.{ℤ, pos, ◌-ℤ◌, ltb_ℤ}
use convergio_mesh.Prelude.Text.{Text, codes}
use convergio_mesh.Prelude.Map.{Map, insert}
use convergio_mesh.Auth.Hmac.{Bytes, Mac}
use convergio_mesh.Auth.Signed.{Hex, Headers, Refusal, authorize}

pub record HeartbeatRequest : Type 0 where
  pub peer : Text
  pub version : Option Text
  pub capabilities : Option Text
  pub role : Option Text

pub record Heartbeat : Type 0 where
  pub last_seen : ℤ
  pub version : Option Text
  pub capabilities : Option Text
  pub role : Option Text

-- INSERT INTO peer_heartbeats ... ON CONFLICT(peer_name) DO UPDATE SET every other column.
unfoldable pub upsert_heartbeat : ℤ → HeartbeatRequest → Map Heartbeat → Map Heartbeat
unfolding insert
upsert_heartbeat now r =
    insert r.peer (record {
      last_seen = now;
      version = r.version;
      capabilities = r.capabilities;
      role = r.role;
    })

-- last_seen > unixepoch() - 600
unfoldable pub is_online : ℤ → Heartbeat → Bool
unfolding ◌-ℤ◌
is_online now row = ltb_ℤ (now -ℤ pos 600) row.last_seen

unfoldable pub count_online : ℤ → Map Heartbeat → ℕ
unfolding is_online
count_online now [] = 0
count_online now ((name, row) ∷ rest) =
    let others = count_online now rest in if is_online now row then 1 + others else others

-- handle_status: the local node sends itself no heartbeat and counts as one.
unfoldable pub peers_online : ℤ → Map Heartbeat → ℕ
unfolding count_online
peers_online now table = count_online now table + 1

pub data Reply : Type 0 where
  unauthorized : Refusal → Reply
  invalid_json no_connection failed stored : Reply

-- The table is what the pool gives; the flag is whether the statement fails.
unfoldable pub store_heartbeat :
    ℤ → Bool → Option (Map Heartbeat) → Option HeartbeatRequest → Option (Map Heartbeat) × Reply
unfolding upsert_heartbeat
store_heartbeat now fails pool none = (pool, invalid_json)
store_heartbeat now fails none (some r) = (none, no_connection)
store_heartbeat now true (some table) (some r) = (some table, failed)
store_heartbeat now false (some table) (some r) = (some (upsert_heartbeat now r table), stored)

unfoldable pub heartbeat_authorized :
    ℤ
    → Bool
    → Option (Map Heartbeat)
    → Option HeartbeatRequest
    → Option Refusal
    → Option (Map Heartbeat) × Reply
unfolding store_heartbeat
heartbeat_authorized now fails pool body (some r) = (pool, unauthorized r)
heartbeat_authorized now fails pool body none = store_heartbeat now fails pool body

module _ (mac : Mac) (hex : Hex) (from_slice : Bytes → Option HeartbeatRequest) where
  unfoldable pub handle_heartbeat :
      ℤ
      → Bool
      → Option Bytes
      → Option (Map Heartbeat)
      → Headers
      → Bytes
      → Option (Map Heartbeat) × Reply
  unfolding heartbeat_authorized
  handle_heartbeat now fails shared_secret pool headers raw_body =
      heartbeat_authorized now fails pool (from_slice raw_body)
        (authorize mac hex now (codes "/api/heartbeat") shared_secret headers)
