-- ===== src/Node/Extension/Online.antt =====
-- When a node is healthy, and what a heartbeat does for it.
use convergio_mesh.Prelude.{
  ℕ, ◌+◌, ◌≡◌, ◌<◌, ◌≤◌, ◌↔◌, refl, Bool, true, false, [], ◌∷◌, Option, some, ltb, any, arith,
  if◌then◌else◌,
}
use convergio_mesh.Prelude.Int.{ℤ, pos}
use convergio_mesh.Prelude.Text.{Text}
use convergio_mesh.Prelude.Map.{Map, lookup}
use convergio_mesh.Prelude.Map.Laws.{IsSorted}
use convergio_mesh.Auth.Hmac.{Bytes, Mac}
use convergio_mesh.Auth.Signed.{Hex, Headers}
use convergio_mesh.Routes.Heartbeat.{
  HeartbeatRequest, Heartbeat, is_online, count_online, stored, handle_heartbeat,
}
use convergio_mesh.Routes.Heartbeat.Online.{row_of, is_online_iff, heartbeat_stored}
use convergio_mesh.Routes.Status.{Tables, MeshStatus, online_count, total_synced, handle_status}
use convergio_mesh.Node.Stats.{SyncStats}
use convergio_mesh.Node.Extension
use convergio_mesh.Node.Extension.{
  Pool, connected, ok, err, Health, healthy, degraded, down, StatsResult, stats, health_of, health,
  check_of, check,
}

-- The same verdict, whatever the reason that goes with it.
pub data SameVerdict : Health → Health → Type 0 where
  both_healthy : SameVerdict healthy healthy
  both_degraded : (a b : Text) → SameVerdict (degraded a) (degraded b)
  both_down : (a b : Text) → SameVerdict (down a) (down b)

count_online-any :
    (now : ℤ) (t : Map Heartbeat)
    → ltb 0 (count_online now t) ≡ any (λ (e : Text × Heartbeat). is_online now e.1) t
unfolding count_online
count_online-any now [] = refl
count_online-any now ((name, row) ∷ rest) = ground (arith, count_online-any now rest)

verdict_of :
    (b : Bool) (x y : Text)
    → SameVerdict (if b then healthy else degraded x) (if b then healthy else degraded y)
verdict_of true x y = both_healthy
verdict_of false x y = both_degraded x y

check-health : (r : StatsResult) → SameVerdict (health_of r) (check_of r).status
unfolding health_of check_of
check-health (ok s) = verdict_of (ltb 0 s.peers_online) _ _
check-health (err e) = both_down _ e

healthy_iff :
    (now : ℤ) (db : Tables) (t : Map Heartbeat)
    → db.heartbeats ≡ some t
    → (health_of (stats now (connected db)) ≡ healthy)
      ↔ (any (λ (e : Text × Heartbeat). is_online now e.1) t ≡ true)
unfolding health_of stats online_count
healthy_iff now db t e = ground (arith, count_online-any now t)

-- Over a table of heartbeats that can be read, the extension is healthy exactly if a peer was heard
-- of in the last ten minutes, and the health check comes to the verdict of the extension.
pub health_iff :
    (now : ℤ) (db : Tables) (t : Map Heartbeat)
    → db.heartbeats ≡ some t
    → ((health now (connected db) ≡ healthy)
        ↔ (any (λ (e : Text × Heartbeat). is_online now e.1) t ≡ true))
      × SameVerdict (health now (connected db)) (check now (connected db)).status
unfolding health check
health_iff now db t e = (healthy_iff now db t e, check-health (stats now (connected db)))

count_online-pos :
    (now : ℤ) (k : Text) (row : Heartbeat) (t : Map Heartbeat)
    → lookup k t ≡ some row
    → is_online now row ≡ true
    → 0 < count_online now t
unfolding count_online lookup
count_online-pos now k row [] e h = cc
count_online-pos now k row ((j, w) ∷ rest) e h = ground (arith, count_online-pos now k row rest)

online_health :
    (now : ℕ) (t : Map Heartbeat) (stats : Option (Map SyncStats))
    → 0 < count_online (pos now) t
    → (health (pos now) (connected (record { heartbeats = some t; stats = stats })) ≡ healthy)
      × ((s : MeshStatus) × (handle_status
              (pos now)
              (some (record { heartbeats = some t; stats = stats }))
            ≡ some s)
          × (2 ≤ s.peers_online))
unfolding health health_of Extension.stats online_count handle_status
online_health now t stats h =
    let db : Tables = record { heartbeats = some t; stats = stats } in
    (
      ground arith,
      (
        record { peers_online = count_online (pos now) t + 1; total_synced = total_synced db },
        refl,
        ground arith,
      ),
    )

module _ (mac : Mac) (hex : Hex) (from_slice : Bytes → Option HeartbeatRequest) where
  -- After a heartbeat that is answered with success, over a table sorted by name, the extension is
  -- healthy at that time, and handle_status counts the sender beside the node itself.
  pub heartbeat-health :
      (now : ℕ) (fails : Bool) (secret : Option Bytes) (table : Map Heartbeat) (headers : Headers)
      (raw_body : Bytes) (table' : Option (Map Heartbeat)) (stats : Option (Map SyncStats))
      → IsSorted table
      → handle_heartbeat mac hex from_slice (pos now) fails secret (some table) headers raw_body
        ≡ (table', stored)
      → (health (pos now) (connected (record { heartbeats = table'; stats = stats })) ≡ healthy)
        × ((s : MeshStatus) × (handle_status
                (pos now)
                (some (record { heartbeats = table'; stats = stats }))
              ≡ some s)
            × (2 ≤ s.peers_online))
  heartbeat-health now fails secret table headers raw_body table' stats s h =
      let (r, t, body, auth, kept, fresh) =
        heartbeat_stored mac hex from_slice now fails secret table headers raw_body table' s h in
      rw kept (
        online_health now t stats (
          count_online-pos (pos now) r.peer (row_of (pos now) r) t fresh.seen
            ((is_online_iff now (row_of (pos now) r) now refl).1 (omega arith))))
