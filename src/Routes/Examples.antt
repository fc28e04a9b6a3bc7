-- ===== src/Routes/Examples.antt =====
-- Requests to the handlers at concrete inputs.
mod Table
use convergio_mesh.Prelude.{
  ◌≤◌, ◌⊎◌, map, ◌≡◌, ◌≢◌, refl, subst, true, false, List, [], ◌∷◌, Option, none, some,
}
use convergio_mesh.Prelude.Int.{pos}
use convergio_mesh.Prelude.Text.{codes, elem, Text}
use convergio_mesh.Prelude.Map.{Map}
use convergio_mesh.Auth.Hmac.{Bytes}
use convergio_mesh.Auth.Signed.{Refusal, authorize}
use convergio_mesh.Auth.Examples.{chain, plain, silent}
use convergio_mesh.Sync.Types.{SyncChange, in_sync_tables, sync_denylist}
use convergio_mesh.Sync.Export.{ok, export_changes_since}
use convergio_mesh.Sync.Apply.{apply_changes, apply_changes_detailed}
use convergio_mesh.Sync.Memory.{Memory, memory, memory-KeepsMeta}
use convergio_mesh.Sync.Round.Progress.{SameMeta, SameMeta-IsKept}
use convergio_mesh.Sync.Examples.{plans, bad_changes, two_changes, empty, world, peer}
use convergio_mesh.Routes.Sync
use convergio_mesh.Routes.Sync.{Reply, changes, handle_export, handle_import, import_changes}
use convergio_mesh.Routes.Sync.Access.{handle_export_lem, import_frame, body_not_covered}
use convergio_mesh.Routes.Heartbeat.{
  HeartbeatRequest, Heartbeat, upsert_heartbeat, stored, handle_heartbeat,
}
use convergio_mesh.Routes.Rows
use convergio_mesh.Routes.Roles.{Assignment}
use convergio_mesh.Routes.Status.{MeshStatus, handle_status}
use convergio_mesh.Routes.Peers.{PeerView, Host, view_of, handle_peers}
use convergio_mesh.Routes.Peers.Local.{Answered, handle_peers-Answered}
use convergio_mesh.Routes.CrossPoll.{Fetched, body}
use convergio_mesh.Routes.SyncRepo
use convergio_mesh.Routes.SyncRepo.{
  Command, Ran, disabled, show_toplevel, is_enabled, repo_root, handle_sync_repo,
}
use convergio_mesh.Routes.SyncRepo.Gate.{Update, handle_sync_repo-Update}
use convergio_mesh.Node.Extension.{connected, healthy, health}
use convergio_mesh.Node.Extension.Online.{heartbeat-health}
use convergio_mesh.Sync.Json.{bool}
use convergio_mesh.Routes.Heartbeat.Online.{Refreshed, heartbeat_stored}

handle_export_lem_example :
    (in_sync_tables plans ≡ true)
    × (elem plans sync_denylist ≡ false)
    × ((conn : Memory) × (some empty ≡ some conn)
        × (export_changes_since memory conn plans none ≡ ok two_changes))
unfolding handle_export export_changes_since in_sync_tables
handle_export_lem_example = handle_export_lem memory (some empty) plans none two_changes refl

-- A parser for which a body of one byte holds bad changes and every other body is not valid.
abbrev from_slice : Bytes → Option (List SyncChange)
from_slice (b ∷ []) = some bad_changes
from_slice _ = none

abbrev left : Memory
left = (apply_changes_detailed memory empty bad_changes).0

empty-SameMeta :
    (conn : Memory)
    → some empty ≡ some conn
    → SameMeta memory memory-KeepsMeta world peer plans empty conn
empty-SameMeta conn e =
    let same : empty ≡ conn = cc in
    subst (SameMeta memory memory-KeepsMeta world peer plans empty) same (λ p t. refl)

import_frame_example : SameMeta memory memory-KeepsMeta world peer plans empty left
unfolding handle_import apply_changes authorize apply_changes_detailed
import_frame_example =
    import_frame memory chain plain from_slice
      (SameMeta-IsKept memory memory-KeepsMeta world peer plans empty) (pos 1000) none (some empty)
      silent (1 ∷ []) empty-SameMeta left refl

empty_body-reply :
    (r : Refusal)
    → (handle_import memory chain plain from_slice (pos 1000) none (some empty) silent []).reply
      ≢ Sync.unauthorized r
unfolding handle_import authorize
empty_body-reply r h = cc

body_not_covered_example :
    handle_import memory chain plain from_slice (pos 1000) none (some empty) silent (1 ∷ [])
    ≡ import_changes memory (some empty) (some bad_changes)
body_not_covered_example =
    body_not_covered memory chain plain from_slice (pos 1000) none (some empty) silent [] (1 ∷ [])
      empty_body-reply

abbrev request : HeartbeatRequest
request = record {
  peer = codes "m5max";
  version = some (codes "0.1.9");
  capabilities = none;
  role = none;
}

abbrev parse_request : Bytes → Option HeartbeatRequest
parse_request (b ∷ []) = some request
parse_request _ = none

abbrev table : Map Heartbeat
table =
    (codes "n2", record { last_seen = pos 10; version = none; capabilities = none; role = none })
    ∷ []

failed-reply :
    (handle_heartbeat chain plain parse_request (pos 1000) true none (some table) silent (1 ∷ [])).1
    ≢ stored
unfolding handle_heartbeat authorize
failed-reply h = cc

abbrev refreshed : Map Heartbeat
refreshed = upsert_heartbeat (pos 1000) request table

heartbeat_stored_example :
    (r : HeartbeatRequest) × (t : Map Heartbeat) × (parse_request (1 ∷ []) ≡ some r)
    × (authorize chain plain (pos 1000) (codes "/api/heartbeat") none silent ≡ none)
    × (some refreshed ≡ some t)
    × Refreshed (pos 1000) r table t
unfolding handle_heartbeat authorize
heartbeat_stored_example =
    heartbeat_stored chain plain parse_request 1000 false none table silent (1 ∷ [])
      (some refreshed) (tt, tt) refl

-- The host's name with a domain, as a row that is out of date.
abbrev host : Host
host = record { name = codes "m5"; role = codes "all"; version = codes "0.2" }

abbrev stale : Map Heartbeat
stale =
    (
      codes "m5.local",
      record { last_seen = pos 1; version = some (codes "0.1"); capabilities = none; role = none },
    )
    ∷ (codes "n2", record { last_seen = pos 900; version = none; capabilities = none; role = none })
    ∷ []

handle_peers-Answered_example :
    (ps : List PeerView) × (handle_peers (pos 1000) host (some (Rows.table stale)) ≡ some ps)
    × Answered (pos 1000) host (map (view_of (pos 1000)) stale) ps
handle_peers-Answered_example = handle_peers-Answered (pos 1000) host stale

abbrev voice : Map Assignment
voice = (codes "m5", record { role = codes "voice"; updated_at = codes "now" }) ∷ []

-- The build fails.
abbrev runs : Command → Ran
runs (SyncRepo.build dir) = SyncRepo.unsuccessful (codes "error")
runs _ = SyncRepo.success (codes "/repo")

handle_sync_repo-Update_example :
    ((is_enabled (some (codes "TRUE")) ≡ false)
      × (handle_sync_repo runs (some (codes "TRUE")) ≡ ([], disabled)))
    ⊎ ((is_enabled (some (codes "TRUE")) ≡ true)
        × Update runs
            (repo_root (runs show_toplevel))
            (handle_sync_repo runs (some (codes "TRUE"))).0
            (handle_sync_repo runs (some (codes "TRUE"))).1)
handle_sync_repo-Update_example = handle_sync_repo-Update runs (some (codes "TRUE"))

-- Every text is an address and answers, and every peer answers with true.
abbrev answers : Text → Fetched
answers url = body (bool true)
