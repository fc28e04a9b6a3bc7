-- ===== src/Sync/Types.antt =====
-- crates/convergio-mesh/src/types.rs: the records of delta sync, the allowlist and the denylist.
use convergio_mesh.Prelude.{List, [], ◌∷◌, Bool}
use convergio_mesh.Prelude.Text.{Text, codes, elem}
use convergio_mesh.Sync.Json.{Json}

pub record SyncMeta : Type 0 where
  pub peer : Text
  pub table_name : Text
  pub last_synced : Text

pub record SyncChange : Type 0 where
  pub table_name : Text
  pub pk : Json
  pub row : Json

abbrev pub sync_tables : List Text
sync_tables =
    codes "plans"
    ∷ codes "tasks"
    ∷ codes "waves"
    ∷ codes "knowledge_base"
    ∷ codes "notifications"
    ∷ codes "task_evidence"
    ∷ codes "delegations"
    ∷ codes "solve_sessions"
    ∷ codes "agent_catalog"
    ∷ codes "ipc_messages"
    ∷ codes "ipc_agents"
    ∷ []

abbrev pub sync_denylist : List Text
sync_denylist =
    codes "_schema_registry"
    ∷ codes "sqlite_sequence"
    ∷ codes "peer_heartbeats"
    ∷ codes "mesh_sync_stats"
    ∷ codes "mesh_peer_state"
    ∷ []

-- `SYNC_TABLES.contains`.
unfoldable pub in_sync_tables : Text → Bool
unfolding elem
in_sync_tables table = elem table sync_tables
