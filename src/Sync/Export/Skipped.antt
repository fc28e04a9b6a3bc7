-- ===== src/Sync/Export/Skipped.antt =====
-- What an export leaves out, for good: a row that is not after the cursor.
use mathlib.Core.Option
use convergio_mesh.Prelude.{◌≢◌, List, Option, some, All}
use convergio_mesh.Prelude.Text.{Text}
use convergio_mesh.Sync.Types.{SyncChange}
use convergio_mesh.Sync.Sqlite.{Key, Sqlite}
use convergio_mesh.Sync.Export.Rows.{ReplacesText}
use convergio_mesh.Sync.Export.Honest.{IsSynced}
use convergio_mesh.Sync.Apply.{pk_key}
use convergio_mesh.Sync.Apply.Laws.{StoresRows}

module _ (db : Sqlite) (replaces : ReplacesText db) (laws : StoresRows db)
    (schema : Text → List Text) (t : Text) (synced : IsSynced db laws schema t) where
  open db use {Conn}

  abbrev Others : Key → List SyncChange → Type 0
  Others k = All (λ (x : SyncChange). pk_key x.pk ≢ some k)
