-- ===== src/Sync/Round/Exchange/Agree.antt =====
-- What two nodes agree on after a round between them.
use convergio_mesh.Prelude.{List, Option, none, some}
use convergio_mesh.Prelude.Text.{Text}
use convergio_mesh.Prelude.Text.Order.{Within}
use convergio_mesh.Sync.Sqlite.{Key, Sqlite}
use mathlib.Core.Option
use convergio_mesh.Sync.Export.{normalise, export_changes_since}
use convergio_mesh.Sync.Export.Rows.{ReplacesText}
use convergio_mesh.Sync.Export.Honest.{IsSynced, Reads}
use convergio_mesh.Sync.Apply.Laws.{StoresRows, clock}
use convergio_mesh.Sync.Apply.Merge.{HasSchema}
use convergio_mesh.Sync.Apply.Batch.{Executes}
use convergio_mesh.Sync.Round.{World}
use convergio_mesh.Sync.Round.Exchange.{MetaApart, received}

-- The export since a cursor does not carry the timestamp.
abbrev pub IsSkipped : Option Text → Option Text → Type 0
IsSkipped none o = ⊥
IsSkipped (some c) o = Within (some (normalise c)) o

module _ (db : Sqlite) (w : World db) (peer table : Text) (apart : MetaApart db)
    (replaces : ReplacesText db) (laws : StoresRows db) (schema : Text → List Text)
    (executes : Executes db) (synced : IsSynced db laws schema table)
    (reads : (c : db.Conn) → HasSchema db laws schema c → Reads db laws schema table c) where
  open db use {Conn, select_sync_meta}

  abbrev pub Known : Conn → Type 0
  Known = HasSchema db laws schema

  -- What the cursor makes an export of `a` skip, `b` has in the same version or a later one.
  abbrev pub Covers : Option Text → Conn → Conn → Type 0
  Covers since a b =
      (k : Key)
      → IsSkipped since (clock db a table k)
      → Within (clock db b table k) (clock db a table k)

  -- The database of the peer with database `b` once it has what `a` exports.
  abbrev pub taken : Option Text → Conn → Conn → Conn
  taken since a b = received db b (export_changes_since db a table since)
