-- ===== src/Sync/Apply/Batch.antt =====
-- Last writer wins, for whole batches: what an import leaves does not depend on the order of the
-- rows, nor on how often they come.
use convergio_mesh.Prelude.{◌≡◌, Bool, List, [], ◌∷◌, Option, some, All, ◌↔◌}
use convergio_mesh.Prelude.Text.{Text}
use convergio_mesh.Prelude.Text.Order.{Within}
use convergio_mesh.Sync.Types.{SyncChange}
use convergio_mesh.Sync.Sqlite.{Key, Sqlite}
use convergio_mesh.Sync.Export.{Result, ok, normalise}
use convergio_mesh.Sync.Apply.{ApplyReport, apply_changes_detailed}
use convergio_mesh.Sync.Apply.Laws.{StoresRows, clock}
use convergio_mesh.Sync.Apply.Merge.{HasSchema, IsHonest, Addresses}

-- SQLite runs every statement that an import sends.
pub record Executes (db : Sqlite) : Type 0 where
  pub writes :
      (c : db.Conn) (t : Text) (cols vals : List Text)
      → (c' : db.Conn) × (db.insert_or_replace c t cols vals ≡ some c')
  pub switches : (c : db.Conn) (b : Bool) → (c' : db.Conn) × (db.set_foreign_keys c b ≡ some c')

module _ (db : Sqlite) (laws : StoresRows db) (schema : Text → List Text) where
  open db use {Conn, set_foreign_keys}

  abbrev pub Honest : SyncChange → Type 0
  Honest = IsHonest db laws schema

  -- The timestamps of the changes to one row are at most `u`.
  abbrev pub Stamps : Option Text → Text → Key → (xs : List SyncChange) → All Honest xs → Type 0
  Stamps u t k [] hs = Unit
  Stamps u t k (x ∷ xs) hs =
      (Addresses db laws schema x hs.0 t k → Within u (some (normalise hs.0.stamp)))
      × Stamps u t k xs hs.1

  module _ (executes : Executes db) where
    -- What an import makes of a database: it succeeds, with a schema and timestamps as below.
    abbrev pub Merges :
        Conn → (xs : List SyncChange) → All Honest xs → Conn × Result ApplyReport → Type 0
    Merges conn xs hs r =
        HasSchema db laws schema r.0
        × ((report : ApplyReport) × (r.1 ≡ ok report))
        × ((t : Text) (k : Key) (u : Option Text)
            → Within u (clock db r.0 t k) ↔ (Within u (clock db conn t k) × Stamps u t k xs hs))

    abbrev pub after : Conn → List SyncChange → Conn
    after conn xs = (apply_changes_detailed db conn xs).0
