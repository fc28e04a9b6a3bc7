-- ===== src/Sync/Round/Exchange.antt =====
-- Two nodes and one round between them: the round of the one (sync_table_with_peer) with the import
-- and the export of the other (sync_apply.rs) behind its requests.
pub mod Agree
use convergio_mesh.Prelude.{
  Bool-cases, inl, inr, ◌≡◌, refl, ap, sym, ◌∙◌, true, List, [], ◌∷◌, Option, none, some, ◌↔◌,
  or_else,
}
use convergio_mesh.Prelude.Text.{Text, text_ltb}
use convergio_mesh.Prelude.Text.Order.{Within, Within-refl, Within-trans, Within-ext}
use convergio_mesh.Sync.Types.{SyncChange}
use convergio_mesh.Sync.Sqlite.{Key, Sqlite}
use mathlib.Core.Option
use convergio_mesh.Sync.Export.{Result, ok, err, normalise, export_changes_since}
use convergio_mesh.Sync.Export.Rows.{ReplacesText}
use convergio_mesh.Sync.Export.Honest.{IsSynced, Reads}
use convergio_mesh.Sync.Export.Delta.{
  later, carried, delta, delta-IsHonest, export-delta, delta-carried,
}
use convergio_mesh.Sync.Apply.{ApplyReport, apply_changes_detailed}
use convergio_mesh.Sync.Apply.Laws.{StoresRows, clock}
use convergio_mesh.Sync.Apply.Merge.{HasSchema}
use convergio_mesh.Sync.Apply.Batch.{Executes}
use convergio_mesh.Transport.Client.{send_changes_to_peer, fetch_changes_from_peer}
use convergio_mesh.Sync.Round.{
  get_sync_meta, since_of, World, save_cursor, after_apply, after_fetch, after_send, after_export,
  sync_table_with_peer,
}

-- The statement for cursors touches no other table.
abbrev pub MetaApart : Sqlite → Type 0
MetaApart db =
    (c c' : db.Conn) (p t v t' : Text) (k : Key)
    → db.upsert_sync_meta c p t v ≡ some c'
    → db.select_updated_at c' t' k ≡ db.select_updated_at c t' k

module _ (db : Sqlite) where
  open db use {Conn, select_sync_meta}

  -- The database of a node that imports what another one exported.
  unfoldable pub received : Conn → Result (List SyncChange) → Conn
  received b (ok xs) = (apply_changes_detailed db b xs).0
  received b (err e) = b

  module _ (w : World db) (peer table : Text) where
    -- The peer with database `b` takes every batch and answers with its export, and nobody else
    -- writes to the database of the node while a round waits.
    pub record Serves (since : Option Text) (a b : Conn) : Type 0 where
      pub accepts : (xs : List SyncChange) → send_changes_to_peer w.http peer xs ≡ true
      pub answers :
          (ys : List SyncChange)
          → export_changes_since db (received b (export_changes_since db a table since)) table since
            ≡ ok ys
          → fetch_changes_from_peer w.http peer table since ≡ some ys
      pub send_alone : (c : Conn) → w.during_send c ≡ c
      pub fetch_alone : (c : Conn) → w.during_fetch c ≡ c

    module _ (apart : MetaApart db) where
      saved-clock :
          (c : Conn) (cursor t : Text) (k : Key) (o : Option Conn)
          → db.upsert_sync_meta c peer table cursor ≡ o
          → clock db (or_else o c) t k ≡ clock db c t k
      unfolding clock
      saved-clock c cursor t k none e = refl
      saved-clock c cursor t k (some c') e = rw (apart c c' peer table cursor t k e) refl

      save-clock :
          (c : Conn) (o : Option Text) (t : Text) (k : Key)
          → clock db (save_cursor db w peer table c o) t k ≡ clock db c t k
      unfolding save_cursor
      save-clock c none t k = refl
      save-clock c (some cursor) t k = saved-clock c cursor t k _ refl

      -- After an import the round only moves the cursor.
      after_apply-clock :
          (since : Option Text) (local remote : List SyncChange) (r : Conn × Result ApplyReport)
          (t : Text) (k : Key)
          → clock db (after_apply db w peer table since local remote r).0 t k ≡ clock db r.0 t k
      unfolding after_apply
      after_apply-clock since local remote (c, err e) t k = refl
      after_apply-clock since local remote (c, ok report) t k = save-clock c _ t k

      pub after_export-clock :
          (since : Option Text) (a b : Conn) (xs ys : List SyncChange) (t : Text) (k : Key)
          → Serves since a b
          → fetch_changes_from_peer w.http peer table since ≡ some ys
          → clock db (after_export db w peer table since a (ok xs)).0 t k
            ≡ clock db (apply_changes_detailed db a ys).0 t k
      unfolding after_export after_send after_fetch
      after_export-clock since a b [] ys t k s e =
          rw (s.fetch_alone a, e)
            (after_apply-clock since [] ys (apply_changes_detailed db a ys) t k)
      after_export-clock since a b (x ∷ xs) ys t k s e =
          rw (s.accepts (x ∷ xs), s.send_alone a, s.fetch_alone a, e)
            (after_apply-clock since (x ∷ xs) ys (apply_changes_detailed db a ys) t k)
