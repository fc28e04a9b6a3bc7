-- ===== src/Sync/Round/Progress.antt =====
-- When a round moves a cursor, and how far.
use convergio_mesh.Prelude.{
  ◌≡◌, ◌≢◌, refl, ◌∙◌, subst, Bool, true, false, false≢true, List, [], ◌∷◌, Option, none, some,
  or_else, ◌⊎◌, inl, inr,
}
use convergio_mesh.Prelude.Text.{Text, codes}
use convergio_mesh.Sync.Types.{SyncChange, in_sync_tables}
use convergio_mesh.Sync.Sqlite.{Sqlite}
use convergio_mesh.Sync.Cursor.Advance.{IsBounded, cursor_bounds}
use convergio_mesh.Sync.Export.{Result, ok, err, export_changes_since, max_updated_at}
use convergio_mesh.Sync.Apply.{ApplyReport, apply_changes_detailed}
use convergio_mesh.Sync.Apply.Frame.{IsKept, apply_frame}
use convergio_mesh.Transport.Client.{send_changes_to_peer, fetch_changes_from_peer}
use convergio_mesh.Sync.Round.{
  get_sync_meta, since_of, World, save_cursor, after_apply, after_fetch, after_send, after_export,
  sync_table_with_peer,
}

-- What SQLite does to `_sync_meta`: the upsert writes one row, and no other statement touches it.
pub record KeepsMeta (db : Sqlite) : Type 0 where
  pub meta_written :
      (c c' : db.Conn) (p t v : Text)
      → db.upsert_sync_meta c p t v ≡ some c'
      → db.select_sync_meta c' p t ≡ some (some v)
  pub meta_others :
      (c c' : db.Conn) (p t v p' t' : Text)
      → db.upsert_sync_meta c p t v ≡ some c'
      → ¬ ((p ≡ p') × (t ≡ t'))
      → db.select_sync_meta c' p' t' ≡ db.select_sync_meta c p' t'
  pub write_kept :
      (c c' : db.Conn) (t : Text) (cols vals : List Text) (p' t' : Text)
      → t ≢ codes "_sync_meta"
      → db.insert_or_replace c t cols vals ≡ some c'
      → db.select_sync_meta c' p' t' ≡ db.select_sync_meta c p' t'
  pub toggle_kept :
      (c c' : db.Conn) (b : Bool) (p' t' : Text)
      → db.set_foreign_keys c b ≡ some c'
      → db.select_sync_meta c' p' t' ≡ db.select_sync_meta c p' t'

sync_meta_not_listed : (t : Text) → in_sync_tables t ≡ true → t ≢ codes "_sync_meta"
unfolding in_sync_tables
sync_meta_not_listed t h e = false≢true (subst (λ (s : Text). in_sync_tables s ≡ true) e h)

module _ (db : Sqlite) (laws : KeepsMeta db) (w : World db) (peer table : Text) where
  open db use {Conn, select_sync_meta}

  -- The cursors are those of `conn`.
  abbrev pub SameMeta : Conn → Conn → Type 0
  SameMeta conn c = (p t : Text) → select_sync_meta c p t ≡ select_sync_meta conn p t

  -- Nobody else writes the cursors while the round waits.
  pub record IsQuiet : Type 0 where
    pub send_kept : (c : Conn) → SameMeta c (w.during_send c)
    pub fetch_kept : (c : Conn) → SameMeta c (w.during_fetch c)

  pub SameMeta-IsKept : (conn : Conn) → IsKept db (SameMeta conn)
  SameMeta-IsKept conn = record {
    toggled = λ c c' b e h p t. laws.toggle_kept c c' b p t e ∙ h p t;
    written = λ c c' t cols vals allowed e h p t'.
        laws.write_kept c c' t cols vals p t' (sync_meta_not_listed t allowed.listed) e ∙ h p t';
  }

  -- The cursor that the round started from.
  abbrev pub since : Conn → Option Text
  since conn = since_of (get_sync_meta db conn peer table)

  -- The round exchanged its rows in full, and then moved its own cursor, and no other.
  pub record Moved (conn conn' : Conn) : Type 0 where
    pub local : List SyncChange
    pub exported : export_changes_since db conn table (since conn) ≡ ok local
    pub delivered : (local ≡ []) ⊎ (send_changes_to_peer w.http peer local ≡ true)
    pub remote : List SyncChange
    pub fetched : fetch_changes_from_peer w.http peer table (since conn) ≡ some remote
    pub cursor : Text
    pub stored : select_sync_meta conn' peer table ≡ some (some cursor)
    pub bounded : IsBounded (since conn) w.round_start_at cursor
    pub others :
        (p t : Text)
        → ¬ ((peer ≡ p) × (table ≡ t))
        → select_sync_meta conn' p t ≡ select_sync_meta conn p t

  abbrev pub Progress : Conn → Conn → Type 0
  Progress conn conn' = SameMeta conn conn' ⊎ Moved conn conn'

  module _ (conn : Conn) (local remote : List SyncChange)
      (exported : export_changes_since db conn table (since conn) ≡ ok local)
      (delivered : (local ≡ []) ⊎ (send_changes_to_peer w.http peer local ≡ true))
      (fetched : fetch_changes_from_peer w.http peer table (since conn) ≡ some remote) where
    saved-Progress :
        (c : Conn) (cursor : Text) (o : Option Conn)
        → db.upsert_sync_meta c peer table cursor ≡ o
        → IsBounded (since conn) w.round_start_at cursor
        → SameMeta conn c
        → Progress conn (or_else o c)
    saved-Progress c cursor none e b h = inl h
    saved-Progress c cursor (some c') e b h = inr (record {
      local = local;
      exported = exported;
      delivered = delivered;
      remote = remote;
      fetched = fetched;
      cursor = cursor;
      stored = laws.meta_written c c' peer table cursor e;
      bounded = b;
      others = λ p t other. laws.meta_others c c' peer table cursor p t e other ∙ h p t;
    })

    save-Progress :
        (c : Conn) (o : Option Text)
        → ((cursor : Text) → o ≡ some cursor → IsBounded (since conn) w.round_start_at cursor)
        → SameMeta conn c
        → Progress conn (save_cursor db w peer table c o)
    unfolding save_cursor
    save-Progress c none b h = inl h
    save-Progress c (some cursor) b h =
        saved-Progress c cursor (db.upsert_sync_meta c peer table cursor) refl (b cursor refl) h

    apply-Progress :
        (r : Conn × Result ApplyReport)
        → SameMeta conn r.0
        → Progress conn (after_apply db w peer table (since conn) local remote r).0
    unfolding after_apply
    apply-Progress (c, err e) h = inl h
    apply-Progress (c, ok report) h =
        save-Progress c _
          (λ cursor e.
            cursor_bounds (since conn) (max_updated_at local) report.applied_max_updated_at
              w.round_start_at e)
          h

  fetch-Progress :
      (conn c : Conn) (local : List SyncChange) (o : Option (List SyncChange))
      → export_changes_since db conn table (since conn) ≡ ok local
      → (local ≡ []) ⊎ (send_changes_to_peer w.http peer local ≡ true)
      → fetch_changes_from_peer w.http peer table (since conn) ≡ o
      → SameMeta conn c
      → Progress conn (after_fetch db w peer table (since conn) local c o).0
  unfolding after_fetch
  fetch-Progress conn c local none x d f h = inl h
  fetch-Progress conn c local (some remote) x d f h =
      apply-Progress conn local remote x d f (apply_changes_detailed db c remote)
        (apply_frame db (SameMeta-IsKept conn) c remote h)

  module _ (quiet : IsQuiet) where
    send-Progress :
        (conn c : Conn) (local : List SyncChange) (sent : Bool)
        → export_changes_since db conn table (since conn) ≡ ok local
        → (sent ≡ true → (local ≡ []) ⊎ (send_changes_to_peer w.http peer local ≡ true))
        → SameMeta conn c
        → Progress conn (after_send db w peer table (since conn) local c sent).0
    unfolding after_send
    send-Progress conn c local false x d h = inl h
    send-Progress conn c local true x d h =
        fetch-Progress conn (w.during_fetch c) local _ x (d refl) refl
          (λ p t. quiet.fetch_kept c p t ∙ h p t)

    export-Progress :
        (conn : Conn) (r : Result (List SyncChange))
        → export_changes_since db conn table (since conn) ≡ r
        → Progress conn (after_export db w peer table (since conn) conn r).0
    unfolding after_export
    export-Progress conn (err e) x = inl (λ p t. refl)
    export-Progress conn (ok []) x = send-Progress conn conn [] true x (λ _. inl refl) (λ p t. refl)
    export-Progress conn (ok (c ∷ local)) x =
        send-Progress conn (w.during_send conn) (c ∷ local) _ x inr (quiet.send_kept conn)

    -- If nobody else writes the cursors while a round waits, and only the statement for cursors writes
    -- them, the round leaves every cursor as it was, or the export, the send (unless there was nothing to
    -- send) and the fetch all succeeded; then only the cursor of this peer and table has moved, not
    -- backwards, and past the start of the round only if it stood there before.
    pub round-Progress : (conn : Conn) → Progress conn (sync_table_with_peer db w peer table conn).0
    unfolding sync_table_with_peer
    round-Progress conn = export-Progress conn _ refl
