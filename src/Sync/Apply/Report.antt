-- ===== src/Sync/Apply/Report.antt =====
-- The report accounts for every change.
use convergio_mesh.Prelude.{ℕ, ◌+◌, ◌≡◌, List, [], ◌∷◌, Option, none, some, arith, length, false}
use convergio_mesh.Sync.Types.{SyncChange}
use convergio_mesh.Sync.Sqlite.{Sqlite}
use convergio_mesh.Sync.Export.{ok}
use convergio_mesh.Sync.Apply.{
  ApplyReport, Verdict, reject, write, execute_verdict, apply_change, apply_changes_inner,
  apply_changes_detailed, check_change, after_on, after_off, empty_report,
}
use convergio_mesh.Prelude.Text.{Text}

module _ (db : Sqlite) where
  open db use {Conn}

  abbrev total : ApplyReport → ℕ
  total r = r.applied + r.rejected

  execute_verdict-total :
      (t : Text) (v : Verdict) (s : Conn × ApplyReport)
      → total (execute_verdict db t v s).1 ≡ total s.1 + 1
  unfolding execute_verdict
  execute_verdict-total t reject s = ground arith
  execute_verdict-total t (write cols vals ts) s = ground arith

  inner-total :
      (changes : List SyncChange) (s : Conn × ApplyReport)
      → total (apply_changes_inner db changes s).1 ≡ total s.1 + length changes
  unfolding apply_changes_inner apply_change
  inner-total [] s = omega arith
  inner-total (x ∷ xs) s = omega (
    arith,
    inner-total xs (apply_change db x s),
    execute_verdict-total x.table_name (check_change db s.0 x) s,
  )

  after_on-total :
      (s : Conn × ApplyReport) (o : Option Conn) {r : ApplyReport}
      → (after_on db s o).1 ≡ ok r
      → total s.1 ≡ total r
  unfolding after_on
  after_on-total s none h = cc
  after_on-total s (some c) h = ground arith

  after_off-total :
      (conn : Conn) (changes : List SyncChange) (o : Option Conn) {r : ApplyReport}
      → (after_off db conn changes o).1 ≡ ok r
      → total r ≡ length changes
  unfolding after_off
  after_off-total conn changes none h = cc
  after_off-total conn changes (some c) {r} h =
      omega (arith, after_on-total _ _ h, inner-total changes (c, empty_report))

  -- An import that succeeds counts each change once, as applied or as rejected.
  pub apply_counts :
      (conn : Conn) (changes : List SyncChange) {r : ApplyReport}
      → (apply_changes_detailed db conn changes).1 ≡ ok r
      → r.applied + r.rejected ≡ length changes
  unfolding apply_changes_detailed
  apply_counts conn [] h = ground arith
  apply_counts conn (x ∷ xs) h = after_off-total conn (x ∷ xs) (db.set_foreign_keys conn false) h
