-- ===== src/Sync/Apply/Frame.antt =====
-- Which statements an import may send to SQLite, whatever the peer put in its changes.
use convergio_mesh.Prelude.{
  ◌≡◌, refl, Bool, true, false, not, List, [], ◌∷◌, Option, none, some, arith, all, any, is_empty,
  all-keep, inl, inr, Bool-cases,
}
use convergio_mesh.Prelude.Text.{Text, elem}
use convergio_mesh.Sync.Json.{Fields, as_object, keys}
use convergio_mesh.Sync.Types.{SyncChange, in_sync_tables}
use convergio_mesh.Sync.Sqlite.{Sqlite}
use convergio_mesh.Sync.Apply.{
  ApplyReport, empty_report, Verdict, reject, write, is_safe_identifier, local_table_columns,
  shared_columns, check_row, check_columns, check_object, check_change, record_outcome,
  execute_verdict, apply_change, apply_changes_inner, after_on, after_off, apply_changes_detailed,
}

all_of_any : (p : Text → Bool) (xs : List Text) → any (λ x. not (p x)) xs ≡ false → all p xs ≡ true
all_of_any p [] h = refl
all_of_any p (x ∷ xs) h = ground (arith, all_of_any p xs)

module _ (db : Sqlite) where
  open db use {Conn, insert_or_replace, set_foreign_keys}

  -- The statement names an allowlisted table and at least one column; each column is safe to quote
  -- and one of the local table's.
  pub record IsAllowed (conn : Conn) (table : Text) (cols : List Text) : Type 0 where
    pub listed : in_sync_tables table ≡ true
    pub nonempty : is_empty cols ≡ false
    pub safe : all is_safe_identifier cols ≡ true
    pub local : all (λ c. elem c (local_table_columns db conn table)) cols ≡ true

  check_columns-IsAllowed :
      (conn : Conn) (change : SyncChange) (obj : Fields) {cols vals : List Text} {ts : Option Text}
      → in_sync_tables change.table_name ≡ true
      → check_columns db conn change obj ≡ write cols vals ts
      → IsAllowed conn change.table_name cols
  unfolding check_columns check_row shared_columns
  check_columns-IsAllowed conn change obj listed h = ground (
    arith,
    all_of_any is_safe_identifier (shared_columns db conn change.table_name obj),
    all-keep (λ c. elem c (local_table_columns db conn change.table_name)) (keys obj),
  )

  check_object-IsAllowed :
      (conn : Conn) (change : SyncChange) (o : Option Fields) {cols vals : List Text}
      {ts : Option Text}
      → in_sync_tables change.table_name ≡ true
      → check_object db conn change o ≡ write cols vals ts
      → IsAllowed conn change.table_name cols
  unfolding check_object
  check_object-IsAllowed conn change none listed h = cc
  check_object-IsAllowed conn change (some obj) listed h =
      check_columns-IsAllowed conn change obj listed h

  pub check_change-IsAllowed :
      (conn : Conn) (change : SyncChange) {cols vals : List Text} {ts : Option Text}
      → check_change db conn change ≡ write cols vals ts
      → IsAllowed conn change.table_name cols
  unfolding check_change
  check_change-IsAllowed conn change h = elim (Bool-cases (in_sync_tables change.table_name)) [
    | inl listed ↦
        check_object-IsAllowed conn change (as_object change.row) listed
          (rw (listed, check_change) at h)
    | inr other ↦ cc (rw (other, check_change) at h)
  ]

  -- A property of the database that the two PRAGMAs and every allowed write keep.
  pub record IsKept (P : Conn → Type 0) : Type 0 where
    pub toggled : (c c' : Conn) (b : Bool) → set_foreign_keys c b ≡ some c' → P c → P c'
    pub written :
        (c c' : Conn) (table : Text) (cols vals : List Text)
        → IsAllowed c table cols
        → insert_or_replace c table cols vals ≡ some c'
        → P c
        → P c'

  module _ {P : Conn → Type 0} (k : IsKept P) where
    record_outcome_frame :
        (t : Text) (cols vals : List Text) (ts : Option Text) (s : Conn × ApplyReport)
        (o : Option Conn)
        → insert_or_replace s.0 t cols vals ≡ o
        → IsAllowed s.0 t cols
        → P s.0
        → P (record_outcome db ts s o).0
    unfolding record_outcome
    record_outcome_frame t cols vals ts s none e h p = p
    record_outcome_frame t cols vals ts s (some c) e h p = k.written s.0 c t cols vals h e p

    execute_verdict_frame :
        (x : SyncChange) (v : Verdict) (s : Conn × ApplyReport)
        → check_change db s.0 x ≡ v
        → P s.0
        → P (execute_verdict db x.table_name v s).0
    unfolding execute_verdict
    execute_verdict_frame x reject s e p = p
    execute_verdict_frame x (write cols vals ts) s e p =
        record_outcome_frame x.table_name cols vals ts s _ refl (check_change-IsAllowed s.0 x e) p

    apply_change_frame :
        (x : SyncChange) (s : Conn × ApplyReport) → P s.0 → P (apply_change db x s).0
    unfolding apply_change
    apply_change_frame x s p = execute_verdict_frame x (check_change db s.0 x) s refl p

    inner_frame :
        (changes : List SyncChange) (s : Conn × ApplyReport)
        → P s.0
        → P (apply_changes_inner db changes s).0
    unfolding apply_changes_inner
    inner_frame [] s p = p
    inner_frame (x ∷ xs) s p = inner_frame xs (apply_change db x s) (apply_change_frame x s p)

    after_on_frame :
        (s : Conn × ApplyReport) (o : Option Conn)
        → set_foreign_keys s.0 true ≡ o
        → P s.0
        → P (after_on db s o).0
    unfolding after_on
    after_on_frame s none e p = p
    after_on_frame s (some c) e p = k.toggled s.0 c true e p

    after_off_frame :
        (conn : Conn) (changes : List SyncChange) (o : Option Conn)
        → set_foreign_keys conn false ≡ o
        → P conn
        → P (after_off db conn changes o).0
    unfolding after_off
    after_off_frame conn changes none e p = p
    after_off_frame conn changes (some c) e p =
        let s = apply_changes_inner db changes (c, empty_report) in
        after_on_frame s (set_foreign_keys s.0 true) refl
          (inner_frame changes (c, empty_report) (k.toggled conn c false e p))

    -- Whatever the changes hold, an import keeps every property of the database that survives the
    -- two PRAGMAs and the writes that name an allowlisted table and safe columns of it; this holds
    -- for an import that fails too.
    pub apply_frame :
        (conn : Conn) (changes : List SyncChange)
        → P conn
        → P (apply_changes_detailed db conn changes).0
    unfolding apply_changes_detailed
    apply_frame conn [] p = p
    apply_frame conn (x ∷ xs) p = after_off_frame conn (x ∷ xs) (set_foreign_keys conn false) refl p
