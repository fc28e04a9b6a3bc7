-- ===== src/Sync/Export/Window.antt =====
-- Which rows an export selects, and how the cursor moves that window from round to round.
use convergio_mesh.Prelude.{
  ◌≡◌, sym, ap, ◌∙◌, Bool, true, false≢true, List, [], ◌∷◌, map, some, All, all, keep, ◌⊎◌, inl,
  inr, Bool-cases,
}
use convergio_mesh.Prelude.Text.{Text, codes, text_ltb}
use convergio_mesh.Prelude.Map.{lookup}
use convergio_mesh.Sync.Types.{SyncChange}
use convergio_mesh.Sync.Sqlite.{text, Row, Sqlite}
use convergio_mesh.Sync.Export.Rows.{Distinct, ReplacesText, change-row_change}
use convergio_mesh.Sync.Export.{
  ok, normalise, row_change, is_after, is_newer, change_updated_at, detect_timestamp_column,
  export_changes_since, is_identifier_char,
}

module _ {A : Type 0} where
  -- `x` is in the list.
  abbrev pub In : A → List A → Type 0
  In x [] = ⊥
  In x (y ∷ ys) = (y ≡ x) ⊎ In x ys

  In-keep : (p : A → Bool) (x : A) (xs : List A) → In x xs → p x ≡ true → In x (keep p xs)
  In-keep p x [] h e = h
  In-keep p x (y ∷ ys) h e = elim (Bool-cases (p y)) [
    | inl kept ↦ rw kept (elim h [ inl same ↦ inl same | inr later ↦ inr (In-keep p x ys later e) ])
    | inr dropped ↦ rw dropped (elim h [
      | inl same ↦ absurd (false≢true (sym dropped ∙ ap p same ∙ e))
      | inr later ↦ In-keep p x ys later e
    ])
  ]

In-map : {A B : Type 0} (f : A → B) (x : A) (xs : List A) → In x xs → In (f x) (map f xs)
In-map f x [] h = h
In-map f x (y ∷ ys) (inl e) = inl (ap f e)
In-map f x (y ∷ ys) (inr h) = inr (In-map f x ys h)

module _ (db : Sqlite) (replaces : ReplacesText db) where
  open db use {Conn, table_exists, select_rows}

  -- The rows of a table that carries `updated_at` as a text.
  pub record IsStamped (r : Row) : Type 0 where
    pub distinct : Distinct r.cells
    pub stamp : Text
    pub has_stamp : lookup (codes "updated_at") r.cells ≡ some (text stamp)

  -- The change is newer than the cursor.
  abbrev pub IsNew : Text → SyncChange → Type 0
  IsNew since c = (ts : Text) × (change_updated_at c ≡ some ts) × (text_ltb since ts ≡ true)

  is_newer-IsStamped :
      (since : Text) (r : Row) (s : IsStamped r)
      → is_newer db (codes "updated_at") since r ≡ text_ltb since (normalise s.stamp)
  unfolding is_newer is_after
  is_newer-IsStamped since r s = rw (s.has_stamp) (rw (replaces s.stamp))

  newer_rows :
      (table since : Text) (rows : List Row)
      → All IsStamped rows
      → All
          (IsNew since)
          (map (row_change db table) (keep (is_newer db (codes "updated_at") since) rows))
  newer_rows table since [] hs = tt
  newer_rows table since (r ∷ rows) hs =
      let rest = newer_rows table since rows hs.1 in
      elim (Bool-cases (is_newer db (codes "updated_at") since r)) [
        | inl kept ↦ rw kept (
          (
            normalise hs.0.stamp,
            change-row_change db table r hs.0.stamp hs.0.distinct hs.0.has_stamp,
            sym (is_newer-IsStamped since r hs.0) ∙ kept,
          ),
          rest,
        )
        | inr dropped ↦ rw dropped rest
      ]

  -- An export since a cursor, of a table with an `updated_at` column whose rows all have a text
  -- there, succeeds with the changes of exactly the rows after the cursor: each change carries a
  -- later timestamp, and each row with a later one has its change there.
  pub export_window :
      (conn : Conn) (table since : Text) (rows : List Row)
      → all is_identifier_char table ≡ true
      → table_exists conn table ≡ some true
      → detect_timestamp_column db conn table ≡ some (codes "updated_at")
      → select_rows conn table ≡ some rows
      → All IsStamped rows
      → (changes : List SyncChange) × (export_changes_since db conn table (some since) ≡ ok changes)
        × All (IsNew (normalise since)) changes
        × ((r : Row) (s : IsStamped r)
            → In r rows
            → text_ltb (normalise since) (normalise s.stamp) ≡ true
            → In (row_change db table r) changes)
  unfolding export_changes_since
  export_window conn table since rows named exists column found hs =
      let selected = keep (is_newer db (codes "updated_at") (normalise since)) rows in
      (
        map (row_change db table) selected,
        rw (named, exists) (rw (column, found)),
        newer_rows table (normalise since) rows hs,
        λ r s there later.
            In-map (row_change db table) r selected
              (In-keep _ r rows there (is_newer-IsStamped (normalise since) r s ∙ later)),
      )
