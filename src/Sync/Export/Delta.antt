-- ===== src/Sync/Export/Delta.antt =====
-- What an export since a cursor carries of the timestamps of its table.
use mathlib.Core.Option
use convergio_mesh.Prelude.{
  ◌≡◌, ◌≢◌, refl, sym, ap, ◌∙◌, subst, Bool, true, false, List, [], ◌∷◌, map, Option, none, some,
  All, keep, ◌↔◌, ◌>>=◌, or_else, inl, inr, Bool-cases, if◌then◌else◌,
}
use convergio_mesh.Prelude.Text.{Text, codes, text_eq, text_ltb, elem}
use convergio_mesh.Prelude.Text.Order.{text_eq_iff, Within}
use convergio_mesh.Prelude.Int.{ℤ}
use convergio_mesh.Sync.Types.{SyncChange}
use convergio_mesh.Sync.Sqlite.{Value, text, Row, Key, by_int, by_text, Sqlite}
use convergio_mesh.Sync.Export.{
  ok, normalise, row_change, timestamp_of, is_after, is_newer, detect_timestamp_column,
  export_changes_since,
}
use convergio_mesh.Sync.Export.Rows.{ReplacesText}
use convergio_mesh.Sync.Export.Honest.{
  stamp_at, IsKeyed, Unique, IsSynced, Reads, rows-IsHonest, StampsOf-stamp_at,
}
use convergio_mesh.Sync.Apply.{local_table_columns}
use convergio_mesh.Sync.Apply.Laws.{StoresRows}
use convergio_mesh.Sync.Apply.Merge.{HasSchema, IsHonest}
use convergio_mesh.Sync.Apply.Batch.{Stamps}

All-keep {ℓ κ} :
    {A : Type ℓ} (P : A → Type κ) (p : A → Bool) (xs : List A) → All P xs → All P (keep p xs)
All-keep P p [] h = tt
All-keep P p (x ∷ xs) h = elim (Bool-cases (p x)) [
  | inl kept ↦ rw kept (h.0, All-keep P p xs h.1)
  | inr dropped ↦ rw dropped (All-keep P p xs h.1)
]

Unique-keep : (p : Row → Bool) (rows : List Row) → Unique rows → Unique (keep p rows)
Unique-keep p [] u = tt
Unique-keep p (r ∷ rows) u = elim (Bool-cases (p r)) [
  | inl kept ↦ rw kept (All-keep _ p rows u.0, Unique-keep p rows u.1)
  | inr dropped ↦ rw dropped (Unique-keep p rows u.1)
]

-- A timestamp is kept if it is after the cursor.
unfoldable pub later : Text → Option Text → Option Text
later c none = none
later c (some s) = if text_ltb c (normalise s) then some s else none

-- What an export since a cursor carries of a timestamp.
abbrev pub carried : Option Text → Option Text → Option Text
carried none o = o
carried (some c) o = later (normalise c) o

later-none : (c : Text) → later c none ≡ none
unfolding later
later-none c = refl

detected :
    (o : Option (List Text)) (cols : List Text)
    → or_else o [] ≡ cols
    → elem (codes "updated_at") cols ≡ true
    → (o >>= timestamp_of) ≡ some (codes "updated_at")
unfolding timestamp_of elem
detected none cols e h = cc (rw (← e) at h)
detected (some cs) cols e h = rw (e, h) refl

stamp_at-free :
    (i : Text) (rows : List Row)
    → All IsKeyed rows
    → All (λ (q : Row). q.id ≢ text i) rows
    → stamp_at (by_text i) rows ≡ none
unfolding stamp_at
stamp_at-free i [] hs free = refl
stamp_at-free i (r ∷ rows) hs free = elim (Bool-cases (text_eq hs.0.id i)) [
  | inl same ↦ absurd (free.0 (hs.0.is_text ∙ ap text ((text_eq_iff hs.0.id i).0 same)))
  | inr other ↦ rw (hs.0.is_text, other) (stamp_at-free i rows hs.1 free.1)
]

stamp_at-int : (n : ℤ) (rows : List Row) → All IsKeyed rows → stamp_at (by_int n) rows ≡ none
unfolding stamp_at
stamp_at-int n [] hs = refl
stamp_at-int n (r ∷ rows) hs = rw hs.0.is_text (stamp_at-int n rows hs.1)

module _ (db : Sqlite) (replaces : ReplacesText db) (c : Text) where
  abbrev newer : Row → Bool
  newer = is_newer db (codes "updated_at") c

  newer-IsKeyed : (r : Row) (h : IsKeyed r) → newer r ≡ text_ltb c (normalise h.stamp)
  unfolding is_newer is_after
  newer-IsKeyed r h = rw (h.has_stamp) (rw (replaces h.stamp))

  step_same :
      (i : Text) (r : Row) (rows : List Row) (h : IsKeyed r)
      → text_eq h.id i ≡ true
      → stamp_at (by_text i) (keep newer rows) ≡ none
      → stamp_at (by_text i) (keep newer (r ∷ rows)) ≡ later c (stamp_at (by_text i) (r ∷ rows))
  unfolding stamp_at later
  step_same i r rows h same free = elim (Bool-cases (newer r)) [
    | inl kept ↦
        rw kept (rw (h.is_text, same, h.has_stamp) (rw (sym (newer-IsKeyed r h) ∙ kept) refl))
    | inr dropped ↦
        rw dropped (rw (h.is_text, same, h.has_stamp) (rw (sym (newer-IsKeyed r h) ∙ dropped) free))
  ]

  step_other :
      (i : Text) (r : Row) (rows : List Row) (h : IsKeyed r)
      → text_eq h.id i ≡ false
      → stamp_at (by_text i) (keep newer rows) ≡ later c (stamp_at (by_text i) rows)
      → stamp_at (by_text i) (keep newer (r ∷ rows)) ≡ later c (stamp_at (by_text i) (r ∷ rows))
  unfolding stamp_at
  step_other i r rows h other rest = elim (Bool-cases (newer r)) [
    | inl kept ↦ rw kept (rw (h.is_text, other) rest)
    | inr dropped ↦ rw dropped (rw (h.is_text, other) rest)
  ]

  -- Of the rows after the cursor, the one with a key.
  pub stamp_at-keep :
      (k : Key) (rows : List Row)
      → All IsKeyed rows
      → Unique rows
      → stamp_at k (keep newer rows) ≡ later c (stamp_at k rows)
  unfolding stamp_at
  stamp_at-keep (by_int n) rows hs u =
      stamp_at-int n (keep newer rows) (All-keep IsKeyed newer rows hs)
      ∙ sym (later-none c)
      ∙ ap (later c) (sym (stamp_at-int n rows hs))
  stamp_at-keep (by_text i) [] hs u = sym (later-none c)
  stamp_at-keep (by_text i) (r ∷ rows) hs u = elim (Bool-cases (text_eq hs.0.id i)) [
    | inl same ↦ step_same i r rows hs.0 same (
        stamp_at-free i (keep newer rows) (All-keep IsKeyed newer rows hs.1) (
          All-keep _ newer rows (
            subst (λ (v : Value). All (λ (q : Row). q.id ≢ v) rows)
              (hs.0.is_text ∙ ap text ((text_eq_iff hs.0.id i).0 same)) u.0)))
    | inr other ↦ step_other i r rows hs.0 other (stamp_at-keep (by_text i) rows hs.1 u.1)
  ]

module _ (db : Sqlite) (replaces : ReplacesText db) (laws : StoresRows db)
    (schema : Text → List Text) (t : Text) (synced : IsSynced db laws schema t) where
  open db use {Conn}

  -- The rows that an export since a cursor selects.
  abbrev selected : Option Text → List Row → List Row
  selected none rows = rows
  selected (some c) rows = keep (is_newer db (codes "updated_at") (normalise c)) rows

  module _ (conn : Conn) (reads : Reads db laws schema t conn) where
    delta-IsKeyed : (since : Option Text) → All IsKeyed (selected since reads.rows)
    delta-IsKeyed none = reads.keyed
    delta-IsKeyed (some c) = All-keep IsKeyed _ reads.rows reads.keyed

    delta-Unique : (since : Option Text) → Unique (selected since reads.rows)
    delta-Unique none = reads.unique
    delta-Unique (some c) = Unique-keep _ reads.rows reads.unique

    delta-stamp_at :
        (since : Option Text) (k : Key)
        → stamp_at k (selected since reads.rows) ≡ carried since (stamp_at k reads.rows)
    delta-stamp_at none k = refl
    delta-stamp_at (some c) k =
        stamp_at-keep db replaces (normalise c) k reads.rows reads.keyed reads.unique

    abbrev pub delta : Option Text → List SyncChange
    delta since = map (row_change db t) (selected since reads.rows)

    pub delta-IsHonest : (since : Option Text) → All (IsHonest db laws schema) (delta since)
    delta-IsHonest since =
        rows-IsHonest db laws schema t synced (selected since reads.rows) (delta-IsKeyed since)

    detect_timestamp_column-IsSynced :
        HasSchema db laws schema conn
        → detect_timestamp_column db conn t ≡ some (codes "updated_at")
    unfolding detect_timestamp_column local_table_columns
    detect_timestamp_column-IsSynced h =
        detected (db.table_info conn t) (schema t) (h t) synced.stamp_column

    pub export-delta :
        (since : Option Text)
        → HasSchema db laws schema conn
        → export_changes_since db conn t since ≡ ok (delta since)
    unfolding export_changes_since
    export-delta none h = rw (synced.named, reads.exists) (rw reads.selected)
    export-delta (some c) h =
        rw (synced.named, reads.exists) (rw (detect_timestamp_column-IsSynced h, reads.selected))

    -- The changes to a row are at most `u` if what is carried of its timestamp is.
    pub delta-carried :
        (since u : Option Text) (k : Key)
        → Stamps db laws schema u t k (delta since) (delta-IsHonest since)
          ↔ Within u
              (Option.map normalise (carried since (db.select_updated_at conn t k >>= λ o. o)))
    unfolding delta-IsHonest
    delta-carried since u k = rw (reads.found k) (
        rw (← delta-stamp_at since k) (
          StampsOf-stamp_at db laws schema t synced u k (selected since reads.rows)
            (delta-IsKeyed since) (delta-Unique since)))
