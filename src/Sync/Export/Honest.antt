-- ===== src/Sync/Export/Honest.antt =====
-- An exported row is a change that last writer wins can order, and the export of a table carries the
-- timestamps of its rows.
use mathlib.Core.Option
use convergio_mesh.Prelude.{
  ◌≡◌, ◌≢◌, refl, sym, ap, subst, false≢true, ◌∙◌, Bool, true, false, not, List, [], ◌∷◌, map,
  Option, none, some, arith, All, all, any, keep, ◌↔◌, ◌>>=◌, inl, inr, Bool-cases, if◌then◌else◌,
}
use convergio_mesh.Prelude.Text.{Text, codes, text_eq, elem}
use convergio_mesh.Prelude.Text.Order.{text_eq_iff, Within}
use convergio_mesh.Prelude.Map.{lookup}
use convergio_mesh.Prelude.Int.{ℤ}
use convergio_mesh.Sync.Json.{Json, end, keys}
use convergio_mesh.Sync.Types.{in_sync_tables}
use convergio_mesh.Sync.Sqlite.{Value, text, Row, Key, by_int, by_text, Sqlite}
use convergio_mesh.Sync.Export.{
  normalise, sqlite_to_json, row_pk, row_data, row_change, is_identifier_char,
}
use convergio_mesh.Sync.Export.Rows.{Distinct, row_data-lookup}
use convergio_mesh.Sync.Apply.{is_safe_identifier, pk_key, json_to_sql_string}
use convergio_mesh.Sync.Apply.Laws.{StoresRows}
use convergio_mesh.Sync.Apply.Merge.{IsHonest}
use convergio_mesh.Sync.Apply.Batch.{Stamps}

-- The text of a cell.
abbrev pub text_of : Option Value → Option Text
text_of (some (text s)) = some s
text_of _ = none

-- The key is that of the row.
abbrev pub is_id : Value → Key → Bool
is_id (text s) (by_text i) = text_eq s i
is_id _ _ = false

-- The timestamp of the row with a key.
unfoldable pub stamp_at : Key → List Row → Option Text
stamp_at k [] = none
stamp_at k (r ∷ rows) =
    if is_id r.id k then text_of (lookup (codes "updated_at") r.cells) else stamp_at k rows

-- A row with a text as its id, and a timestamp.
pub record IsKeyed (r : Row) : Type 0 where
  pub id : Text
  pub is_text : r.id ≡ text id
  pub distinct : Distinct r.cells
  pub has_id : lookup (codes "id") r.cells ≡ some (text id)
  pub stamp : Text
  pub has_stamp : lookup (codes "updated_at") r.cells ≡ some (text stamp)

-- The ids are different.
abbrev pub Unique : List Row → Type 0
Unique [] = Unit
Unique (r ∷ rows) = All (λ (q : Row). q.id ≢ r.id) rows × Unique rows

all-elem :
    (p : Text → Bool) (x : Text) (ys : List Text) → all p ys ≡ true → elem x ys ≡ true → p x ≡ true
unfolding elem
all-elem p x [] h e = cc
all-elem p x (y ∷ ys) h e = ground (arith, all-elem p x ys, text_eq_iff y x)

any-keep :
    (p : Text → Bool) (xs ys : List Text)
    → all p ys ≡ true
    → any (λ c. not (p c)) (keep (λ c. elem c ys) xs) ≡ false
any-keep p [] ys h = refl
any-keep p (x ∷ xs) ys h = ground (arith, any-keep p xs ys h, all-elem p x ys h)

text_not_int : (i : Text) (n : ℤ) → by_text i ≢ by_int n
text_not_int i n e = cc

module _ (db : Sqlite) (laws : StoresRows db) (schema : Text → List Text) (t : Text) where
  open db use {Conn, table_exists, select_rows, select_updated_at}

  -- A synchronised table with the columns `id` and `updated_at`, whose ids are texts.
  pub record IsSynced : Type 0 where
    pub named : all is_identifier_char t ≡ true
    pub listed : in_sync_tables t ≡ true
    pub safe : all is_safe_identifier (schema t) ≡ true
    pub id_column : elem (codes "id") (schema t) ≡ true
    pub stamp_column : elem (codes "updated_at") (schema t) ≡ true
    pub text_ids : (i : Text) → laws.row_key t i ≡ some (by_text i)

  -- What SELECT reads of such a table: rows with different ids and a timestamp, of which
  -- WHERE id = ?1 finds the one with that id.
  pub record Reads (c : Conn) : Type 0 where
    pub exists : table_exists c t ≡ some true
    pub rows : List Row
    pub selected : select_rows c t ≡ some rows
    pub keyed : All IsKeyed rows
    pub unique : Unique rows
    pub found : (k : Key) → (select_updated_at c t k >>= λ o. o) ≡ stamp_at k rows

  module _ (synced : IsSynced) where
    row-IsHonest : (r : Row) → IsKeyed r → IsHonest db laws schema (row_change db t r)
    unfolding row_change row_pk pk_key sqlite_to_json json_to_sql_string
    row-IsHonest r h = record {
      obj = row_data db r.cells end;
      is_object = refl;
      listed = synced.listed;
      safe = any-keep is_safe_identifier (keys (row_data db r.cells end)) (schema t) synced.safe;
      id = Json.string h.id;
      has_id = row_data-lookup db (codes "id") r.cells end (text h.id) h.distinct h.has_id;
      key = by_text h.id;
      names_key = synced.text_ids h.id;
      pk_agrees = rw h.is_text;
      stamp = h.stamp;
      has_stamp =
          row_data-lookup db (codes "updated_at") r.cells end (text h.stamp) h.distinct h.has_stamp;
      id_column = synced.id_column;
      stamp_column = synced.stamp_column;
    }

    pub rows-IsHonest :
        (rows : List Row)
        → All IsKeyed rows
        → All (IsHonest db laws schema) (map (row_change db t) rows)
    rows-IsHonest [] hs = tt
    rows-IsHonest (r ∷ rows) hs = (row-IsHonest r hs.0, rows-IsHonest rows hs.1)

    by_text-injective : (i j : Text) → by_text i ≡ by_text j → i ≡ j
    by_text-injective i j e = cc

    abbrev pub StampsOf : Option Text → Key → (rows : List Row) → All IsKeyed rows → Type 0
    StampsOf u k rows hs =
        Stamps db laws schema u t k (map (row_change db t) rows) (rows-IsHonest rows hs)

    -- No row with the id: no change to it.
    StampsOf-free :
        (u : Option Text) (i : Text) (rows : List Row) (hs : All IsKeyed rows)
        → All (λ (q : Row). q.id ≢ text i) rows
        → StampsOf u (by_text i) rows hs
    unfolding row-IsHonest rows-IsHonest
    StampsOf-free u i [] hs free = tt
    StampsOf-free u i (r ∷ rows) hs free = (
      λ here. absurd (free.0 (hs.0.is_text ∙ ap text (by_text-injective hs.0.id i here.1))),
      StampsOf-free u i rows hs.1 free.1,
    )

    StampsOf-int :
        (u : Option Text) (n : ℤ) (rows : List Row) (hs : All IsKeyed rows)
        → StampsOf u (by_int n) rows hs × (stamp_at (by_int n) rows ≡ none)
    unfolding row-IsHonest rows-IsHonest stamp_at
    StampsOf-int u n [] hs = (tt, refl)
    StampsOf-int u n (r ∷ rows) hs =
        let rest = StampsOf-int u n rows hs.1 in
        ((λ here. absurd (text_not_int hs.0.id n here.1), rest.0), rw hs.0.is_text (rest.1))

    -- The changes to a row are at most `u` if the timestamp of the row is.
    pub StampsOf-stamp_at :
        (u : Option Text) (k : Key) (rows : List Row) (hs : All IsKeyed rows)
        → Unique rows
        → StampsOf u k rows hs ↔ Within u (Option.map normalise (stamp_at k rows))
    unfolding row-IsHonest rows-IsHonest stamp_at
    StampsOf-stamp_at u (by_int n) rows hs d =
        rw ((StampsOf-int u n rows hs).1) (λ _. tt, λ _. (StampsOf-int u n rows hs).0)
    StampsOf-stamp_at u (by_text i) [] hs d = (λ _. tt, λ _. tt)
    StampsOf-stamp_at u (by_text i) (r ∷ rows) hs d = elim (Bool-cases (text_eq hs.0.id i)) [
      | inl same ↦
          let e : hs.0.id ≡ i = (text_eq_iff hs.0.id i).0 same in
          rw (hs.0.is_text, same, hs.0.has_stamp)
            (
              λ h. h.0 (refl, ap by_text e),
              λ w. (
                λ _. w,
                StampsOf-free u i rows hs.1 (
                    subst (λ (v : Value). All (λ (q : Row). q.id ≢ v) rows)
                      (hs.0.is_text ∙ ap text e) d.0),
              ),
            )
      | inr other ↦
          let rest = StampsOf-stamp_at u (by_text i) rows hs.1 d.1 in
          rw (hs.0.is_text, other)
            (
              λ h. rest.0 h.1,
              λ w. (
                λ here. absurd (
                    false≢true
                      (sym other ∙ (text_eq_iff hs.0.id i).1 (by_text-injective hs.0.id i here.1))),
                rest.1 w,
              ),
            )
    ]
