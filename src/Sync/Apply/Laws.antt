-- ===== src/Sync/Apply/Laws.antt =====
-- What last-writer-wins relies on in SQLite, and what the values bound to a statement are.
use mathlib.Core.Option
use convergio_mesh.Prelude.{
  ◌≡◌, ◌≢◌, ◌⊎◌, refl, Bool, true, false, ◌&&◌, List, [], ◌∷◌, Option, none, some, arith, keep, All,
  Bool-cases, inl, inr, ◌>>=◌, if◌then◌else◌,
}
use convergio_mesh.Prelude.Text.{Text, codes, text_eq, elem}
use convergio_mesh.Prelude.Text.Order.{text_eq_iff, text_eq_refl}
use convergio_mesh.Sync.Json.{Json, Fields, end, field, get, keys}
use convergio_mesh.Sync.Sqlite.{Key, Sqlite}
use convergio_mesh.Sync.Export.{normalise}
use convergio_mesh.Sync.Apply.{json_to_sql_string, values_of}

-- The value that a statement binds to a column.
abbrev pub bound : Text → List Text → List Text → Option Text
bound n [] vals = none
bound n (c ∷ cols) [] = none
bound n (c ∷ cols) (v ∷ vals) = if text_eq c n then some v else bound n cols vals

-- Every column of the list is one of the object's.
abbrev pub Filled : Fields → List Text → Type 0
Filled o = All (λ c. (j : Json) × (get c o ≡ some j))

Filled-field :
    (c : Text) (v : Json) (o : Fields) (cols : List Text)
    → Filled o cols
    → Filled (field c v o) cols
unfolding get
Filled-field c v o [] f = tt
Filled-field c v o (d ∷ cols) f = (more (Bool-cases (text_eq c d)), Filled-field c v o cols f.1)
  where
    more :
        (text_eq c d ≡ true) ⊎ (text_eq c d ≡ false) → (j : Json) × (get d (field c v o) ≡ some j)
    more (inl e) = (v, rw (e, get))
    more (inr e) = (f.0.0, rw (e, get) f.0.1)

pub Filled-keys : (o : Fields) → Filled o (keys o)
unfolding get keys
Filled-keys end = tt
Filled-keys (field c v o) =
    ((v, rw (text_eq_refl c, get)), Filled-field c v o (keys o) (Filled-keys o))

pub Filled-keep :
    (p : Text → Bool) (o : Fields) (cols : List Text) → Filled o cols → Filled o (keep p cols)
Filled-keep p o [] f = tt
Filled-keep p o (c ∷ cols) f = elim (Bool-cases (p c)) [
  | inl kept ↦ rw kept (f.0, Filled-keep p o cols f.1)
  | inr dropped ↦ rw dropped (Filled-keep p o cols f.1)
]

pub elem-keep :
    (n : Text) (p : Text → Bool) (xs : List Text) → elem n (keep p xs) ≡ (elem n xs && p n)
unfolding elem
elem-keep n p [] = refl
elem-keep n p (x ∷ xs) = ground (arith, elem-keep n p xs, text_eq_iff x n)

pub elem-keys : (n : Text) (o : Fields) (j : Json) → get n o ≡ some j → elem n (keys o) ≡ true
unfolding elem keys get
elem-keys n end j h = cc
elem-keys n (field c v o) j h = ground (arith, elem-keys n o j)

module _ (db : Sqlite) where
  open db use {Conn, table_info, set_foreign_keys, insert_or_replace, select_updated_at}

  -- The documented behaviour of INSERT OR REPLACE on tables whose one unique key is `id`.
  pub record StoresRows : Type 0 where
    -- The key of the row whose `id` is bound to a text, which the column's affinity converts.
    pub row_key : Text → Text → Option Key
    pub schema_kept :
        (c c' : Conn) (t : Text) (cols vals : List Text) (t' : Text)
        → insert_or_replace c t cols vals ≡ some c'
        → table_info c' t' ≡ table_info c t'
    pub row_written :
        (c c' : Conn) (t : Text) (cols vals : List Text) (i stamp : Text) (k : Key)
        → insert_or_replace c t cols vals ≡ some c'
        → bound (codes "id") cols vals ≡ some i
        → row_key t i ≡ some k
        → bound (codes "updated_at") cols vals ≡ some stamp
        → select_updated_at c' t k ≡ some (some stamp)
    pub others_kept :
        (c c' : Conn) (t : Text) (cols vals : List Text) (i : Text) (t' : Text) (k : Key)
        → insert_or_replace c t cols vals ≡ some c'
        → bound (codes "id") cols vals ≡ some i
        → (t ≡ t' → row_key t i ≢ some k)
        → select_updated_at c' t' k ≡ select_updated_at c t' k
    -- The PRAGMA changes no table.
    pub toggle_kept :
        (c c' : Conn) (b : Bool) (t : Text)
        → set_foreign_keys c b ≡ some c'
        → (table_info c' t ≡ table_info c t)
          × ((k : Key) → select_updated_at c' t k ≡ select_updated_at c t k)

  -- The timestamp of a row, in canonical form; none where there is no row or no timestamp.
  unfoldable pub clock : Conn → Text → Key → Option Text
  clock c t k = Option.map normalise (select_updated_at c t k >>= λ found. found)

  -- A statement binds to each of its columns the value that the object has there.
  pub bound-values :
      (n : Text) (o : Fields) (cols : List Text)
      → Filled o cols
      → elem n cols ≡ true
      → bound n cols (values_of db o cols) ≡ Option.map (json_to_sql_string db) (get n o)
  unfolding values_of elem
  bound-values n o [] f h = cc
  bound-values n o (c ∷ cols) f h =
      let (j, found) = f.0 in
      rw found (elim (Bool-cases (text_eq c n)) [
        | inl same ↦ rw same (rw (← (text_eq_iff c n).0 same) (rw found))
        | inr other ↦ rw other (bound-values n o cols f.1 (rw other at h))
      ])
