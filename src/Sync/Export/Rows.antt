-- ===== src/Sync/Export/Rows.antt =====
-- What an exported object holds of its row.
use mathlib.Core.Option.{some-injective}
use convergio_mesh.Prelude.{
  ◌≡◌, refl, ap, ◌∙◌, List, [], ◌∷◌, none, some, arith, inl, inr, Bool-cases, if◌then◌else◌,
}
use convergio_mesh.Prelude.Text.{Text, codes, text_eq}
use convergio_mesh.Prelude.Text.Order.{text_eq_iff}
use convergio_mesh.Prelude.Map.{lookup}
use convergio_mesh.Sync.Json.{Json, Fields, end, field, get, put}
use convergio_mesh.Sync.Sqlite.{Value, text, Row, Sqlite}
use convergio_mesh.Sync.Export.{normalise, sqlite_to_json, row_data, row_change, change_updated_at}

pub get-put :
    (k j : Text) (v : Json) (o : Fields)
    → get j (put k v o) ≡ (if text_eq k j then some v else get j o)
unfolding get put
get-put k j v end = refl
get-put k j v (field i w o) =
    ground (arith, text_eq_iff k j, text_eq_iff i k, text_eq_iff i j, get-put k j v o)

-- The columns of a row have different names.
abbrev pub Distinct : List (Text × Value) → Type 0
Distinct [] = Unit
Distinct ((n, v) ∷ cells) = (lookup n cells ≡ none) × Distinct cells

module _ (db : Sqlite) where
  row_data-none :
      (n : Text) (cells : List (Text × Value)) (o : Fields)
      → lookup n cells ≡ none
      → get n (row_data db cells o) ≡ get n o
  unfolding row_data lookup
  row_data-none n [] o h = refl
  row_data-none n ((m, v) ∷ cells) o h = elim (Bool-cases (text_eq m n)) [
    | inl same ↦ cc (rw same at h)
    | inr other ↦
        row_data-none n cells (put m (sqlite_to_json db v) o) (rw other at h)
        ∙ get-put m n (sqlite_to_json db v) o
        ∙ rw other
  ]

  -- An exported object has the value of each column of its row.
  pub row_data-lookup :
      (n : Text) (cells : List (Text × Value)) (o : Fields) (v : Value)
      → Distinct cells
      → lookup n cells ≡ some v
      → get n (row_data db cells o) ≡ some (sqlite_to_json db v)
  unfolding row_data lookup
  row_data-lookup n [] o v d h = cc
  row_data-lookup n ((m, w) ∷ cells) o v d h = elim (Bool-cases (text_eq m n)) [
    | inl same ↦
        row_data-none n cells _ (rw ((text_eq_iff m n).0 same) at d.0)
        ∙ get-put m n (sqlite_to_json db w) o
        ∙ rw same (ap (λ x. some (sqlite_to_json db x)) (some-injective _ _ (rw same at h)))
    | inr other ↦ row_data-lookup n cells (put m (sqlite_to_json db w) o) v d.1 (rw other at h)
  ]

  -- REPLACE works on a text as `str::replace` does.
  abbrev pub ReplacesText : Type 0
  ReplacesText = (s : Text) → db.replace_t (text s) ≡ some (normalise s)

  -- The timestamp that a change carries is the one by which SQL selected its row.
  pub change-row_change :
      (table : Text) (r : Row) (s : Text)
      → Distinct r.cells
      → lookup (codes "updated_at") r.cells ≡ some (text s)
      → change_updated_at (row_change db table r) ≡ some (normalise s)
  unfolding change_updated_at row_change sqlite_to_json
  change-row_change table r s d h =
      rw (row_data-lookup (codes "updated_at") r.cells end (text s) d h)
