-- ===== src/Sync/Apply/Merge.antt =====
-- Last writer wins: an import moves the timestamp of each row to the latest that it has seen.
use mathlib.Core.Option
use mathlib.Core.Option.{some-injective}
use convergio_mesh.Prelude.{
  ◌≡◌, ◌≢◌, refl, sym, subst, ◌∙◌, true, false, false≢true, not, List, [], ◌∷◌, Option, none, some,
  arith, any, keep, is_empty, Bool-cases, inl, inr, ◌↔◌, or_else, ◌>>=◌, if◌then◌else◌,
}
use convergio_mesh.Prelude.Text.{Text, codes, text_eq, elem}
use convergio_mesh.Prelude.Text.Order.{text_eq_iff, Within, text_ltb_asym, ≼_trans}
use convergio_mesh.Sync.Json.{Json, Fields, as_object, get, keys}
use convergio_mesh.Sync.Types.{SyncChange, in_sync_tables}
use convergio_mesh.Sync.Sqlite.{Key, Key-discrete, Sqlite}
use convergio_mesh.Sync.Export.{normalise}
use convergio_mesh.Sync.Apply.{
  ApplyReport, reject, write, is_safe_identifier, pk_key, is_stale, remote_updated_at,
  json_to_sql_string, local_table_columns, local_updated_at, shared_columns, values_of, check_row,
  check_columns, check_object, check_change, record_outcome, execute_verdict, apply_change,
}
use convergio_mesh.Sync.Apply.Laws.{
  StoresRows, bound, clock, Filled-keys, Filled-keep, elem-keep, elem-keys, bound-values,
}

stale-Within :
    (r : Text) (u o : Option Text)
    → is_stale (some r) o ≡ true
    → Within u (Option.map normalise o)
    → Within u (some r)
unfolding is_stale
stale-Within r u none h w = cc
stale-Within r none (some l) h w = elim w [ ]
stale-Within r (some u) (some l) h w = ground (arith, ≼_trans r (normalise l) u)

newer-Within :
    (r : Text) (u o : Option Text)
    → is_stale (some r) o ≡ false
    → Within u (some r)
    → Within u (Option.map normalise o)
unfolding is_stale
newer-Within r u none h w = tt
newer-Within r none (some l) h w = elim w [ ]
newer-Within r (some u) (some l) h w =
    ground (arith, text_ltb_asym (normalise l) r, ≼_trans (normalise l) r u)

module _ (db : Sqlite) (laws : StoresRows db) (schema : Text → List Text) where
  open db use {Conn, insert_or_replace, select_updated_at}

  -- The local tables have the columns that `schema` lists.
  abbrev pub HasSchema : Conn → Type 0
  HasSchema c = (t : Text) → local_table_columns db c t ≡ schema t

  -- A change as a peer exports it: a row of a synchronised table, under one key in `pk` and in
  -- `id`, with a timestamp, for a local table that has both columns.
  pub record IsHonest (x : SyncChange) : Type 0 where
    pub obj : Fields
    pub is_object : as_object x.row ≡ some obj
    pub listed : in_sync_tables x.table_name ≡ true
    pub safe :
        any (λ c. not (is_safe_identifier c)) (keep (λ c. elem c (schema x.table_name)) (keys obj))
        ≡ false
    pub id : Json
    pub has_id : get (codes "id") obj ≡ some id
    pub key : Key
    pub names_key : laws.row_key x.table_name (json_to_sql_string db id) ≡ some key
    pub pk_agrees : pk_key x.pk ≡ some key
    pub stamp : Text
    pub has_stamp : get (codes "updated_at") obj ≡ some (Json.string stamp)
    pub id_column : elem (codes "id") (schema x.table_name) ≡ true
    pub stamp_column : elem (codes "updated_at") (schema x.table_name) ≡ true

  not_empty_of_elem : (n : Text) (xs : List Text) → elem n xs ≡ true → is_empty xs ≡ false
  unfolding elem
  not_empty_of_elem n [] h = cc
  not_empty_of_elem n (x ∷ xs) h = refl

  module _ (x : SyncChange) (honest : IsHonest x) where
    open honest use {obj, is_object, listed, safe, has_id, key, names_key, pk_agrees, stamp}

    pub cols : List Text
    cols = keep (λ c. elem c (schema x.table_name)) (keys obj)

    cols-nonempty : is_empty cols ≡ false
    unfolding cols
    cols-nonempty = not_empty_of_elem (codes "id") _ (
        elem-keep (codes "id") _ (keys obj)
        ∙ rw (elem-keys (codes "id") obj honest.id has_id, honest.id_column))

    check_row-IsHonest :
        (c : Conn)
        → check_row db c x obj cols ≡ (
            if is_stale (some (normalise stamp)) (select_updated_at c x.table_name key >>= λ o. o)
            then reject
            else write cols (values_of db obj cols) (some (normalise stamp)))
    unfolding check_row remote_updated_at local_updated_at
    check_row-IsHonest c = rw (honest.has_stamp, pk_agrees)

    -- The checks leave one question open: whether the row is newer.
    check-IsHonest :
        (c : Conn)
        → HasSchema c
        → check_change db c x ≡ (
            if is_stale (some (normalise stamp)) (select_updated_at c x.table_name key >>= λ o. o)
            then reject
            else write cols (values_of db obj cols) (some (normalise stamp)))
    unfolding check_change check_object check_columns shared_columns cols
    check-IsHonest c s =
        rw (listed, is_object)
          (rw
            (s x.table_name, not_empty_of_elem (codes "id") (schema x.table_name) honest.id_column)
            (rw (cols-nonempty) (rw safe (check_row-IsHonest c))))

    bound_id :
        (vals : List Text)
        → vals ≡ values_of db obj cols
        → bound (codes "id") cols vals ≡ some (json_to_sql_string db honest.id)
    unfolding cols
    bound_id vals e = rw e (
        bound-values db (codes "id") obj cols (Filled-keep _ obj (keys obj) (Filled-keys obj)) (
          elem-keep (codes "id") _ (keys obj)
          ∙ rw (elem-keys (codes "id") obj honest.id has_id, honest.id_column))
        ∙ rw has_id)

    bound_stamp : bound (codes "updated_at") cols (values_of db obj cols) ≡ some stamp
    unfolding cols json_to_sql_string
    bound_stamp =
        bound-values db (codes "updated_at") obj cols
          (Filled-keep _ obj (keys obj) (Filled-keys obj))
          (elem-keep (codes "updated_at") _ (keys obj)
            ∙ rw (elem-keys (codes "updated_at") obj _ honest.has_stamp, honest.stamp_column))
        ∙ rw honest.has_stamp

    abbrev stored : Conn → Option Text
    stored c = select_updated_at c x.table_name key >>= λ o. o

    outcome-or_else :
        (ts : Option Text) (s : Conn × ApplyReport) (o : Option Conn)
        → (record_outcome db ts s o).0 ≡ or_else o s.0
    unfolding record_outcome
    outcome-or_else ts s none = refl
    outcome-or_else ts s (some c) = refl

    apply-IsHonest :
        (s : Conn × ApplyReport)
        → HasSchema s.0
        → (apply_change db x s).0 ≡ (
            if is_stale (some (normalise stamp)) (stored s.0)
            then s.0
            else or_else (insert_or_replace s.0 x.table_name cols (values_of db obj cols)) s.0)
    unfolding apply_change execute_verdict
    apply-IsHonest s h =
        rw (check-IsHonest s.0 h)
          (elim (Bool-cases (is_stale (some (normalise stamp)) (stored s.0))) [
            | inl stale ↦ rw stale
            | inr newer ↦ rw newer (
                outcome-or_else (some (normalise stamp)) s
                  (insert_or_replace s.0 x.table_name cols (values_of db obj cols)))
          ])

    -- What the change does to the timestamp of its own row.
    merge_self :
        (s : Conn × ApplyReport) (c' : Conn) (u : Option Text)
        → HasSchema s.0
        → insert_or_replace s.0 x.table_name cols (values_of db obj cols) ≡ some c'
        → Within u (clock db (apply_change db x s).0 x.table_name key)
          ↔ (Within u (clock db s.0 x.table_name key) × Within u (some (normalise stamp)))
    unfolding clock
    merge_self s c' u h e = elim (Bool-cases (is_stale (some (normalise stamp)) (stored s.0))) [
      | inl stale ↦
          rw (apply-IsHonest s h, stale)
            (λ w. (w, stale-Within (normalise stamp) u (stored s.0) stale w), λ b. b.0)
      | inr newer ↦
          let now =
            laws.row_written s.0 c' x.table_name cols (values_of db obj cols) _ stamp key e
              (bound_id _ refl) names_key bound_stamp in
          rw (apply-IsHonest s h, newer, e)
            (rw now (λ w. (newer-Within (normalise stamp) u (stored s.0) newer w, w), λ b. b.1))
    ]

    -- What it does to the other rows.
    merge_other :
        (s : Conn × ApplyReport) (c' : Conn) (t : Text) (k : Key)
        → HasSchema s.0
        → insert_or_replace s.0 x.table_name cols (values_of db obj cols) ≡ some c'
        → (x.table_name ≡ t → key ≢ k)
        → clock db (apply_change db x s).0 t k ≡ clock db s.0 t k
    unfolding clock
    merge_other s c' t k h e other =
        elim (Bool-cases (is_stale (some (normalise stamp)) (stored s.0))) [
          | inl stale ↦ rw (apply-IsHonest s h, stale)
          | inr newer ↦
              rw (apply-IsHonest s h, newer, e)
                (rw (
                  laws.others_kept s.0 c' x.table_name cols (values_of db obj cols) _ t k e
                    (bound_id _ refl)
                    (λ same found. other same (some-injective _ _ (sym names_key ∙ found)))))
        ]

    pub merge_schema :
        (s : Conn × ApplyReport) (c' : Conn)
        → HasSchema s.0
        → insert_or_replace s.0 x.table_name cols (values_of db obj cols) ≡ some c'
        → HasSchema (apply_change db x s).0
    unfolding local_table_columns
    merge_schema s c' h e t = elim (Bool-cases (is_stale (some (normalise stamp)) (stored s.0))) [
      | inl stale ↦ rw (apply-IsHonest s h, stale) (h t)
      | inr newer ↦
          rw (apply-IsHonest s h, newer, e)
            (rw (laws.schema_kept s.0 c' x.table_name cols (values_of db obj cols) t e) (h t))
    ]

    -- The change is to the row `k` of table `t`.
    abbrev pub Addresses : Text → Key → Type 0
    Addresses t k = (x.table_name ≡ t) × (key ≡ k)

    dec_addresses : (t : Text) (k : Key) → Dec (Addresses t k)
    dec_addresses t k = elim (Bool-cases (text_eq x.table_name t)) [
      | inl same ↦ elim (Key-discrete key k) [
        | yes found ↦ yes ((text_eq_iff x.table_name t).0 same, found)
        | no other ↦ no (λ h. other h.1)
      ]
      | inr other ↦ no (λ h. false≢true (sym other ∙ (text_eq_iff x.table_name t).1 h.0))
    ]

    pub merge_step :
        (s : Conn × ApplyReport) (c' : Conn) (t : Text) (k : Key) (u : Option Text)
        → HasSchema s.0
        → insert_or_replace s.0 x.table_name cols (values_of db obj cols) ≡ some c'
        → Within u (clock db (apply_change db x s).0 t k)
          ↔ (Within u (clock db s.0 t k) × (Addresses t k → Within u (some (normalise stamp))))
    merge_step s c' t k u h e = elim (dec_addresses t k) [
      | yes here ↦
          subst
            (λ t'. Within u (clock db (apply_change db x s).0 t' k) ↔ (
              Within u (clock db s.0 t' k) × (Addresses t' k → Within u (some (normalise stamp)))))
            here.0
            (subst
              (λ k'. Within u (clock db (apply_change db x s).0 x.table_name k') ↔ (
                Within u (clock db s.0 x.table_name k')
                × (Addresses x.table_name k' → Within u (some (normalise stamp)))))
              here.1
              (let self = merge_self s c' u h e in
                (λ w. ((self.0 w).0, λ _. (self.0 w).1), λ b. self.1 (b.0, b.1 (refl, refl)))))
      | no other ↦
          rw (merge_other s c' t k h e (λ p q. other (p, q)))
            (λ w. (w, λ here. absurd (other here)), λ b. b.0)
    ]
