-- ===== src/Sync/Shelf.antt =====
-- A database in memory that reads back the rows that it stores: of each table the timestamps by id,
-- at which the hypotheses on the reading and writing of rows hold together.
use convergio_mesh.Prelude.{
  ◌≡◌, ◌≢◌, refl, sym, subst, ap, ◌∙◌, Bool, true, false, ◌&&◌, List, [], ◌∷◌, map, Option, none,
  some, All, arith, or_else, ◌>>=◌, if◌then◌else◌,
}
use mathlib.Core.Option.{some-injective}
use convergio_mesh.Prelude.Text.{Text, codes, text_eq}
use convergio_mesh.Prelude.Text.Order.{text_eq_iff, text_eq_refl, text_ltb_irrefl}
use convergio_mesh.Prelude.Map.{Map, lookup, insert, Above}
use convergio_mesh.Prelude.Int.{ℤ}
use convergio_mesh.Prelude.Map.Laws.{IsSorted, lookup-insert, insert-IsSorted}
use convergio_mesh.Sync.Sqlite.{text, Row, Key, by_int, by_text, Sqlite}
use convergio_mesh.Sync.Export.Honest.{stamp_at, IsKeyed, Unique, Reads}
use convergio_mesh.Sync.Apply.Laws.{StoresRows, bound}
use convergio_mesh.Sync.Apply.Batch.{Executes}
use convergio_mesh.Sync.Memory.{as_text, update}
use convergio_mesh.Sync.Round.Exchange.{MetaApart}

pub record Shelf : Type 0 where
  pub stamps : Text → Map Text
  pub sorted : (t : Text) → IsSorted (stamps t)
  pub meta : Text → Text → Option Text

pub if_IsSorted :
    (b : Bool) (m n : Map Text) → IsSorted m → IsSorted n → IsSorted (if b then m else n)
if_IsSorted true m n s r = s
if_IsSorted false m n s r = r

abbrev put_in : Shelf → Text → Text → Text → Shelf
put_in c t i s = record c {
  stamps = λ t'. if text_eq t t' then insert i s (c.stamps t') else c.stamps t';
  sorted = λ t'.
      if_IsSorted (text_eq t t') (insert i s (c.stamps t')) (c.stamps t')
        (insert-IsSorted i s (c.stamps t') (c.sorted t')) (c.sorted t');
}

abbrev store : Shelf → Text → Option Text → Option Text → Option Shelf
store c t none v = some c
store c t (some i) v = some (put_in c t i (or_else v []))

abbrev select : Shelf → Text → Key → Option (Option Text)
select c t (by_text i) = some (lookup i (c.stamps t))
select c t (by_int n) = some none

abbrev row_of : Text × Text → Row
row_of (i, s) = record {
  id = text i;
  cells = (codes "id", text i) ∷ (codes "updated_at", text s) ∷ [];
}

abbrev pub shelf : Sqlite
shelf = record {
  Conn = Shelf;
  table_exists = λ c t. some true;
  table_info = λ c t. some (codes "id" ∷ codes "updated_at" ∷ []);
  select_rows = λ c t. some (map row_of (c.stamps t));
  replace_t = as_text;
  select_updated_at = select;
  set_foreign_keys = λ c b. some c;
  insert_or_replace = λ c t cols vals.
      store c t (bound (codes "id") cols vals) (bound (codes "updated_at") cols vals);
  select_sync_meta = λ c p t. some (c.meta p t);
  upsert_sync_meta = λ c p t v. some (record c { meta = update c.meta p t (some v) });
  encode_base64 = λ b. b;
  to_string = λ j. codes "0";
}

stamps_put :
    (c : Shelf) (t i s t' k : Text)
    → lookup k ((put_in c t i s).stamps t')
      ≡ (if text_eq t t' && text_eq i k then some s else lookup k (c.stamps t'))
stamps_put c t i s t' k = ground (arith, lookup-insert i k s (c.stamps t'))

runs : (c : Shelf) (t : Text) (o v : Option Text) → (c' : Shelf) × (store c t o v ≡ some c')
runs c t none v = (c, refl)
runs c t (some i) v = (put_in c t i (or_else v []), refl)

pub written :
    (c c' : Shelf) (t : Text) (o : Option Text) (i stamp : Text) (k : Key) (v : Option Text)
    → store c t o v ≡ some c'
    → o ≡ some i
    → some (by_text i) ≡ some k
    → v ≡ some stamp
    → select c' t k ≡ some (some stamp)
written c c' t none i stamp k v e o n s = cc
written c c' t (some j) i stamp (by_int k) v e o n s = cc
written c c' t (some j) i stamp (by_text k) none e o n s = cc
written c c' t (some j) i stamp (by_text k) (some v) e o n s =
    let jk : j ≡ k = cc in
    ap some (
      sym (ap (λ (m : Shelf). lookup k (m.stamps t)) (some-injective _ _ e))
      ∙ stamps_put c t j v t k
      ∙ subst
          (λ k'. (if text_eq t t && text_eq j k' then some v else lookup k' (c.stamps t)) ≡ some v)
          jk (rw (text_eq_refl t, text_eq_refl j) refl)
      ∙ s)

pub kept :
    (c c' : Shelf) (t : Text) (o v : Option Text) (i t' : Text) (k : Key)
    → store c t o v ≡ some c'
    → o ≡ some i
    → (t ≡ t' → some (by_text i) ≢ some k)
    → select c' t' k ≡ select c t' k
kept c c' t none v i t' k e o n = ap (λ (m : Shelf). select m t' k) (sym (some-injective _ _ e))
kept c c' t (some j) v i t' (by_int k) e o n = refl
kept c c' t (some j) v i t' (by_text k) e o n = ap some (
    sym (ap (λ (m : Shelf). lookup k (m.stamps t')) (some-injective _ _ e))
    ∙ stamps_put c t j (or_else v []) t' k
    ∙ other (λ same. n same.0 (cc (o, same.1))))
  where
    other :
        ¬ ((t ≡ t') × (j ≡ k))
        → (if text_eq t t' && text_eq j k then some (or_else v []) else lookup k (c.stamps t'))
          ≡ lookup k (c.stamps t')
    other h = ground (arith, text_eq_iff t t', text_eq_iff j k)

unfoldable pub shelf-StoresRows : StoresRows shelf
shelf-StoresRows = record {
  row_key = λ t i. some (by_text i);
  schema_kept = λ c c' t cols vals t' e. refl;
  row_written = λ c c' t cols vals i stamp k e o n s.
      written c c' t (bound (codes "id") cols vals) i stamp k _ e o n s;
  others_kept =
      λ c c' t cols vals i t' k e o n. kept c c' t (bound (codes "id") cols vals) _ i t' k e o n;
  toggle_kept =
      λ c c' b t e. (refl, λ k. ap (λ (m : Shelf). select m t k) (sym (some-injective _ _ e)));
}

pub shelf-Executes : Executes shelf
shelf-Executes = record {
  writes = λ c t cols vals. runs c t (bound (codes "id") cols vals) _;
  switches = λ c b. (c, refl);
}

select_meta :
    (c c' : Shelf) (p t v t' : Text) (k : Key)
    → some (record c { meta = update c.meta p t (some v) }) ≡ some c'
    → select c' t' k ≡ select c t' k
select_meta c c' p t v t' (by_int n) e = refl
select_meta c c' p t v t' (by_text i) e =
    ap (λ (m : Shelf). some (lookup i (m.stamps t'))) (sym (some-injective _ _ e))

pub shelf-MetaApart : MetaApart shelf
shelf-MetaApart = select_meta

row_of-IsKeyed : (m : Map Text) → All IsKeyed (map row_of m)
unfolding lookup text_eq
row_of-IsKeyed [] = tt
row_of-IsKeyed ((i, s) ∷ m) = (
  record {
    id = i;
    is_text = refl;
    distinct = (refl, (refl, tt));
    has_id = refl;
    stamp = s;
    has_stamp = refl;
  },
  row_of-IsKeyed m,
)

text-injective : (i j : Text) → text i ≡ text j → i ≡ j
text-injective i j e = cc

Above-fresh :
    (i : Text) (m : Map Text) → Above i m → All (λ (q : Row). q.id ≢ text i) (map row_of m)
Above-fresh i [] a = tt
Above-fresh i ((j, s) ∷ m) a =
    (λ e. ground (arith, text_ltb_irrefl j, text-injective j i e, a.0), Above-fresh i m a.1)

row_of-Unique : (m : Map Text) → IsSorted m → Unique (map row_of m)
row_of-Unique [] s = tt
row_of-Unique ((i, v) ∷ m) s = (Above-fresh i m s.0, row_of-Unique m s.1)

stamp_at-text : (i : Text) (m : Map Text) → lookup i m ≡ stamp_at (by_text i) (map row_of m)
unfolding lookup stamp_at text_eq
stamp_at-text i [] = refl
stamp_at-text i ((j, s) ∷ m) = ground (arith, stamp_at-text i m)

stamp_at-int : (n : ℤ) (m : Map Text) → none ≡ stamp_at (by_int n) (map row_of m)
unfolding stamp_at
stamp_at-int n [] = refl
stamp_at-int n (e ∷ m) = stamp_at-int n m

found :
    (c : Shelf) (t : Text) (k : Key)
    → (select c t k >>= λ o. o) ≡ stamp_at k (map row_of (c.stamps t))
found c t (by_int n) = stamp_at-int n (c.stamps t)
found c t (by_text i) = stamp_at-text i (c.stamps t)

pub shelf-Reads :
    (schema : Text → List Text) (t : Text) (c : Shelf) → Reads shelf shelf-StoresRows schema t c
shelf-Reads schema t c = record {
  exists = refl;
  rows = map row_of (c.stamps t);
  selected = refl;
  keyed = row_of-IsKeyed (c.stamps t);
  unique = row_of-Unique (c.stamps t) (c.sorted t);
  found = found c t;
}
