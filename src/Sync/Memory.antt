-- ===== src/Sync/Memory.antt =====
-- A small database in memory, at which the hypotheses on SQLite hold. Every table has the columns
-- `id`, `name` and `updated_at`, with texts as keys; the rows to export are given.
use convergio_mesh.Prelude.{
  ◌≡◌, ◌≢◌, refl, sym, subst, ap, ◌∙◌, true, ◌&&◌, List, [], ◌∷◌, Option, none, some, arith,
  if◌then◌else◌,
}
use mathlib.Core.Option.{some-injective}
use convergio_mesh.Prelude.Text.{Text, codes, text_eq}
use convergio_mesh.Prelude.Text.Order.{text_eq_iff, text_eq_refl}
use convergio_mesh.Sync.Sqlite.{Value, text, Row, Key, by_int, by_text, Sqlite}
use convergio_mesh.Sync.Export.{normalise}
use convergio_mesh.Sync.Apply.Laws.{StoresRows, bound}
use convergio_mesh.Sync.Apply.Batch.{Executes}
use convergio_mesh.Sync.Round.Progress.{KeepsMeta}

pub record Memory : Type 0 where
  pub stamps : Text → Text → Option Text
  pub meta : Text → Text → Option Text
  pub rows : Text → List Row

-- A table of values by two texts, with one of them replaced.
abbrev pub update :
    (Text → Text → Option Text) → Text → Text → Option Text → Text → Text → Option Text
update f a b v a' b' = if text_eq a a' && text_eq b b' then v else f a' b'

abbrev pub select : Memory → Text → Key → Option (Option Text)
select c t (by_text i) = some (c.stamps t i)
select c t (by_int i) = none

abbrev pub store : Memory → Text → Option Text → Option Text → Option Memory
store c t none stamp = some c
store c t (some i) stamp = some (record c { stamps = update c.stamps t i stamp })

abbrev pub as_text : Value → Option Text
as_text (text s) = some (normalise s)
as_text _ = none

abbrev pub memory : Sqlite
memory = record {
  Conn = Memory;
  table_exists = λ c t. some true;
  table_info = λ c t. some (codes "id" ∷ codes "name" ∷ codes "updated_at" ∷ []);
  select_rows = λ c t. some (c.rows t);
  replace_t = as_text;
  select_updated_at = select;
  set_foreign_keys = λ c b. some c;
  insert_or_replace = λ c t cols vals.
      store c t (bound (codes "id") cols vals) (bound (codes "updated_at") cols vals);
  select_sync_meta = λ c p t. some (c.meta p t);
  upsert_sync_meta = λ c p t v. some (record c { meta = update c.meta p t (some v) });
  encode_base64 = λ b. b;
  to_string = λ j. codes "0";
}

update_self :
    (f : Text → Text → Option Text) (a b : Text) (v : Option Text) → update f a b v a b ≡ v
update_self f a b v = rw (text_eq_refl a, text_eq_refl b)

update_other :
    (f : Text → Text → Option Text) (a b : Text) (v : Option Text) (a' b' : Text)
    → ¬ ((a ≡ a') × (b ≡ b'))
    → update f a b v a' b' ≡ f a' b'
update_other f a b v a' b' other = ground (arith, text_eq_iff a a', text_eq_iff b b')

runs : (c : Memory) (t : Text) (o v : Option Text) → (c' : Memory) × (store c t o v ≡ some c')
runs c t none v = (c, refl)
runs c t (some i) v = (record c { stamps = update c.stamps t i v }, refl)

pub written :
    (c c' : Memory) (t : Text) (o : Option Text) (i stamp : Text) (k : Key) (v : Option Text)
    → store c t o v ≡ some c'
    → o ≡ some i
    → some (by_text i) ≡ some k
    → v ≡ some stamp
    → select c' t k ≡ some (some stamp)
written c c' t none i stamp k v e o n s = cc
written c c' t (some j) i stamp (by_int k) v e o n s = cc
written c c' t (some j) i stamp (by_text k) v e o n s =
    let jk : j ≡ k = cc in
    ap some (
      sym (ap (λ (m : Memory). m.stamps t k) (some-injective _ _ e))
      ∙ subst (λ k'. update c.stamps t j v t k' ≡ v) jk (update_self c.stamps t j v)
      ∙ s)

pub kept :
    (c c' : Memory) (t : Text) (o : Option Text) (v : Option Text) (i t' : Text) (k : Key)
    → store c t o v ≡ some c'
    → o ≡ some i
    → (t ≡ t' → some (by_text i) ≢ some k)
    → select c' t' k ≡ select c t' k
kept c c' t none v i t' k e o n = cc
kept c c' t (some j) v i t' (by_int k) e o n = refl
kept c c' t (some j) v i t' (by_text k) e o n = ap some (
    sym (ap (λ (m : Memory). m.stamps t' k) (some-injective _ _ e))
    ∙ update_other c.stamps t j v t' k (λ same. n same.0 (cc (o, same.1))))

unfoldable pub memory-StoresRows : StoresRows memory
memory-StoresRows = record {
  row_key = λ t i. some (by_text i);
  schema_kept = λ c c' t cols vals t' e. refl;
  row_written = λ c c' t cols vals i stamp k e o n s.
      written c c' t (bound (codes "id") cols vals) i stamp k _ e o n s;
  others_kept =
      λ c c' t cols vals i t' k e o n. kept c c' t (bound (codes "id") cols vals) _ i t' k e o n;
  toggle_kept =
      λ c c' b t e. (refl, λ k. ap (λ (m : Memory). select m t k) (sym (some-injective _ _ e)));
}

pub memory-Executes : Executes memory
memory-Executes = record {
  writes = λ c t cols vals. runs c t (bound (codes "id") cols vals) _;
  switches = λ c b. (c, refl);
}

meta-store :
    (c c' : Memory) (t : Text) (o v : Option Text) (p' t' : Text)
    → store c t o v ≡ some c'
    → c'.meta p' t' ≡ c.meta p' t'
meta-store c c' t none v p' t' e = ap (λ (m : Memory). m.meta p' t') (sym (some-injective _ _ e))
meta-store c c' t (some i) v p' t' e =
    ap (λ (m : Memory). m.meta p' t') (sym (some-injective _ _ e))

pub memory-KeepsMeta : KeepsMeta memory
memory-KeepsMeta = record {
  meta_written = λ c c' p t v e. ap some (
      sym (ap (λ (m : Memory). m.meta p t) (some-injective _ _ e))
      ∙ update_self c.meta p t (some v));
  meta_others = λ c c' p t v p' t' e other. ap some (
      sym (ap (λ (m : Memory). m.meta p' t') (some-injective _ _ e))
      ∙ update_other c.meta p t (some v) p' t' other);
  write_kept = λ c c' t cols vals p' t' listed e.
      ap some (meta-store c c' t (bound (codes "id") cols vals) _ p' t' e);
  toggle_kept =
      λ c c' b p' t' e. ap some (ap (λ (m : Memory). m.meta p' t') (sym (some-injective _ _ e)));
}
