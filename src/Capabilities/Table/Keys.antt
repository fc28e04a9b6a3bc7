-- ===== src/Capabilities/Table/Keys.antt =====
-- The rows of node_capabilities by their keys: what an upsert changes, and that no key stands twice.
use convergio_mesh.Prelude.{
  ℕ, ◌+◌, ◌≡◌, ◌↔◌, refl, Bool, true, false, List, [], ◌∷◌, Option, none, some, not, any, keep,
  if◌then◌else◌, arith, Option-cases, inl, inr,
}
use convergio_mesh.Prelude.Text.{Text, text_eq}
use convergio_mesh.Prelude.Text.Order.{text_eq_iff}
use convergio_mesh.Capabilities.Types.{NodeCapability, Row, Codec}
use convergio_mesh.Capabilities.Table.{
  has_key, overwrite, upsert, row_of, register_from, register_capabilities,
  remove_peer_capabilities,
}

unfoldable pub row_at : Text → Text → List Row → Option Row
row_at peer name [] = none
row_at peer name (row ∷ table) = if has_key peer name row then some row else row_at peer name table

pub has_key_iff :
    (peer name : Text) (row : Row)
    → (has_key peer name row ≡ true) ↔ ((row.peer_name ≡ peer) × (row.capability_name ≡ name))
unfolding has_key
has_key_iff peer name row =
    ground (arith, text_eq_iff row.peer_name peer, text_eq_iff row.capability_name name)

overwrite_lem :
    (new row : Row) → has_key new.peer_name new.capability_name row ≡ true → overwrite new row ≡ new
unfolding overwrite
overwrite_lem new row h = ground (arith, has_key_iff new.peer_name new.capability_name row)

has_key_same :
    (peer name : Text) (new row : Row)
    → has_key new.peer_name new.capability_name row ≡ true
    → has_key peer name row ≡ has_key peer name new
unfolding has_key
has_key_same peer name new row h = ground (
  arith,
  text_eq_iff row.peer_name new.peer_name,
  text_eq_iff row.capability_name new.capability_name,
)

has_key_both :
    (peer name : Text) (new row : Row)
    → has_key peer name row ≡ true
    → has_key peer name new ≡ true
    → has_key new.peer_name new.capability_name row ≡ true
has_key_both peer name new row h k = ground (
  arith,
  has_key_iff peer name row,
  has_key_iff peer name new,
  has_key_iff new.peer_name new.capability_name row,
)

pub row_at-upsert :
    (peer name : Text) (new : Row) (table : List Row)
    → row_at peer name (upsert new table)
      ≡ (if has_key peer name new then some new else row_at peer name table)
unfolding row_at upsert
row_at-upsert peer name new [] = refl
row_at-upsert peer name new (row ∷ table) = ground (
  arith,
  overwrite_lem new row,
  has_key_same peer name new row,
  has_key_both peer name new row,
  row_at-upsert peer name new table,
)

-- No two rows have one key.
abbrev pub IsKeyed : List Row → Type 0
IsKeyed [] = Unit
IsKeyed (row ∷ table) =
    (any (has_key row.peer_name row.capability_name) table ≡ false) × IsKeyed table

any-upsert :
    (peer name : Text) (new : Row) (table : List Row)
    → any (has_key peer name) table ≡ false
    → has_key peer name new ≡ false
    → any (has_key peer name) (upsert new table) ≡ false
unfolding upsert
any-upsert peer name new [] h k = ground arith
any-upsert peer name new (row ∷ table) h k =
    ground (arith, overwrite_lem new row, any-upsert peer name new table)

upsert-IsKeyed : (new : Row) (table : List Row) → IsKeyed table → IsKeyed (upsert new table)
unfolding upsert
upsert-IsKeyed new [] h = (refl, tt)
upsert-IsKeyed new (row ∷ table) h = ground (
  arith,
  overwrite_lem new row,
  has_key_iff new.peer_name new.capability_name row,
  has_key_iff row.peer_name row.capability_name new,
  any-upsert row.peer_name row.capability_name new table,
  upsert-IsKeyed new table,
)

pub register_from_done :
    (codec : Codec) (clock : ℕ → Option Text) (n : ℕ) (peer : Text) (table : List Row)
    → register_from codec clock n peer [] table ≡ (table, some tt)
unfolding register_from
register_from_done codec clock n peer table = refl

module _ (codec : Codec) (clock : ℕ → Option Text) (n : ℕ) (peer : Text) (c : NodeCapability)
    (caps : List NodeCapability) (table : List Row) where
  pub register_from_fails :
      clock n ≡ none → register_from codec clock n peer (c ∷ caps) table ≡ (table, none)
  unfolding register_from
  register_from_fails e = rw (register_from, e)

  pub register_from_goes :
      (now : Text)
      → clock n ≡ some now
      → register_from codec clock n peer (c ∷ caps) table
        ≡ register_from codec clock (n + 1) peer caps (upsert (row_of codec now peer c) table)
  unfolding register_from
  register_from_goes now e = rw (register_from, e)

register_from-IsKeyed :
    (codec : Codec) (clock : ℕ → Option Text) (n : ℕ) (peer : Text) (caps : List NodeCapability)
    (table : List Row)
    → IsKeyed table
    → IsKeyed (register_from codec clock n peer caps table).0
register_from-IsKeyed codec clock n peer [] table h =
    rw (register_from_done codec clock n peer table) h
register_from-IsKeyed codec clock n peer (c ∷ caps) table h = elim (Option-cases (clock n)) [
  | inl e ↦ rw (register_from_fails codec clock n peer c caps table e) h
  | inr (now, e) ↦ rw (register_from_goes codec clock n peer c caps table now e) (
      register_from-IsKeyed codec clock (n + 1) peer caps _
        (upsert-IsKeyed (row_of codec now peer c) table h))
]

any-keep :
    (p q : Row → Bool) (table : List Row) → any q table ≡ false → any q (keep p table) ≡ false
any-keep p q [] h = h
any-keep p q (row ∷ table) h = ground (arith, any-keep p q table)

keep-IsKeyed : (p : Row → Bool) (table : List Row) → IsKeyed table → IsKeyed (keep p table)
keep-IsKeyed p [] h = h
keep-IsKeyed p (row ∷ table) h =
    ground
      (arith, keep-IsKeyed p table, any-keep p (has_key row.peer_name row.capability_name) table)

-- What the two operations that write make of the table, whether or not their statements succeed.
pub data Step (codec : Codec) (table : List Row) : List Row → Type 0 where
  register :
      (clock : ℕ → Option Text) (peer : Text) (caps : List NodeCapability)
      → Step codec table (register_capabilities codec clock peer caps table).0
  remove :
      (fails : Bool) (peer : Text) → Step codec table (remove_peer_capabilities fails peer table).0

pub data Reach (codec : Codec) : List Row → Type 0 where
  here : Reach codec []
  next : {s t : List Row} → Reach codec s → Step codec s t → Reach codec t

Step-IsKeyed : (codec : Codec) {s t : List Row} → Step codec s t → IsKeyed s → IsKeyed t
unfolding register_capabilities remove_peer_capabilities
Step-IsKeyed codec {s} (register clock peer caps) h =
    register_from-IsKeyed codec clock 0 peer caps s h
Step-IsKeyed codec {s} (remove true peer) h = h
Step-IsKeyed codec {s} (remove false peer) h =
    keep-IsKeyed (λ row. not (text_eq row.peer_name peer)) s h

-- After any sequence of registrations and removals, failing ones included, from the empty table, no
-- two rows have the same peer and the same capability.
pub Reach-IsKeyed : (codec : Codec) {t : List Row} → Reach codec t → IsKeyed t
Reach-IsKeyed codec here = tt
Reach-IsKeyed codec (next r step) = Step-IsKeyed codec step (Reach-IsKeyed codec r)
