-- ===== src/Capabilities/Listing/Groups.antt =====
-- What list_all_capabilities answers against what get_peer_capabilities gives for each peer.
use convergio_mesh.Prelude.{
  ◌≡◌, ◌∙◌, refl, ap, sym, subst, Bool, true, List, [], ◌∷◌, ◌++◌, Option, none, some, map, keep,
  any, All, is_some, if◌then◌else◌, arith, ◌||◌, if_cases, append_assoc, append-nil, Bool-cases,
  inl, inr,
}
use convergio_mesh.Prelude.Text.{Text, text_eq, ◌≼◌}
use convergio_mesh.Prelude.Text.Order.{text_eq_iff, text_eq_refl, ≼_refl, larger_lub}
use convergio_mesh.Prelude.Map.{Map, lookup}
use convergio_mesh.Prelude.Map.Laws.{lookup-insert, IsSorted, insert-IsSorted}
use convergio_mesh.Prelude.Map.Entries.{All-lookup, any-lookup}
use convergio_mesh.Prelude.Reorder.{
  Reordered, Reordered-refl, Reordered-any, Reordered-All, Reordered-keep, Reordered-map,
  Reordered-sym, nil, cons, swap, trans,
}
use convergio_mesh.Capabilities.Types.{NodeCapability, NodeCapabilities, Row, Codec, rows}
use convergio_mesh.Capabilities.Table.{capability_of, get_peer_capabilities}
use convergio_mesh.Capabilities.Listing.{
  Group, Groups, is_before, place_row, order_by_key, grown, add_row, add_rows, listed,
  list_all_capabilities,
}

abbrev pub of_peer : Text → List Row → List Row
of_peer peer = keep (λ (row : Row). text_eq row.peer_name peer)

-- Sorting keeps the rows.
Reordered-place : (row : Row) (table : List Row) → Reordered (row ∷ table) (place_row row table)
unfolding place_row
Reordered-place row [] = Reordered-refl (row ∷ [])
Reordered-place row (x ∷ xs) =
    if_cases (Reordered (row ∷ x ∷ xs)) (is_before x row)
      (λ _. trans (swap row x xs) (cons x (Reordered-place row xs)))
      (λ _. Reordered-refl (row ∷ x ∷ xs))

Reordered-order : (table : List Row) → Reordered table (order_by_key table)
unfolding order_by_key
Reordered-order [] = nil
Reordered-order (row ∷ table) =
    trans (cons row (Reordered-order table)) (Reordered-place row (order_by_key table))

module _ (codec : Codec) where
  -- The group of a peer, from its rows alone.
  gather : Option Group → List Row → Option Group
  gather o [] = o
  gather o (row ∷ table) = gather (some (grown codec row o)) table

  lookup-add_row :
      (peer : Text) (row : Row) (m : Map Group)
      → lookup peer (add_row codec row m) ≡ (
          if text_eq row.peer_name peer
          then some (grown codec row (lookup row.peer_name m))
          else lookup peer m)
  unfolding add_row
  lookup-add_row peer row m =
      lookup-insert row.peer_name peer (grown codec row (lookup row.peer_name m)) m

  lookup-add_rows :
      (peer : Text) (table : List Row) (m : Map Group)
      → lookup peer (add_rows codec table m) ≡ gather (lookup peer m) (of_peer peer table)
  unfolding gather add_rows
  lookup-add_rows peer [] m = refl
  lookup-add_rows peer (row ∷ table) m = ground (
    arith,
    lookup-add_rows peer table (add_row codec row m),
    lookup-add_row peer row m,
    text_eq_iff row.peer_name peer,
  )

  -- A group holds the capabilities of its rows, and the latest of their times.
  abbrev Holds : Group → List Row → Group → Type 0
  Holds g table h =
      (h.capabilities ≡ g.capabilities ++ map (capability_of codec) table)
      × (g.updated ≼ h.updated)
      × All (λ (row : Row). row.updated_at ≼ h.updated) table
      × ((text_eq g.updated h.updated
            || any (λ (row : Row). text_eq row.updated_at h.updated) table)
          ≡ true)

  Holds-grown :
      (g h : Group) (row : Row) (table : List Row)
      → Holds (grown codec row (some g)) table h
      → Holds g (row ∷ table) h
  unfolding grown
  Holds-grown g h row table s =
      let bounds = (larger_lub g.updated row.updated_at (some h.updated)).0 s.1 in
      (
        s.0
            ∙ append_assoc g.capabilities (capability_of codec row ∷ [])
                (map (capability_of codec) table),
        bounds.0,
        (bounds.1, s.2),
        ground (arith, s.3),
      )

  gather-some :
      (g : Group) (table : List Row)
      → (h : Group) × (gather (some g) table ≡ some h) × Holds g table h
  unfolding gather
  gather-some g [] = (
    g,
    refl,
    (sym (append-nil g.capabilities), ≼_refl g.updated, tt, ground (arith, text_eq_refl g.updated)),
  )
  gather-some g (row ∷ table) =
      let s = gather-some (grown codec row (some g)) table in
      (s.0, s.1, Holds-grown g s.0 row table s.2)

  add_rows-IsSorted :
      (table : List Row) (m : Map Group) → IsSorted m → IsSorted (add_rows codec table m)
  unfolding add_rows add_row
  add_rows-IsSorted [] m s = s
  add_rows-IsSorted (row ∷ table) m s =
      add_rows-IsSorted table _
        (insert-IsSorted row.peer_name (grown codec row (lookup row.peer_name m)) m s)

  abbrev IsGroup : List Row → Group → Type 0
  IsGroup table g =
      (g.capabilities ≡ map (capability_of codec) table)
      × All (λ (row : Row). row.updated_at ≼ g.updated) table
      × (any (λ (row : Row). text_eq row.updated_at g.updated) table ≡ true)

  Holds-first :
      (h : Group) (row : Row) (table : List Row)
      → Holds (grown codec row none) table h
      → IsGroup (row ∷ table) h
  unfolding grown
  Holds-first h row table s = (s.0, (ground (arith, s.1), s.2), ground (arith, s.3))

  gather-none : (g : Group) (table : List Row) → gather none table ≡ some g → IsGroup table g
  unfolding gather
  gather-none g [] e = cc
  gather-none g (row ∷ table) e =
      let s = gather-some (grown codec row none) table in
      let same : s.0 ≡ g = ground (arith, s.1) in
      subst (IsGroup (row ∷ table)) same (Holds-first s.0 row table s.2)

  is_some-gather :
      (p : Row → Bool) (table : List Row) → is_some (gather none (keep p table)) ≡ any p table
  unfolding gather
  is_some-gather p [] = refl
  is_some-gather p (row ∷ table) = elim (Bool-cases (p row)) [
    | inl e ↦ rw (e, (gather-some (grown codec row none) (keep p table)).1) refl
    | inr e ↦ rw e (is_some-gather p table)
  ]

  -- What is said of one peer of the answer.
  abbrev pub Agrees : List Row → NodeCapabilities → Type 0
  Agrees table n =
      (caps : List NodeCapability) × (get_peer_capabilities codec (rows table) n.peer_name
        ≡ some caps)
      × Reordered caps n.capabilities
      × All (λ (row : Row). row.updated_at ≼ n.last_updated) (of_peer n.peer_name table)
      × (any (λ (row : Row). text_eq row.updated_at n.last_updated) (of_peer n.peer_name table)
          ≡ true)

  group-Agrees :
      (table : List Row) (peer : Text) (g : Group)
      → lookup peer (add_rows codec (order_by_key table) []) ≡ some g
      → Agrees table (listed (peer, g))
  unfolding get_peer_capabilities listed lookup
  group-Agrees table peer g e =
      let same =
        Reordered-keep (λ (row : Row). text_eq row.peer_name peer) (Reordered-order table) in
      let s =
        gather-none g (of_peer peer (order_by_key table))
          (sym (lookup-add_rows peer (order_by_key table) []) ∙ e) in
      (
        map (capability_of codec) (of_peer peer table),
        refl,
        rw s.0 (Reordered-map (capability_of codec) same),
        Reordered-All _ (Reordered-sym same) s.1,
        sym (Reordered-any _ same) ∙ s.2,
      )

  groups_agree :
      (table : List Row) (es : Groups)
      → All
          (λ (e : Text × Group). lookup e.0 (add_rows codec (order_by_key table) []) ≡ some e.1)
          es
      → All (Agrees table) (map listed es)
  groups_agree table [] a = tt
  groups_agree table ((peer, g) ∷ es) a = (group-Agrees table peer g a.0, groups_agree table es a.1)

  any-listed :
      (peer : Text) (es : Groups)
      → any (λ (n : NodeCapabilities). text_eq n.peer_name peer) (map listed es)
        ≡ any (λ (e : Text × Group). text_eq e.0 peer) es
  unfolding listed
  any-listed peer [] = refl
  any-listed peer ((who, g) ∷ es) = ap (λ b. text_eq who peer || b) (any-listed peer es)

  listed_peers :
      (peer : Text) (table : List Row)
      → is_some (lookup peer (add_rows codec (order_by_key table) []))
        ≡ any (λ (row : Row). text_eq row.peer_name peer) table
  unfolding lookup
  listed_peers peer table =
      ap is_some (lookup-add_rows peer (order_by_key table) [])
      ∙ is_some-gather _ (order_by_key table)
      ∙ Reordered-any _ (Reordered-order table)

  -- The listing of rows that can be read names exactly the peers that have a row. For each it has the
  -- capabilities that get_peer_capabilities gives for that peer, up to their order, and the latest
  -- time of its rows. The entries of the HashMap may come in any order.
  pub list_all-get_peer :
      (into_iter : Groups → Groups)
      → ((es : Groups) → Reordered es (into_iter es))
      → (table : List Row)
      → (ns : List NodeCapabilities) × (list_all_capabilities codec into_iter (rows table)
          ≡ some ns)
        × All (Agrees table) ns
        × ((peer : Text)
            → any (λ (n : NodeCapabilities). text_eq n.peer_name peer) ns
              ≡ any (λ (row : Row). text_eq row.peer_name peer) table)
  unfolding list_all_capabilities
  list_all-get_peer into_iter r table =
      let m : Map Group = add_rows codec (order_by_key table) [] in
      (
        map listed (into_iter m),
        refl,
        groups_agree table (into_iter m)
            (Reordered-All _ (r m) (All-lookup m (add_rows-IsSorted (order_by_key table) [] tt))),
        λ peer.
            any-listed peer (into_iter m)
            ∙ Reordered-any _ (r m)
            ∙ any-lookup peer m
            ∙ listed_peers peer table,
      )
