-- ===== src/Capabilities/Listing.antt =====
-- crates/convergio-mesh/src/capability_registry.rs: list_all_capabilities.
pub mod Groups
use convergio_mesh.Prelude.{
  Bool, List, [], ◌∷◌, ◌++◌, Option, none, some, ◌||◌, ◌&&◌, or_else, map, if◌then◌else◌,
}
use convergio_mesh.Prelude.Text.{Text, text_eq, text_ltb}
use convergio_mesh.Prelude.Map.{Map, lookup, insert}
use convergio_mesh.Capabilities.Types.{
  NodeCapability, NodeCapabilities, Row, Codec, Cursor, unprepared, broken, rows,
}
use convergio_mesh.Capabilities.Table.{capability_of}

pub record Group : Type 0 where
  pub capabilities : List NodeCapability
  pub updated : Text

abbrev pub Groups : Type 0
Groups = List (Text × Group)

-- ORDER BY peer_name, capability_name.
unfoldable pub is_before : Row → Row → Bool
unfolding text_eq text_ltb
is_before a b =
    text_ltb a.peer_name b.peer_name
    || text_eq a.peer_name b.peer_name && text_ltb a.capability_name b.capability_name

unfoldable pub place_row : Row → List Row → List Row
unfolding is_before
place_row row [] = row ∷ []
place_row row (x ∷ xs) =
    let rest = place_row row xs in if is_before x row then x ∷ rest else row ∷ x ∷ xs

unfoldable pub order_by_key : List Row → List Row
unfolding place_row
order_by_key [] = []
order_by_key (row ∷ table) = place_row row (order_by_key table)

module _ (codec : Codec) where
  -- `entry(peer).or_insert((vec![], updated.clone()))`, and the two writes to it.
  unfoldable pub grown : Row → Option Group → Group
  unfolding capability_of
  grown row old =
      let entry = or_else old (record { capabilities = []; updated = row.updated_at }) in
      record {
        capabilities = entry.capabilities ++ capability_of codec row ∷ [];
        updated = if text_ltb entry.updated row.updated_at then row.updated_at else entry.updated;
      }

  unfoldable pub add_row : Row → Map Group → Map Group
  unfolding grown
  add_row row groups = insert row.peer_name (grown row (lookup row.peer_name groups)) groups

  unfoldable pub add_rows : List Row → Map Group → Map Group
  unfolding add_row
  add_rows [] groups = groups
  add_rows (row ∷ table) groups = add_rows table (add_row row groups)

unfoldable pub listed : Text × Group → NodeCapabilities
listed (peer, group) = record {
  peer_name = peer;
  capabilities = group.capabilities;
  last_updated = group.updated;
}

unfoldable pub list_all_capabilities :
    Codec → (Groups → Groups) → Cursor → Option (List NodeCapabilities)
unfolding add_rows listed order_by_key
list_all_capabilities codec into_iter unprepared = none
list_all_capabilities codec into_iter broken = none
list_all_capabilities codec into_iter (rows table) =
    some (map listed (into_iter (add_rows codec (order_by_key table) [])))
