-- ===== src/Capabilities/Handlers.antt =====
-- crates/convergio-mesh/src/capability_routes.rs: the five handlers.
use convergio_mesh.Prelude.{ℕ, Bool, List, Option, none, some, length}
use convergio_mesh.Prelude.Text.{Text}
use convergio_mesh.Capabilities.Types.{
  NodeCapability, NodeCapabilities, CapabilityQuery, CapabilityMatch, Row, Codec, Cursor,
}
use convergio_mesh.Capabilities.Table.{
  register_capabilities, get_peer_capabilities, remove_peer_capabilities,
}
use convergio_mesh.Capabilities.Query.{Entries, query_capable_peers}
use convergio_mesh.Capabilities.Listing.{Groups, list_all_capabilities}

pub data Reply {ℓ} (A : Type ℓ) : Type ℓ where
  no_connection failed : Reply A
  answer : A → Reply A

unfoldable pub replied {ℓ} : {A : Type ℓ} → Option A → Reply A
replied none = failed
replied (some a) = answer a

-- What the pool gives: the table, or `none` for no connection. The reply of a registration has the
-- number of capabilities.
unfoldable pub registered : ℕ → List Row × Option (Unit {0}) → Option (List Row) × Reply ℕ
registered n (table, none) = (some table, failed)
registered n (table, some _) = (some table, answer n)

unfoldable pub handle_register :
    Codec
    → (ℕ → Option Text)
    → Text
    → List NodeCapability
    → Option (List Row)
    → Option (List Row) × Reply ℕ
unfolding register_capabilities registered
handle_register codec clock peer_name caps none = (none, no_connection)
handle_register codec clock peer_name caps (some table) =
    registered (length caps) (register_capabilities codec clock peer_name caps table)

unfoldable pub removed : List Row × Option (Unit {0}) → Option (List Row) × Reply (Unit {0})
unfolding replied
removed (table, result) = (some table, replied result)

unfoldable pub handle_delete_peer :
    Bool → Text → Option (List Row) → Option (List Row) × Reply (Unit {0})
unfolding remove_peer_capabilities removed
handle_delete_peer fails peer_name none = (none, no_connection)
handle_delete_peer fails peer_name (some table) =
    removed (remove_peer_capabilities fails peer_name table)

-- The reading handlers get from the pool the cursor that their statement opens.
unfoldable pub handle_list_all :
    Codec → (Groups → Groups) → Option Cursor → Reply (List NodeCapabilities)
unfolding list_all_capabilities replied
handle_list_all codec into_iter none = no_connection
handle_list_all codec into_iter (some cursor) =
    replied (list_all_capabilities codec into_iter cursor)

unfoldable pub handle_get_peer : Codec → Text → Option Cursor → Reply (List NodeCapability)
unfolding get_peer_capabilities replied
handle_get_peer codec peer_name none = no_connection
handle_get_peer codec peer_name (some cursor) =
    replied (get_peer_capabilities codec cursor peer_name)

unfoldable pub handle_query :
    Codec → (Entries → Entries) → CapabilityQuery → Option Cursor → Reply (List CapabilityMatch)
unfolding query_capable_peers replied
handle_query codec into_iter query none = no_connection
handle_query codec into_iter query (some cursor) =
    replied (query_capable_peers codec into_iter query cursor)
