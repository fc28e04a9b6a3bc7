-- ===== src/Capabilities/Table.antt =====
-- crates/convergio-mesh/src/capability_registry.rs: register_capabilities, get_peer_capabilities and
-- remove_peer_capabilities. The errors of the database and its clock are parameters; an error of
-- the database is `none`.
pub mod Keys
pub mod Readback
pub mod Failure
use convergio_mesh.Prelude.{
  ℕ, ◌+◌, Bool, true, false, List, [], ◌∷◌, Option, none, some, ◌&&◌, not, or_else, keep, map,
  if◌then◌else◌, ◌>>=◌,
}
use convergio_mesh.Prelude.Text.{Text, codes, text_eq}
use convergio_mesh.Sync.Json.{null}
use convergio_mesh.Capabilities.Types.{NodeCapability, Row, Codec, Cursor, unprepared, broken, rows}

unfoldable pub has_key : Text → Text → Row → Bool
unfolding text_eq
has_key peer name row = text_eq row.peer_name peer && text_eq row.capability_name name

-- DO UPDATE SET
unfoldable pub overwrite : Row → Row → Row
overwrite new row = record row {
  capability_version = new.capability_version;
  tags_json = new.tags_json;
  metadata_json = new.metadata_json;
  updated_at = new.updated_at;
}

-- INSERT ... ON CONFLICT(peer_name, capability_name): a new row gets the next id.
unfoldable pub upsert : Row → List Row → List Row
upsert new [] = new ∷ []
upsert new (row ∷ table) =
    let rest = upsert new table in
    if has_key new.peer_name new.capability_name row then overwrite new row ∷ table else row ∷ rest

module _ (codec : Codec) where
  unfoldable pub row_of : Text → Text → NodeCapability → Row
  row_of now peer_name cap = record {
    peer_name = peer_name;
    capability_name = cap.name;
    capability_version = cap.version;
    tags_json = or_else (codec.tags_to_string cap.tags) (codes "[]");
    metadata_json = or_else (codec.metadata_to_string cap.metadata) (codes "{}");
    updated_at = now;
  }

  -- `clock n` is the time of the statement number `n`, or `none` if it fails. The first failure
  -- ends the loop, and what was written before it stays.
  unfoldable pub register_from :
      (ℕ → Option Text) → ℕ → Text → List NodeCapability → List Row → List Row × Option (Unit {0})
  unfolding upsert row_of
  register_from clock n peer_name [] table = (table, some tt)
  register_from clock n peer_name (cap ∷ caps) table = elim (clock n) [
    | none ↦ (table, none)
    | some now ↦
        register_from clock (n + 1) peer_name caps (upsert (row_of now peer_name cap) table)
  ]

  unfoldable pub register_capabilities :
      (ℕ → Option Text) → Text → List NodeCapability → List Row → List Row × Option (Unit {0})
  unfolding register_from
  register_capabilities clock = register_from clock 0

  unfoldable pub capability_of : Row → NodeCapability
  capability_of row = record {
    name = row.capability_name;
    version = row.capability_version;
    tags = or_else (codec.tags_from_str row.tags_json) [];
    metadata = or_else (codec.metadata_from_str row.metadata_json) null;
  }

  -- The rows are those of the whole table; WHERE keeps those of the peer.
  unfoldable pub get_peer_capabilities : Cursor → Text → Option (List NodeCapability)
  unfolding capability_of text_eq
  get_peer_capabilities unprepared peer_name = none
  get_peer_capabilities broken peer_name = none
  get_peer_capabilities (rows table) peer_name =
      some (map capability_of (keep (λ row. text_eq row.peer_name peer_name) table))

unfoldable pub remove_peer_capabilities : Bool → Text → List Row → List Row × Option (Unit {0})
unfolding text_eq
remove_peer_capabilities fails peer_name table =
    if fails
    then (table, none)
    else (keep (λ row. not (text_eq row.peer_name peer_name)) table, some tt)
