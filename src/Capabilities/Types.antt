-- ===== src/Capabilities/Types.antt =====
-- crates/convergio-mesh/src/capability_types.rs: the data of the capability registry, the rows of
-- the table node_capabilities, and the JSON texts in its columns.
use convergio_mesh.Prelude.{ℕ, ◌*◌, ◌≡◌, Bool, List, Option, some, ltb, ◌>>=◌}
use convergio_mesh.Prelude.Text.{Text}
use convergio_mesh.Sync.Json.{Json}
use convergio_mesh.Node.Capability.{CapabilityTag}

pub record NodeCapability : Type 0 where
  pub name : Text
  pub version : Text
  pub tags : List Text
  pub metadata : Json

pub record NodeCapabilities : Type 0 where
  pub peer_name : Text
  pub capabilities : List NodeCapability
  pub last_updated : Text

pub record CapabilityQuery : Type 0 where
  pub required_tags : List CapabilityTag
  pub min_version : Option Text

-- A score is an f64 that a count divided by a count gives; it is kept as the fraction, so the
-- rounding of counts past 2 ^ 53 is left out.
pub record Score : Type 0 where
  pub over : ℕ
  pub under : ℕ

pub record CapabilityMatch : Type 0 where
  pub peer_name : Text
  pub score : Score
  pub matched_capabilities : List Text

-- `a < b` of scores.
unfoldable pub below : Score → Score → Bool
below a b = ltb (a.over * b.under) (b.over * a.under)

-- A table is the list of its rows in the order of their ids.
pub record Row : Type 0 where
  pub peer_name : Text
  pub capability_name : Text
  pub capability_version : Text
  pub tags_json : Text
  pub metadata_json : Text
  pub updated_at : Text

-- serde_json, for the two columns that hold JSON: `to_string` and `from_str`.
pub record Codec : Type 0 where
  pub tags_to_string : List Text → Option Text
  pub tags_from_str : Text → Option (List Text)
  pub metadata_to_string : Json → Option Text
  pub metadata_from_str : Text → Option Json

-- The tags and the metadata of a capability are read back as they are printed.
pub record IsFaithful (c : Codec) (capability : NodeCapability) : Type 0 where
  pub tags : (c.tags_to_string capability.tags >>= c.tags_from_str) ≡ some capability.tags
  pub metadata :
      (c.metadata_to_string capability.metadata >>= c.metadata_from_str) ≡ some capability.metadata

-- What a SELECT gives: an error of the statement, an error at some row, or the rows.
pub data Cursor : Type 0 where
  unprepared broken : Cursor
  rows : List Row → Cursor
