-- ===== src/Capabilities/Query.antt =====
-- crates/convergio-mesh/src/capability_registry.rs: query_capable_peers. The order in which a
-- HashMap gives its entries is a parameter.
pub mod Tally
pub mod Ranking
use convergio_mesh.Prelude.{
  ℕ, ◌+◌, Bool, true, false, List, [], ◌∷◌, ◌++◌, Option, none, some, not, or_else, keep, map,
  length, is_empty, if◌then◌else◌,
}
use convergio_mesh.Prelude.Text.{Text, elem, text_ltb}
use convergio_mesh.Prelude.Map.{Map, lookup, insert}
use convergio_mesh.Node.Capability.{to_string}
use convergio_mesh.Capabilities.Types.{
  CapabilityQuery, CapabilityMatch, Score, Row, Codec, Cursor, unprepared, broken, rows, below,
}

-- The value of a peer in the map: the count of the tags, and the capabilities with one.
pub record Entry : Type 0 where
  pub score : ℕ
  pub matched : List Text

abbrev pub Entries : Type 0
Entries = List (Text × Entry)

unfoldable pub accepts_version : Option Text → Text → Bool
unfolding text_ltb
accepts_version none version = true
accepts_version (some min_ver) version = not (text_ltb version min_ver)

-- `entry(peer).or_insert((0.0, vec![]))`, and the two writes to it.
unfoldable pub raised : Row → List Text → Option Entry → Entry
raised row matched_tags old =
    let entry = or_else old (record { score = 0; matched = [] }) in
    record {
      score = entry.score + length matched_tags;
      matched = entry.matched ++ row.capability_name ∷ [];
    }

unfoldable pub add_match : Row → List Text → Map Entry → Map Entry
unfolding raised
add_match row matched_tags peer_matches =
    insert row.peer_name (raised row matched_tags (lookup row.peer_name peer_matches)) peer_matches

module _ (codec : Codec) (required : List Text) (min_version : Option Text) where
  unfoldable pub matched_tags : Row → List Text
  unfolding elem
  matched_tags row =
      let tags = or_else (codec.tags_from_str row.tags_json) [] in
      keep (λ rt. elem rt tags) required

  unfoldable pub match_row : Row → Map Entry → Map Entry
  unfolding accepts_version matched_tags add_match
  match_row row peer_matches =
      if not (accepts_version min_version row.capability_version)
      then peer_matches
      else if is_empty (matched_tags row)
      then peer_matches
      else add_match row (matched_tags row) peer_matches

  unfoldable pub match_rows : List Row → Map Entry → Map Entry
  unfolding match_row
  match_rows [] peer_matches = peer_matches
  match_rows (row ∷ table) peer_matches = match_rows table (match_row row peer_matches)

-- `sort_by` is stable; a score is before every lower one.
unfoldable pub place : CapabilityMatch → List CapabilityMatch → List CapabilityMatch
place m [] = m ∷ []
place m (x ∷ xs) = let rest = place m xs in if below m.score x.score then x ∷ rest else m ∷ x ∷ xs

unfoldable pub sort_by_score : List CapabilityMatch → List CapabilityMatch
unfolding place
sort_by_score [] = []
sort_by_score (m ∷ ms) = place m (sort_by_score ms)

unfoldable pub match_of : ℕ → Text × Entry → CapabilityMatch
match_of total_required (peer, entry) = record {
  peer_name = peer;
  score = record { over = entry.score; under = total_required };
  matched_capabilities = entry.matched;
}

module _ (codec : Codec) (into_iter : Entries → Entries) where
  unfoldable pub ranked : List Text → Option Text → List Row → List CapabilityMatch
  unfolding match_rows match_of sort_by_score
  ranked required min_version table = sort_by_score (
      map (match_of (length required)) (into_iter (match_rows codec required min_version table [])))

  -- No row is read where no tag is required.
  unfoldable pub query_required : List Text → Option Text → Cursor → Option (List CapabilityMatch)
  unfolding ranked
  query_required required min_version unprepared = none
  query_required [] min_version _ = some []
  query_required (t ∷ ts) min_version broken = none
  query_required (t ∷ ts) min_version (rows table) = some (ranked (t ∷ ts) min_version table)

  unfoldable pub query_capable_peers : CapabilityQuery → Cursor → Option (List CapabilityMatch)
  unfolding query_required to_string
  query_capable_peers query = query_required (map to_string query.required_tags) query.min_version
