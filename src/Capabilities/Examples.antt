-- ===== src/Capabilities/Examples.antt =====
-- The capability registry at concrete inputs: two nodes, of which one is registered twice.
use convergio_mesh.Prelude.{
  ℕ, zero, suc, ◌<◌, ◌≡◌, refl, true, false, List, [], ◌∷◌, Option, none, some, arith, any, All,
  is_some, if◌then◌else◌,
}
use convergio_mesh.Prelude.Text.{Text, codes, text_eq}
use convergio_mesh.Prelude.Map.{insert, lookup}
use convergio_mesh.Prelude.Reorder.{Reordered-refl}
use convergio_mesh.Sync.Json.{null}
use convergio_mesh.Node.Capability.{gpu, inference, to_string}
use convergio_mesh.Capabilities.Types.{
  below, NodeCapability, NodeCapabilities, CapabilityQuery, CapabilityMatch, Row, Codec, IsFaithful,
  rows,
}
use convergio_mesh.Capabilities.Table.{row_of, register_capabilities, remove_peer_capabilities}
use convergio_mesh.Capabilities.Table.Keys.{IsKeyed, here, next, register, remove, Reach-IsKeyed}
use convergio_mesh.Capabilities.Table.Readback.{capability_at, register-get}
use convergio_mesh.Capabilities.Table.Failure.{handle_register-fails}
use convergio_mesh.Capabilities.Handlers.{handle_register, failed}
use convergio_mesh.Capabilities.Query.{query_capable_peers}
use convergio_mesh.Capabilities.Query.Ranking.{IsRanked, IsExact, Listed, query-Ranked}
use convergio_mesh.Capabilities.Listing.{list_all_capabilities}
use convergio_mesh.Capabilities.Listing.Groups.{Agrees, list_all-get_peer}

-- A codec for the two lists of tags of the example, and for null.
abbrev gpu_inference : List Text
gpu_inference = codes "gpu" ∷ codes "inference" ∷ []

abbrev print_tags : List Text → Option Text
print_tags [] = some (codes "[]")
print_tags (x ∷ xs) = some (codes "both")

abbrev codec : Codec
codec = record {
  tags_to_string = print_tags;
  tags_from_str = λ t. if text_eq t (codes "both") then some gpu_inference else some [];
  metadata_to_string = λ j. some (codes "null");
  metadata_from_str = λ t. some null;
}

abbrev llm : NodeCapability
llm = record { name = codes "llm"; version = codes "2.0"; tags = gpu_inference; metadata = null }

abbrev idle : NodeCapability
idle = record { name = codes "idle"; version = codes "1.0"; tags = []; metadata = null }

abbrev old_llm : NodeCapability
old_llm = record { name = codes "llm"; version = codes "1.0"; tags = []; metadata = null }

abbrev clock : ℕ → Option Text
clock n = some (n ∷ [])

-- The second statement fails.
abbrev breaks : ℕ → Option Text
breaks zero = some (7 ∷ [])
breaks (suc n) = none

abbrev m4 : Text
m4 = codes "m4"

abbrev a100 : Text
a100 = codes "a100"

abbrev table : List Row
table =
    row_of codec (codes "1") m4 llm
    ∷ row_of codec (codes "3") m4 idle
    ∷ row_of codec (codes "2") a100 llm
    ∷ []

Reach-IsKeyed_example :
    IsKeyed
      (remove_peer_capabilities false m4
        (register_capabilities codec breaks m4
          (llm ∷ idle ∷ [])
          (register_capabilities codec clock a100 (old_llm ∷ llm ∷ []) []).0).0).0
Reach-IsKeyed_example = Reach-IsKeyed codec (
    next
      (next (next here (register clock a100 (old_llm ∷ llm ∷ [])))
        (register breaks m4 (llm ∷ idle ∷ [])))
      (remove false m4))

is_faithful : IsFaithful codec llm
unfolding text_eq
is_faithful = record { tags = refl; metadata = refl }

register-get_example :
    capability_at codec m4 (codes "llm") (register_capabilities codec clock m4 (llm ∷ []) table).0
    ≡ some llm
unfolding register_capabilities text_eq
register-get_example =
    register-get codec clock m4 m4 (codes "llm") (llm ∷ []) table (is_faithful, tt) refl

only_first : (i : ℕ) → i < 1 → is_some (breaks i) ≡ true
only_first zero h = refl
only_first (suc i) h = absurd (omega arith)

handle_register-fails_example :
    (handle_register codec breaks m4 (llm ∷ idle ∷ []) (some [])
      ≡ (some (register_capabilities codec breaks m4 (llm ∷ []) []).0, failed))
    × ((register_capabilities codec breaks m4 (llm ∷ []) []).1 ≡ some tt)
handle_register-fails_example =
    handle_register-fails codec breaks m4 1 (llm ∷ idle ∷ []) [] (omega arith) only_first refl

query : CapabilityQuery
query = record { required_tags = gpu ∷ inference ∷ []; min_version = some (codes "1.5") }

-- A map that gives its entries in the order of the keys.
abbrev in_order {ℓ} : {A : Type ℓ} → List A → List A
in_order xs = xs

query-Ranked_example :
    (ms : List CapabilityMatch) × (query_capable_peers codec in_order query (rows table) ≡ some ms)
    × IsRanked ms
    × All (IsExact codec in_order gpu_inference query.min_version table) ms
    × Listed codec in_order gpu_inference query.min_version table ms
unfolding query to_string
query-Ranked_example = query-Ranked codec in_order Reordered-refl query table refl

list_all-get_peer_example :
    (ns : List NodeCapabilities) × (list_all_capabilities codec in_order (rows table) ≡ some ns)
    × All (Agrees codec table) ns
    × ((peer : Text)
        → any (λ (n : NodeCapabilities). text_eq n.peer_name peer) ns
          ≡ any (λ (row : Row). text_eq row.peer_name peer) table)
list_all-get_peer_example = list_all-get_peer codec in_order Reordered-refl table

-- Both nodes have all tags; the row without a tag is not counted.
query_result :
    query_capable_peers codec in_order query (rows table)
    ≡ some (
        (record {
          peer_name = a100;
          score = record { over = 2; under = 2 };
          matched_capabilities = codes "llm" ∷ [];
        })
        ∷ (record {
          peer_name = m4;
          score = record { over = 2; under = 2 };
          matched_capabilities = codes "llm" ∷ [];
        })
        ∷ [])
unfolding query_capable_peers query row_of insert below lookup
query_result = refl
