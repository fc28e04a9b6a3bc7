-- ===== src/Peers/Parser/Section.antt =====
-- flush_section, on every way in which it returns.
use convergio_mesh.Prelude.{◌≡◌, refl, subst, false, Option, none, some}
use convergio_mesh.Prelude.Text.{Text, codes, text_eq}
use convergio_mesh.Prelude.Map.{Map, lookup}
use convergio_mesh.Prelude.Map.Laws.{IsSorted}
use convergio_mesh.Peers.Config.{Outcome, ok, err, panics, PeerConfig}
use convergio_mesh.Peers.Name.{canonical_peer_name}
use convergio_mesh.Peers.Parser.{
  build_peer, keep_raw, merge_peer, flush_config, flush_peer, flush_section,
}
use convergio_mesh.Peers.Parser.Merge.{
  Merged, keep_raw-adds, merge_peer-Merged, merge_peer-IsSorted,
}

-- The parts of a section that was stored.
abbrev pub Stored : Text → Map Text → Text → Map PeerConfig → Text × Map PeerConfig → Type 0
Stored name kv secret peers r =
    (canon : Text) × (canonical_peer_name name ≡ some canon)
    × ((cfg : PeerConfig) × (build_peer name kv ≡ ok cfg))
    × (r.0 ≡ secret)
    × (IsSorted peers → IsSorted r.1)
    × Merged name canon peers r.1

flush_config-Stored :
    (name canon : Text) (kv : Map Text) (secret : Text) (peers : Map PeerConfig)
    (o : Outcome PeerConfig) (r : Text × Map PeerConfig)
    → canonical_peer_name name ≡ some canon
    → build_peer name kv ≡ o
    → flush_config name canon secret peers o ≡ ok r
    → Stored name kv secret peers r
unfolding flush_config
flush_config-Stored name canon kv secret peers (ok cfg) r c b h =
    let left : Text × Map PeerConfig =
      (secret, merge_peer name canon (keep_raw name canon cfg) peers (lookup canon peers)) in
    let same : left ≡ r = cc in
    subst (Stored name kv secret peers) same (
      canon,
      c,
      (cfg, b),
      refl,
      merge_peer-IsSorted name canon (keep_raw name canon cfg) peers (lookup canon peers),
      merge_peer-Merged name canon (keep_raw name canon cfg) peers (lookup canon peers) refl
          (keep_raw-adds name canon cfg),
    )
flush_config-Stored name canon kv secret peers (err e) r c b h = cc
flush_config-Stored name canon kv secret peers panics r c b h = cc

flush_peer-Stored :
    (name : Text) (kv : Map Text) (secret : Text) (peers : Map PeerConfig) (o : Option Text)
    (r : Text × Map PeerConfig)
    → canonical_peer_name name ≡ o
    → flush_peer name kv secret peers o ≡ ok r
    → Stored name kv secret peers r
unfolding flush_peer
flush_peer-Stored name kv secret peers none r c h = cc
flush_peer-Stored name kv secret peers (some canon) r c h =
    flush_config-Stored name canon kv secret peers (build_peer name kv) r c refl h

-- A section other than [mesh] that flush_section takes has a canonical name and all the fields that
-- are required; the secret is left alone, names in order stay in order, the peer is known by its
-- name afterwards, other peers are untouched, and a peer that was there before keeps all but its
-- aliases, to which the new ones are added.
pub flush_section-Stored :
    (name : Text) (kv : Map Text) (secret : Text) (peers : Map PeerConfig)
    (r : Text × Map PeerConfig)
    → text_eq name (codes "mesh") ≡ false
    → flush_section (some name) kv secret peers ≡ ok r
    → Stored name kv secret peers r
unfolding flush_section
flush_section-Stored name kv secret peers r n h =
    flush_peer-Stored name kv secret peers (canonical_peer_name name) r refl
      (rw (n, flush_section) at h)
