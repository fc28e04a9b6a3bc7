-- ===== src/Peers/Parser.antt =====
-- crates/convergio-mesh/src/peers_parser.rs: from the text of peers.conf to the peers.
pub mod Merge
pub mod Section
use convergio_mesh.Prelude.{
  ℕ, ◌+◌, ◌^◌, ◌-◌, Bool, true, false, ◌&&◌, ◌||◌, not, List, [], ◌∷◌, ◌++◌, Option, none, some,
  ◌>>=◌, is_empty, keep, or_else, ◌==◌, if◌then◌else◌,
}
use mathlib.Core.Option
use mathlib.Core.List
use convergio_mesh.Prelude.Text.{Text, codes, text_eq, elem, starts_with}
use convergio_mesh.Prelude.Text.Trim.{trim}
use convergio_mesh.Prelude.Text.Number.{parse_unsigned}
use convergio_mesh.Prelude.Text.Lines.{lines, split, split_once}
use convergio_mesh.Prelude.Map.{Map, lookup, insert, modify}
use convergio_mesh.Peers.Config.{
  PeersError, missing_field, parse, Outcome, ok, err, panics, and_then, PeerConfig,
}
use convergio_mesh.Peers.Name.{canonical_peer_name}

unfoldable pub found : Text → Text → Option Text → Outcome Text
found key peer (some v) = ok v
found key peer none = err (missing_field peer key)

unfoldable pub require : Map Text → Text → Text → Outcome Text
unfolding found
require kv key peer = found key peer (lookup key kv)

unfoldable pub parse_capabilities : Text → List Text
unfolding split trim
parse_capabilities raw = keep (λ s. not (is_empty s)) (List.map trim (split b',' raw))

unfoldable pub parse_runners : Text → Option ℕ
parse_runners v = parse_unsigned (2 ^ 32 - 1) v

-- The required fields are looked up in this order; the first that is missing is the error.
unfoldable pub build_peer : Text → Map Text → Outcome PeerConfig
unfolding require parse_capabilities parse_runners
build_peer name kv = and_then (require kv (codes "ssh_alias") name) (λ ssh_alias.
    and_then (require kv (codes "user") name) (λ user.
      and_then (require kv (codes "os") name) (λ os.
        and_then (require kv (codes "tailscale_ip") name) (λ tailscale_ip.
          and_then (require kv (codes "dns_name") name) (λ dns_name.
            and_then (require kv (codes "capabilities") name) (λ capabilities.
              and_then (require kv (codes "role") name) (λ role. ok (record {
                ssh_alias = ssh_alias;
                user = user;
                os = os;
                tailscale_ip = tailscale_ip;
                dns_name = dns_name;
                capabilities = parse_capabilities capabilities;
                role = role;
                status = or_else (lookup (codes "status") kv) (codes "active");
                thunderbolt_ip = lookup (codes "thunderbolt_ip") kv;
                lan_ip = lookup (codes "lan_ip") kv;
                mac_address = lookup (codes "mac_address") kv;
                gh_account = lookup (codes "gh_account") kv;
                runners = lookup (codes "runners") kv >>= parse_runners;
                runner_paths = lookup (codes "runner_paths") kv;
                repo_path = lookup (codes "repo_path") kv;
                aliases = or_else (Option.map parse_capabilities (lookup (codes "aliases") kv)) [];
              }))))))))

-- The name of the section joins the aliases if it is not the canonical name and not there already.
unfoldable pub keep_raw : Text → Text → PeerConfig → PeerConfig
unfolding text_eq elem
keep_raw name canon cfg =
    if not (text_eq name canon) && not (elem name cfg.aliases)
    then record cfg { aliases = cfg.aliases ++ name ∷ [] }
    else cfg

unfoldable pub add_alias : Text → Text → List Text → List Text
unfolding text_eq elem
add_alias canon alias aliases =
    if not (text_eq alias canon) && not (elem alias aliases) then aliases ++ alias ∷ [] else aliases

unfoldable pub add_aliases : Text → List Text → List Text → List Text
unfolding add_alias
add_aliases canon [] aliases = aliases
add_aliases canon (x ∷ xs) aliases = add_aliases canon xs (add_alias canon x aliases)

abbrev pub with_aliases : Text → List Text → PeerConfig → PeerConfig
with_aliases canon new existing = record existing {
  aliases = add_aliases canon new existing.aliases;
}

-- A second section of one identity only adds its aliases and its name.
unfoldable pub merge_peer :
    Text → Text → PeerConfig → Map PeerConfig → Option PeerConfig → Map PeerConfig
merge_peer name canon cfg peers (some existing) =
    modify canon (with_aliases canon (cfg.aliases ++ name ∷ [])) peers
merge_peer name canon cfg peers none = insert canon cfg peers

unfoldable pub flush_config :
    Text → Text → Text → Map PeerConfig → Outcome PeerConfig → Outcome (Text × Map PeerConfig)
unfolding merge_peer keep_raw
flush_config name canon secret peers (ok cfg) =
    ok (secret, merge_peer name canon (keep_raw name canon cfg) peers (lookup canon peers))
flush_config name canon secret peers (err e) = err e
flush_config name canon secret peers panics = panics

unfoldable pub flush_peer :
    Text → Map Text → Text → Map PeerConfig → Option Text → Outcome (Text × Map PeerConfig)
unfolding flush_config build_peer
flush_peer name kv secret peers none = panics
flush_peer name kv secret peers (some canon) =
    flush_config name canon secret peers (build_peer name kv)

unfoldable pub flush_section :
    Option Text → Map Text → Text → Map PeerConfig → Outcome (Text × Map PeerConfig)
unfolding flush_peer text_eq
flush_section none kv secret peers = ok (secret, peers)
flush_section (some name) kv secret peers =
    if text_eq name (codes "mesh")
    then ok (or_else (lookup (codes "shared_secret") kv) secret, peers)
    else flush_peer name kv secret peers (canonical_peer_name name)
