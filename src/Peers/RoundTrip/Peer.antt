-- ===== src/Peers/RoundTrip/Peer.antt =====
-- A peer whose section is printed and parsed again.
use mathlib.Core.Option
use convergio_mesh.Prelude.{
  ℕ, ◌^◌, ◌≡◌, ◌<◌, refl, ap, ◌∙◌, true, List, [], ◌∷◌, Option, none, some, All, arith, or_else,
  ◌>>=◌,
}
use convergio_mesh.Prelude.Text.{Text, codes, text_eq, join}
use convergio_mesh.Prelude.Text.Decimal.{to_decimal}
use convergio_mesh.Peers.Config.{ok, PeerConfig}
use convergio_mesh.Peers.Parser.{parse_capabilities, parse_runners, build_peer}
use convergio_mesh.Peers.Printer.{sanitize_ini_value, caps_str}
use convergio_mesh.Peers.Printer.Values.{IsValue}
use convergio_mesh.Peers.RoundTrip.Number.{parse-to_decimal}
use convergio_mesh.Peers.RoundTrip.Items.{IsItem, sanitize-value, parse-join, join-IsValue}
use convergio_mesh.Peers.RoundTrip.Fields.{last_of}
use convergio_mesh.Peers.RoundTrip.Entries.{
  pick, printed, printed_aliases, required, printed_fields, field,
}

abbrev pub OptionIsValue : Option Text → Type 0
OptionIsValue none = Unit
OptionIsValue (some v) = IsValue v

abbrev pub OptionIsU32 : Option ℕ → Type 0
OptionIsU32 none = Unit
OptionIsU32 (some n) = n < 2 ^ 32

-- A peer whose fields are values of the file, and its lists lists of items.
pub record IsClean (p : PeerConfig) : Type 0 where
  pub ssh_alias : IsValue p.ssh_alias
  pub user : IsValue p.user
  pub os : IsValue p.os
  pub tailscale_ip : IsValue p.tailscale_ip
  pub dns_name : IsValue p.dns_name
  pub capabilities : All IsItem p.capabilities
  pub role : IsValue p.role
  pub status : IsValue p.status
  pub thunderbolt_ip : OptionIsValue p.thunderbolt_ip
  pub lan_ip : OptionIsValue p.lan_ip
  pub mac_address : OptionIsValue p.mac_address
  pub gh_account : OptionIsValue p.gh_account
  pub runners : OptionIsU32 p.runners
  pub runner_paths : OptionIsValue p.runner_paths
  pub repo_path : OptionIsValue p.repo_path
  pub aliases : All IsItem p.aliases

-- What the parser makes of the printed entries.
reread : PeerConfig → PeerConfig
reread p = record {
  ssh_alias = sanitize_ini_value p.ssh_alias;
  user = sanitize_ini_value p.user;
  os = sanitize_ini_value p.os;
  tailscale_ip = sanitize_ini_value p.tailscale_ip;
  dns_name = sanitize_ini_value p.dns_name;
  capabilities = parse_capabilities (sanitize_ini_value (caps_str p.capabilities));
  role = sanitize_ini_value p.role;
  status = sanitize_ini_value p.status;
  thunderbolt_ip = pick true (printed p.thunderbolt_ip) none;
  lan_ip = pick true (printed p.lan_ip) none;
  mac_address = pick true (printed p.mac_address) none;
  gh_account = pick true (printed p.gh_account) none;
  runners = pick true (Option.map (to_decimal 10) p.runners) none >>= parse_runners;
  runner_paths = pick true (printed p.runner_paths) none;
  repo_path = pick true (printed p.repo_path) none;
  aliases = or_else (Option.map parse_capabilities (pick true (printed_aliases p.aliases) none)) [];
}

build-printed : (name : Text) (p : PeerConfig) → build_peer name (printed_fields p) ≡ ok (reread p)
unfolding build_peer reread required last_of pick text_eq
build-printed name p =
    rw
      (
        field p (codes "ssh_alias"),
        field p (codes "user"),
        field p (codes "os"),
        field p (codes "tailscale_ip"),
        field p (codes "dns_name"),
        field p (codes "capabilities"),
        field p (codes "role"),
        field p (codes "status"),
        field p (codes "thunderbolt_ip"),
        field p (codes "lan_ip"),
        field p (codes "mac_address"),
        field p (codes "gh_account"),
        field p (codes "runners"),
        field p (codes "runner_paths"),
        field p (codes "repo_path"),
        field p (codes "aliases"),
      )
      refl

option_field : (o : Option Text) → OptionIsValue o → pick true (printed o) none ≡ o
unfolding pick
option_field none h = refl
option_field (some v) h = ap some (sanitize-value v h)

runners_field :
    (o : Option ℕ)
    → OptionIsU32 o
    → (pick true (Option.map (to_decimal 10) o) none >>= parse_runners) ≡ o
unfolding pick parse_runners
runners_field none h = refl
runners_field (some n) h = parse-to_decimal n h

items_field :
    (xs : List Text)
    → All IsItem xs
    → parse_capabilities (sanitize_ini_value (join (codes ",") xs)) ≡ xs
items_field xs h =
    ap parse_capabilities (sanitize-value (join (codes ",") xs) (join-IsValue xs h))
    ∙ parse-join xs h

aliases_field :
    (xs : List Text)
    → All IsItem xs
    → or_else (Option.map parse_capabilities (pick true (printed_aliases xs) none)) [] ≡ xs
unfolding pick
aliases_field [] h = refl
aliases_field (x ∷ xs) h = items_field (x ∷ xs) h

reread-IsClean : (p : PeerConfig) → IsClean p → reread p ≡ p
unfolding reread caps_str
reread-IsClean p c = ground (
  arith,
  sanitize-value p.ssh_alias c.ssh_alias,
  sanitize-value p.user c.user,
  sanitize-value p.os c.os,
  sanitize-value p.tailscale_ip c.tailscale_ip,
  sanitize-value p.dns_name c.dns_name,
  items_field p.capabilities c.capabilities,
  sanitize-value p.role c.role,
  sanitize-value p.status c.status,
  option_field p.thunderbolt_ip c.thunderbolt_ip,
  option_field p.lan_ip c.lan_ip,
  option_field p.mac_address c.mac_address,
  option_field p.gh_account c.gh_account,
  runners_field p.runners c.runners,
  option_field p.runner_paths c.runner_paths,
  option_field p.repo_path c.repo_path,
  aliases_field p.aliases c.aliases,
)

-- The entries that are printed of a peer build the peer again.
pub build-entries :
    (name : Text) (p : PeerConfig) → IsClean p → build_peer name (printed_fields p) ≡ ok p
build-entries name p c = build-printed name p ∙ ap ok (reread-IsClean p c)
