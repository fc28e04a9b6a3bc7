-- ===== src/Peers/Examples.antt =====
-- Names, a small peers.conf and the registry that it gives.
use convergio_mesh.Prelude.{arith, ◌≡◌, refl, [], ◌∷◌, none, some}
use mathlib.Core.List
use convergio_mesh.Prelude.Text.{Text, codes, has, text_eq}
use convergio_mesh.Prelude.Text.Lines.{lines}
use convergio_mesh.Prelude.Text.Trim.{trim, is_whitespace}
use convergio_mesh.Prelude.Map.{Map, lookup, insert}
use convergio_mesh.Prelude.Map.Laws.{IsSorted}
use convergio_mesh.Peers.Config.{ok, PeerConfig, PeersRegistry}
use convergio_mesh.Peers.Name.{canonical_peer_name}
use convergio_mesh.Peers.Parser.{flush_section}
use convergio_mesh.Peers.Parser.Section.{Stored, flush_section-Stored}
use convergio_mesh.Peers.Ini.{parse_ini}
use convergio_mesh.Peers.Ini.Names.{HasHeader, IsPeer, IsPresent, parse_ini-IsPresent}
use convergio_mesh.Peers.Ini.{header}
use convergio_mesh.Peers.Printer.{sanitize_ini_value, entries, peer_to_ini, save}
use convergio_mesh.Peers.Printer.Injection.{read, as_entry, peer_to_ini_lem}
use convergio_mesh.Peers.Printer.Values.{IsValue}
use convergio_mesh.Peers.RoundTrip.Peer.{IsClean}
use convergio_mesh.Peers.RoundTrip.Registry.{IsStored, load-save}
use convergio_mesh.Peers.Registry.{load}

-- The sixth byte from the end lies inside a character of three bytes.
panic : canonical_peer_name (0x2014 ∷ codes "local") ≡ none
unfolding canonical_peer_name is_whitespace
panic = refl

abbrev node : Text
node = codes "M5Max.local"

abbrev conf : Text
conf =
    codes
      "[mesh]\nshared_secret=s\n\n[M5Max.local]\nssh_alias=m5\nuser=rob\nos=macos\ntailscale_ip=100.0.0.5\ndns_name=m5\ncapabilities=claude\nrole=worker\n"

abbrev m5max : PeerConfig
m5max = record {
  ssh_alias = codes "m5";
  user = codes "rob";
  os = codes "macos";
  tailscale_ip = codes "100.0.0.5";
  dns_name = codes "m5";
  capabilities = codes "claude" ∷ [];
  role = codes "worker";
  status = codes "active";
  thunderbolt_ip = none;
  lan_ip = none;
  mac_address = none;
  gh_account = none;
  runners = none;
  runner_paths = none;
  repo_path = none;
  aliases = node ∷ [];
}

abbrev pub parsed : Text × Map PeerConfig
parsed = (codes "s", (codes "m5max", m5max) ∷ [])

conf_run : parse_ini conf ≡ ok parsed
unfolding parse_ini is_whitespace flush_section canonical_peer_name lookup insert
conf_run = refl

parse_ini-IsPresent_example :
    IsSorted parsed.1
    × ((name : Text) → HasHeader name (lines conf) → IsPeer name → IsPresent name parsed.1)
parse_ini-IsPresent_example = parse_ini-IsPresent conf parsed conf_run

abbrev kv : Map Text
kv =
    (codes "capabilities", codes "claude")
    ∷ (codes "dns_name", codes "m5")
    ∷ (codes "os", codes "macos")
    ∷ (codes "role", codes "worker")
    ∷ (codes "ssh_alias", codes "m5")
    ∷ (codes "tailscale_ip", codes "100.0.0.5")
    ∷ (codes "user", codes "rob")
    ∷ []

flush_section-Stored_example : Stored node kv (codes "s") [] parsed
unfolding flush_section text_eq is_whitespace canonical_peer_name lookup insert
flush_section-Stored_example = flush_section-Stored node kv (codes "s") [] parsed refl refl

-- A value with a section in it.
abbrev injecting : PeerConfig
injecting = record m5max { ssh_alias = codes "a\n[injected]\nmalicious=true" }

peer_to_ini_lem_example :
    List.map read (lines (peer_to_ini (codes "test") injecting))
    ≡ header (sanitize_ini_value (codes "test")) ∷ List.map as_entry (entries injecting)
peer_to_ini_lem_example = peer_to_ini_lem (codes "test") injecting

-- With a list of two items and optional fields.
abbrev busy : PeerConfig
busy = record m5max {
  capabilities = codes "claude" ∷ codes "ollama" ∷ [];
  lan_ip = some (codes "10.0.0.5");
  runners = some 4;
}

abbrev stored : PeersRegistry
stored = record { shared_secret = codes "a=b c"; peers = (codes "m5max", busy) ∷ [] }

busy-IsClean : IsClean busy
unfolding has trim is_whitespace
busy-IsClean = record {
  ssh_alias = ((refl, refl), refl);
  user = ((refl, refl), refl);
  os = ((refl, refl), refl);
  tailscale_ip = ((refl, refl), refl);
  dns_name = ((refl, refl), refl);
  capabilities = ((refl, refl, ((refl, refl), refl)), ((refl, refl, ((refl, refl), refl)), tt));
  role = ((refl, refl), refl);
  status = ((refl, refl), refl);
  thunderbolt_ip = tt;
  lan_ip = ((refl, refl), refl);
  mac_address = tt;
  gh_account = tt;
  runners = omega arith;
  runner_paths = tt;
  repo_path = tt;
  aliases = ((refl, refl, ((refl, refl), refl)), tt);
}

busy-IsStored : IsStored (codes "m5max", busy)
unfolding has trim is_whitespace canonical_peer_name text_eq
busy-IsStored = record {
  name = ((refl, refl), refl);
  canonical = refl;
  not_mesh = refl;
  clean = busy-IsClean;
}

stored-IsSorted : IsSorted stored.peers
stored-IsSorted = (tt, tt)

secret-IsValue : IsValue stored.shared_secret
unfolding has trim is_whitespace
secret-IsValue = ((refl, refl), refl)

load-save_example : load (save stored) ≡ ok stored
load-save_example = load-save stored secret-IsValue (busy-IsStored, tt) stored-IsSorted
