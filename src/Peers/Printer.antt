-- ===== src/Peers/Printer.antt =====
-- crates/convergio-mesh/src/peers_parser.rs: peer_to_ini; and PeersRegistry::save of
-- peers_registry.rs, as the text that it writes.
pub mod Lines
pub mod Values
pub mod Reads
pub mod Injection
use mathlib.Core.List
use convergio_mesh.Prelude.{ℕ, Bool, ◌&&◌, not, List, [], ◌∷◌, ◌++◌, Option, none, some, keep, ◌==◌}
use convergio_mesh.Prelude.Text.{Text, codes, join}
use convergio_mesh.Prelude.Text.Trim.{trim}
use convergio_mesh.Prelude.Text.Decimal.{to_decimal}
use convergio_mesh.Prelude.Map.{Map}
use convergio_mesh.Peers.Config.{PeerConfig, PeersRegistry}

unfoldable pub sanitize_ini_value : Text → Text
unfolding trim
sanitize_ini_value s = trim (keep (λ c. not (c == 0x0A) && not (c == 0x0D)) s)

unfoldable pub caps_str : List Text → Text
unfolding join
caps_str caps = join (codes ",") caps

-- `if let Some(v)`: an entry of the value.
unfoldable pub optional : Text → Option Text → List (Text × Text)
optional key none = []
optional key (some v) = (key, sanitize_ini_value v) ∷ []

unfoldable pub runners_entry : Option ℕ → List (Text × Text)
unfolding to_decimal
runners_entry none = []
runners_entry (some r) = (codes "runners", to_decimal 10 r) ∷ []

unfoldable pub aliases_entry : List Text → List (Text × Text)
unfolding join
aliases_entry [] = []
aliases_entry (x ∷ xs) = (codes "aliases", sanitize_ini_value (join (codes ",") (x ∷ xs))) ∷ []

-- The keys and values that are written, in order.
unfoldable pub entries : PeerConfig → List (Text × Text)
unfolding optional runners_entry aliases_entry
entries p =
    (codes "ssh_alias", sanitize_ini_value p.ssh_alias)
    ∷ (codes "user", sanitize_ini_value p.user)
    ∷ (codes "os", sanitize_ini_value p.os)
    ∷ (codes "tailscale_ip", sanitize_ini_value p.tailscale_ip)
    ∷ (codes "dns_name", sanitize_ini_value p.dns_name)
    ∷ (codes "capabilities", sanitize_ini_value (caps_str p.capabilities))
    ∷ (codes "role", sanitize_ini_value p.role)
    ∷ (codes "status", sanitize_ini_value p.status)
    ∷ (optional (codes "thunderbolt_ip") p.thunderbolt_ip
        ++ (optional (codes "lan_ip") p.lan_ip
            ++ (optional (codes "mac_address") p.mac_address
                ++ (optional (codes "gh_account") p.gh_account
                    ++ (runners_entry p.runners
                        ++ (optional (codes "runner_paths") p.runner_paths
                            ++ (optional (codes "repo_path") p.repo_path
                                ++ aliases_entry p.aliases)))))))

-- `key=value` and `[name]`.
unfoldable pub entry_line : Text × Text → Text
entry_line (key, value) = key ++ b'=' ∷ value

unfoldable pub header_line : Text → Text
header_line name = b'[' ∷ (name ++ b']' ∷ [])

-- Every line with its newline.
unfoldable pub unlines : List Text → Text
unlines [] = []
unlines (t ∷ ts) = t ++ 0x0A ∷ unlines ts

unfoldable pub peer_lines : Text → PeerConfig → List Text
unfolding entries entry_line header_line
peer_lines name p = header_line (sanitize_ini_value name) ∷ List.map entry_line (entries p)

unfoldable pub peer_to_ini : Text → PeerConfig → Text
unfolding unlines
peer_to_ini name p = unlines (peer_lines name p)

unfoldable pub save_peers : Map PeerConfig → Text
unfolding peer_to_ini
save_peers [] = []
save_peers ((name, cfg) ∷ rest) = 0x0A ∷ (peer_to_ini name cfg ++ save_peers rest)

unfoldable pub save : PeersRegistry → Text
unfolding save_peers
save r = codes "[mesh]\nshared_secret=" ++ (r.shared_secret ++ 0x0A ∷ save_peers r.peers)
