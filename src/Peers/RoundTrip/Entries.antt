-- ===== src/Peers/RoundTrip/Entries.antt =====
-- What the parser finds under each key of a printed peer.
use mathlib.Core.Option
use convergio_mesh.Prelude.{
  ℕ, ◌≡◌, refl, ◌∙◌, sym, Bool, true, false, List, [], ◌∷◌, ◌++◌, Option, none, some, if◌then◌else◌,
}
use convergio_mesh.Prelude.Text.{Text, codes, text_eq, join}
use convergio_mesh.Prelude.Text.Decimal.{to_decimal}
use convergio_mesh.Prelude.Map.{Map, lookup}
use convergio_mesh.Peers.Config.{PeerConfig}
use convergio_mesh.Peers.Printer.{
  sanitize_ini_value, caps_str, optional, runners_entry, aliases_entry, entries,
}
use convergio_mesh.Peers.RoundTrip.Fields.{insert_all, last_of, lookup-insert_all, last_of-append}

-- An entry of an optional key: it replaces what the key had.
unfoldable pub pick : Bool → Option Text → Option Text → Option Text
pick true (some v) o = some v
pick true none o = o
pick false new o = o

pick-none : (b : Bool) (o : Option Text) → pick b none o ≡ o
unfolding pick
pick-none true o = refl
pick-none false o = refl

pick-some : (b : Bool) (v : Text) (o : Option Text) → (if b then some v else o) ≡ pick b (some v) o
unfolding pick
pick-some true v o = refl
pick-some false v o = refl

-- The values that are printed for the optional keys.
abbrev pub printed : Option Text → Option Text
printed = Option.map sanitize_ini_value

abbrev pub printed_aliases : List Text → Option Text
printed_aliases [] = none
printed_aliases (x ∷ xs) = some (sanitize_ini_value (join (codes ",") (x ∷ xs)))

last_of-optional :
    (k key : Text) (new o : Option Text)
    → last_of k (optional key new) o ≡ pick (text_eq key k) (printed new) o
unfolding last_of optional
last_of-optional k key none o = sym (pick-none (text_eq key k) o)
last_of-optional k key (some v) o = pick-some (text_eq key k) (sanitize_ini_value v) o

last_of-runners :
    (k : Text) (new : Option ℕ) (o : Option Text)
    → last_of k (runners_entry new) o
      ≡ pick (text_eq (codes "runners") k) (Option.map (to_decimal 10) new) o
unfolding last_of runners_entry
last_of-runners k none o = sym (pick-none (text_eq (codes "runners") k) o)
last_of-runners k (some n) o = pick-some (text_eq (codes "runners") k) (to_decimal 10 n) o

last_of-aliases :
    (k : Text) (xs : List Text) (o : Option Text)
    → last_of k (aliases_entry xs) o ≡ pick (text_eq (codes "aliases") k) (printed_aliases xs) o
unfolding last_of aliases_entry
last_of-aliases k [] o = sym (pick-none (text_eq (codes "aliases") k) o)
last_of-aliases k (x ∷ xs) o = pick-some (text_eq (codes "aliases") k) _ o

module _ (p : PeerConfig) (k : Text) where
  -- What a key has after the optional entries.
  abbrev picked : Option Text → Option Text
  picked o = pick (text_eq (codes "aliases") k) (printed_aliases p.aliases) (
      pick (text_eq (codes "repo_path") k) (printed p.repo_path) (
        pick (text_eq (codes "runner_paths") k) (printed p.runner_paths) (
          pick (text_eq (codes "runners") k) (Option.map (to_decimal 10) p.runners) (
            pick (text_eq (codes "gh_account") k) (printed p.gh_account) (
              pick (text_eq (codes "mac_address") k) (printed p.mac_address) (
                pick (text_eq (codes "lan_ip") k) (printed p.lan_ip)
                  (pick (text_eq (codes "thunderbolt_ip") k) (printed p.thunderbolt_ip) o)))))))

  last_of-rest :
      (o : Option Text)
      → last_of k
          (optional (codes "thunderbolt_ip") p.thunderbolt_ip
            ++ (optional (codes "lan_ip") p.lan_ip
                ++ (optional (codes "mac_address") p.mac_address
                    ++ (optional (codes "gh_account") p.gh_account
                        ++ (runners_entry p.runners
                            ++ (optional (codes "runner_paths") p.runner_paths
                                ++ (optional (codes "repo_path") p.repo_path
                                    ++ aliases_entry p.aliases)))))))
          o
        ≡ picked o
  last_of-rest o =
      rw
        (
          last_of-append k (optional (codes "thunderbolt_ip") p.thunderbolt_ip),
          last_of-append k (optional (codes "lan_ip") p.lan_ip),
          last_of-append k (optional (codes "mac_address") p.mac_address),
          last_of-append k (optional (codes "gh_account") p.gh_account),
          last_of-append k (runners_entry p.runners),
          last_of-append k (optional (codes "runner_paths") p.runner_paths),
          last_of-append k (optional (codes "repo_path") p.repo_path),
          last_of-aliases k p.aliases,
          last_of-optional k (codes "repo_path") p.repo_path,
          last_of-optional k (codes "runner_paths") p.runner_paths,
          last_of-runners k p.runners,
          last_of-optional k (codes "gh_account") p.gh_account,
          last_of-optional k (codes "mac_address") p.mac_address,
          last_of-optional k (codes "lan_ip") p.lan_ip,
          last_of-optional k (codes "thunderbolt_ip") p.thunderbolt_ip,
        )
        refl

-- The entries that are always printed.
unfoldable pub required : PeerConfig → List (Text × Text)
required p =
    (codes "ssh_alias", sanitize_ini_value p.ssh_alias)
    ∷ (codes "user", sanitize_ini_value p.user)
    ∷ (codes "os", sanitize_ini_value p.os)
    ∷ (codes "tailscale_ip", sanitize_ini_value p.tailscale_ip)
    ∷ (codes "dns_name", sanitize_ini_value p.dns_name)
    ∷ (codes "capabilities", sanitize_ini_value (caps_str p.capabilities))
    ∷ (codes "role", sanitize_ini_value p.role)
    ∷ (codes "status", sanitize_ini_value p.status)
    ∷ []

abbrev pub printed_fields : PeerConfig → Map Text
printed_fields p = insert_all (entries p) []

pub field :
    (p : PeerConfig) (k : Text)
    → lookup k (printed_fields p) ≡ picked p k (last_of k (required p) none)
unfolding entries lookup required last_of
field p k = lookup-insert_all k (entries p) [] ∙ last_of-rest p k _
