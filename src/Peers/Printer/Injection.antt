-- ===== src/Peers/Printer/Injection.antt =====
-- Reading what peer_to_ini printed.
use mathlib.Core.List
use convergio_mesh.Prelude.{
  ℕ, ◌≡◌, refl, ap, ap₂, ◌∙◌, List, [], ◌∷◌, ◌++◌, Option, none, some, All,
}
use convergio_mesh.Prelude.Text.{Text, codes, has, join}
use convergio_mesh.Prelude.Text.Trim.{trim, is_whitespace}
use convergio_mesh.Prelude.Text.Lines.{lines}
use convergio_mesh.Peers.Config.{PeerConfig}
use convergio_mesh.Peers.Ini.{Line, header, entry, classify}
use convergio_mesh.Peers.Printer.{
  sanitize_ini_value, optional, runners_entry, aliases_entry, entries, entry_line, peer_lines,
  peer_to_ini, caps_str,
}
use convergio_mesh.Peers.Printer.Lines.{IsPlain, lines-unlines}
use convergio_mesh.Peers.Printer.Values.{IsValue, sanitize-IsValue, to_decimal-IsValue}
use convergio_mesh.Peers.Printer.Reads.{
  IsKey, entry_line-trim, entry_line-classify, entry_line-IsPlain, header_line-trim,
  header_line-classify, header_line-IsPlain,
}

-- An entry that the parser reads as it was printed.
abbrev IsEntry : Text × Text → Type 0
IsEntry (key, v) = IsKey key × IsValue v

abbrev AllEntries : List (Text × Text) → Type 0
AllEntries xs = All IsEntry xs

AllEntries-append :
    (xs ys : List (Text × Text)) → AllEntries xs → AllEntries ys → AllEntries (xs ++ ys)
AllEntries-append [] ys h k = k
AllEntries-append (x ∷ xs) ys h k = (h.0, AllEntries-append xs ys h.1 k)

optional-AllEntries : (key : Text) (o : Option Text) → IsKey key → AllEntries (optional key o)
unfolding optional
optional-AllEntries key none k = tt
optional-AllEntries key (some v) k = ((k, sanitize-IsValue v), tt)

runners_entry-AllEntries : (o : Option ℕ) → AllEntries (runners_entry o)
unfolding runners_entry is_whitespace trim has
runners_entry-AllEntries none = tt
runners_entry-AllEntries (some r) =
    (((refl, refl, refl, refl, refl, (refl, refl)), to_decimal-IsValue 10 r), tt)

aliases_entry-AllEntries : (xs : List Text) → AllEntries (aliases_entry xs)
unfolding aliases_entry is_whitespace trim has
aliases_entry-AllEntries [] = tt
aliases_entry-AllEntries (x ∷ xs) = (
  ((refl, refl, refl, refl, refl, (refl, refl)), sanitize-IsValue (join (codes ",") (x ∷ xs))),
  tt,
)

-- The values that are always there.
required_keys :
    (a b c d e f g h : Text) (rest : List (Text × Text))
    → AllEntries rest
    → AllEntries (
        (codes "ssh_alias", sanitize_ini_value a)
        ∷ (codes "user", sanitize_ini_value b)
        ∷ (codes "os", sanitize_ini_value c)
        ∷ (codes "tailscale_ip", sanitize_ini_value d)
        ∷ (codes "dns_name", sanitize_ini_value e)
        ∷ (codes "capabilities", sanitize_ini_value f)
        ∷ (codes "role", sanitize_ini_value g)
        ∷ (codes "status", sanitize_ini_value h)
        ∷ rest)
unfolding is_whitespace trim has
required_keys a b c d e f g h rest k = (
  ((refl, refl, refl, refl, refl, (refl, refl)), sanitize-IsValue a),
  (
    ((refl, refl, refl, refl, refl, (refl, refl)), sanitize-IsValue b),
    (
      ((refl, refl, refl, refl, refl, (refl, refl)), sanitize-IsValue c),
      (
        ((refl, refl, refl, refl, refl, (refl, refl)), sanitize-IsValue d),
        (
          ((refl, refl, refl, refl, refl, (refl, refl)), sanitize-IsValue e),
          (
            ((refl, refl, refl, refl, refl, (refl, refl)), sanitize-IsValue f),
            (
              ((refl, refl, refl, refl, refl, (refl, refl)), sanitize-IsValue g),
              (((refl, refl, refl, refl, refl, (refl, refl)), sanitize-IsValue h), k),
            ),
          ),
        ),
      ),
    ),
  ),
)

optional_keys :
    (p : PeerConfig)
    → AllEntries (
        optional (codes "thunderbolt_ip") p.thunderbolt_ip
        ++ (optional (codes "lan_ip") p.lan_ip
            ++ (optional (codes "mac_address") p.mac_address
                ++ (optional (codes "gh_account") p.gh_account
                    ++ (runners_entry p.runners
                        ++ (optional (codes "runner_paths") p.runner_paths
                            ++ (optional (codes "repo_path") p.repo_path
                                ++ aliases_entry p.aliases)))))))
unfolding is_whitespace trim has
optional_keys p =
    AllEntries-append _ _
      (optional-AllEntries (codes "thunderbolt_ip") p.thunderbolt_ip
        (refl, refl, refl, refl, refl, (refl, refl)))
      (AllEntries-append _ _
        (optional-AllEntries (codes "lan_ip") p.lan_ip (refl, refl, refl, refl, refl, (refl, refl)))
        (AllEntries-append _ _
          (optional-AllEntries (codes "mac_address") p.mac_address
            (refl, refl, refl, refl, refl, (refl, refl)))
          (AllEntries-append _ _
            (optional-AllEntries (codes "gh_account") p.gh_account
              (refl, refl, refl, refl, refl, (refl, refl)))
            (AllEntries-append _ _ (runners_entry-AllEntries p.runners) (
              AllEntries-append _ _
                (optional-AllEntries (codes "runner_paths") p.runner_paths
                  (refl, refl, refl, refl, refl, (refl, refl)))
                (AllEntries-append _ _
                  (optional-AllEntries (codes "repo_path") p.repo_path
                    (refl, refl, refl, refl, refl, (refl, refl)))
                  (aliases_entry-AllEntries p.aliases)))))))

entries-AllEntries : (p : PeerConfig) → AllEntries (entries p)
unfolding entries
entries-AllEntries p =
    required_keys p.ssh_alias p.user p.os p.tailscale_ip p.dns_name (caps_str p.capabilities) p.role
      p.status _ (optional_keys p)

-- How the parser reads a line.
abbrev pub read : Text → Line
read raw = classify (trim raw)

abbrev pub as_entry : Text × Text → Line
as_entry (key, v) = entry key v

entries-read :
    (xs : List (Text × Text))
    → AllEntries xs
    → List.map read (List.map entry_line xs) ≡ List.map as_entry xs
entries-read [] h = refl
entries-read ((key, v) ∷ xs) h =
    rw
      (
        entry_line-trim key v h.0.0 h.0.1,
        entry_line-classify key v h.0.0 h.0.1,
        entries-read xs h.1,
      )
      refl

entries-IsPlain : (xs : List (Text × Text)) → AllEntries xs → All IsPlain (List.map entry_line xs)
entries-IsPlain [] h = tt
entries-IsPlain ((key, v) ∷ xs) h = (entry_line-IsPlain key v h.0.0 h.0.1, entries-IsPlain xs h.1)

pub peer_lines-IsPlain : (name : Text) (p : PeerConfig) → All IsPlain (peer_lines name p)
unfolding peer_lines
peer_lines-IsPlain name p = (
  header_line-IsPlain (sanitize_ini_value name) (sanitize-IsValue name).0,
  entries-IsPlain (entries p) (entries-AllEntries p),
)

pub peer_lines-read :
    (name : Text) (p : PeerConfig)
    → List.map read (peer_lines name p)
      ≡ header (sanitize_ini_value name) ∷ List.map as_entry (entries p)
unfolding peer_lines
peer_lines-read name p =
    ap₂ (λ (x : Line) (xs : List Line). x ∷ xs)
      (ap classify (header_line-trim (sanitize_ini_value name))
        ∙ header_line-classify (sanitize_ini_value name))
      (entries-read (entries p) (entries-AllEntries p))

-- Whatever the name and the values of a peer hold, the parser reads what peer_to_ini prints as one
-- section header with the sanitised name and one entry for each key that is printed, with its
-- sanitised value, in order: no value adds a line, a section or a key.
pub peer_to_ini_lem :
    (name : Text) (p : PeerConfig)
    → List.map read (lines (peer_to_ini name p))
      ≡ header (sanitize_ini_value name) ∷ List.map as_entry (entries p)
unfolding peer_to_ini
peer_to_ini_lem name p =
    ap (List.map read) (lines-unlines (peer_lines name p) (peer_lines-IsPlain name p))
    ∙ peer_lines-read name p
