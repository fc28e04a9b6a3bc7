-- ===== src/Peers/RoundTrip/Registry.antt =====
-- A registry is what its saved text is loaded as.
use mathlib.Core.List
use convergio_mesh.Prelude.{
  ◌≡◌, refl, ap, ◌∙◌, false, List, [], ◌∷◌, ◌++◌, Option, none, some, All, arith,
}
use convergio_mesh.Prelude.Text.{Text, codes, text_eq}
use convergio_mesh.Prelude.Text.Order.{text_eq_iff, text_eq_refl, text_ltb_irrefl}
use convergio_mesh.Prelude.Text.Lines.{lines}
use convergio_mesh.Prelude.Map.{Map, lookup, insert, Above}
use convergio_mesh.Prelude.Map.Laws.{lookup-insert, IsSorted, insert-IsSorted}
use convergio_mesh.Prelude.Map.Entries.{Map-ext, lookup-Above}
use convergio_mesh.Peers.Config.{ok, and_then, PeerConfig, PeersRegistry}
use convergio_mesh.Peers.Name.{canonical_peer_name}
use convergio_mesh.Peers.Parser.{keep_raw, merge_peer, flush_config, flush_peer, flush_section}
use convergio_mesh.Peers.Ini.{
  Line, skip, header, entry, Reader, open_section, flush, start, read_line, read_lines, parse_ini,
}
use convergio_mesh.Peers.Printer.{sanitize_ini_value, entries, save}
use convergio_mesh.Peers.Printer.Values.{IsValue}
use convergio_mesh.Peers.Printer.Injection.{as_entry}
use convergio_mesh.Peers.Registry.{load, registry_of}
use convergio_mesh.Peers.RoundTrip.Items.{sanitize-value}
use convergio_mesh.Peers.RoundTrip.Entries.{printed_fields}
use convergio_mesh.Peers.RoundTrip.Peer.{IsClean, build-entries}
use convergio_mesh.Peers.RoundTrip.File.{run, run-append, run-entries, peers_read, read_lines-save}

-- A peer under its canonical name, which is a value of the file and not that of the section of the
-- secret.
pub record IsStored (e : Text × PeerConfig) : Type 0 where
  pub name : IsValue e.0
  pub canonical : canonical_peer_name e.0 ≡ some e.0
  pub not_mesh : text_eq e.0 (codes "mesh") ≡ false
  pub clean : IsClean e.1

-- The peers are inserted one after the other.
put_all : Map PeerConfig → Map PeerConfig → Map PeerConfig
put_all [] acc = acc
put_all ((name, p) ∷ rest) acc = put_all rest (insert name p acc)

abbrev either : Option PeerConfig → Option PeerConfig → Option PeerConfig
either none o = o
either (some p) o = some p

lookup-put_all :
    (j : Text) (peers acc : Map PeerConfig)
    → IsSorted peers
    → lookup j (put_all peers acc) ≡ either (lookup j peers) (lookup j acc)
unfolding put_all lookup
lookup-put_all j [] acc s = refl
lookup-put_all j ((name, p) ∷ rest) acc s = ground (
  arith,
  lookup-put_all j rest (insert name p acc) s.1,
  lookup-insert name j p acc,
  text_eq_iff name j,
  lookup-Above name rest s.0,
)

put_all-IsSorted : (peers acc : Map PeerConfig) → IsSorted acc → IsSorted (put_all peers acc)
unfolding put_all
put_all-IsSorted [] acc s = s
put_all-IsSorted ((name, p) ∷ rest) acc s = put_all-IsSorted rest _ (insert-IsSorted name p acc s)

either-none : (o : Option PeerConfig) → either o none ≡ o
either-none none = refl
either-none (some p) = refl

put_all_empty : (peers : Map PeerConfig) → IsSorted peers → put_all peers [] ≡ peers
unfolding lookup
put_all_empty peers s =
    Map-ext (put_all peers []) peers (put_all-IsSorted peers [] tt) s
      (λ j. lookup-put_all j peers [] s ∙ either-none (lookup j peers))

-- None of the peers is there yet.
abbrev Fresh : Map PeerConfig → Map PeerConfig → Type 0
Fresh rest acc = All (λ (e : Text × PeerConfig). lookup e.0 acc ≡ none) rest

insert-Fresh :
    (name : Text) (p : PeerConfig) (rest acc : Map PeerConfig)
    → Above name rest
    → Fresh rest acc
    → Fresh rest (insert name p acc)
insert-Fresh name p [] acc a f = tt
insert-Fresh name p ((j, q) ∷ rest) acc a f = (
  ground (arith, lookup-insert name j p acc, text_eq_iff name j, text_ltb_irrefl j),
  insert-Fresh name p rest acc a.1 f.1,
)

keep_raw_same : (name : Text) (p : PeerConfig) → keep_raw name name p ≡ p
unfolding keep_raw
keep_raw_same name p = ground (arith, text_eq_refl name)

-- The section of a stored peer adds the peer.
flush_stored :
    (name secret : Text) (p : PeerConfig) (acc : Map PeerConfig)
    → IsStored (name, p)
    → lookup name acc ≡ none
    → flush_section (some name) (printed_fields p) secret acc ≡ ok (secret, insert name p acc)
unfolding flush_section flush_peer flush_config merge_peer
flush_stored name secret p acc s e =
    rw (s.not_mesh, s.canonical, build-entries name p s.clean, e, keep_raw_same name p) refl

-- The reader after the entries of a section.
abbrev in_section : Text → Text → PeerConfig → Map PeerConfig → Reader
in_section name secret p acc = record {
  shared_secret = secret;
  peers = acc;
  current_section = some name;
  current_kv = printed_fields p;
}

run_none : (q : Reader) → run [] q ≡ ok q
unfolding run
run_none q = refl

run-section :
    (name secret : Text) (p : PeerConfig) (acc : Map PeerConfig) (ls : List Line) (q : Reader)
    → IsValue name
    → flush q ≡ ok (secret, acc)
    → run (skip ∷ header (sanitize_ini_value name) ∷ (List.map as_entry (entries p) ++ ls)) q
      ≡ run ls (in_section name secret p acc)
unfolding run read_line
run-section name secret p acc ls q v e =
    ap
      (λ f.
        and_then (and_then f (λ flushed. ok (open_section (sanitize_ini_value name) flushed)))
          (run (List.map as_entry (entries p) ++ ls)))
      e
    ∙ ap (λ n. run (List.map as_entry (entries p) ++ ls) (open_section n (secret, acc)))
        (sanitize-value name v)
    ∙ run-append (List.map as_entry (entries p)) ls (open_section name (secret, acc))
    ∙ ap (λ o. and_then o (run ls)) (run-entries (entries p) (open_section name (secret, acc)))

load_peers :
    (secret : Text) (rest acc : Map PeerConfig) (q : Reader)
    → flush q ≡ ok (secret, acc)
    → All IsStored rest
    → Fresh rest acc
    → IsSorted rest
    → and_then (run (peers_read rest) q) flush ≡ ok (secret, put_all rest acc)
unfolding peers_read put_all
load_peers secret [] acc q e h f s = ap (λ o. and_then o flush) (run_none q) ∙ e
load_peers secret ((name, p) ∷ rest) acc q e h f s =
    ap (λ o. and_then o flush) (run-section name secret p acc (peers_read rest) q (h.0).name e)
    ∙ load_peers secret rest (insert name p acc) (in_section name secret p acc)
        (flush_stored name secret p acc h.0 f.0) h.1 (insert-Fresh name p rest acc s.0 f.1) s.1

-- The reader after the entry of the secret.
abbrev after_secret : Text → Reader
after_secret secret = record {
  shared_secret = [];
  peers = [];
  current_section = some (codes "mesh");
  current_kv = insert (codes "shared_secret") secret [];
}

flush_secret : (secret : Text) → flush (after_secret secret) ≡ ok (secret, [])
unfolding flush_section lookup insert text_eq
flush_secret secret = refl

run-secret :
    (secret : Text) (ls : List Line)
    → run (header (codes "mesh") ∷ entry (codes "shared_secret") secret ∷ ls) start
      ≡ run ls (after_secret secret)
unfolding run read_line flush_section
run-secret secret ls = refl

Fresh-empty : (peers : Map PeerConfig) → Fresh peers []
unfolding lookup
Fresh-empty [] = tt
Fresh-empty (e ∷ peers) = (refl, Fresh-empty peers)

-- A registry in which the secret is a value of the file, every peer is stored under its canonical
-- name and clean, and the names are sorted, as those of a map are, is what the text that is saved
-- for it is loaded as.
pub load-save :
    (r : PeersRegistry)
    → IsValue r.shared_secret
    → All IsStored r.peers
    → IsSorted r.peers
    → load (save r) ≡ ok r
unfolding load parse_ini
load-save r v h s =
    let all : and_then (read_lines 1 (lines (save r)) start) flush ≡ ok (r.shared_secret, r.peers) =
      ap (λ o. and_then o flush) (read_lines-save 1 r start v ∙ run-secret r.shared_secret _)
      ∙ load_peers r.shared_secret r.peers [] (after_secret r.shared_secret)
          (flush_secret r.shared_secret) h (Fresh-empty r.peers) s
      ∙ ap (λ (m : Map PeerConfig). ok (r.shared_secret, m)) (put_all_empty r.peers s) in
    ap (λ o. and_then o (λ q. ok (registry_of q))) all
