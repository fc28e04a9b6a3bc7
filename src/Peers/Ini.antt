-- ===== src/Peers/Ini.antt =====
-- crates/convergio-mesh/src/peers_parser.rs: parse_ini, line by line.
pub mod Names
use convergio_mesh.Prelude.{
  ℕ, ◌+◌, Bool, true, false, ◌&&◌, ◌||◌, List, [], ◌∷◌, ◌++◌, Option, none, some, is_empty, ◌==◌,
  if◌then◌else◌,
}
use convergio_mesh.Prelude.Text.{Text, codes, starts_with}
use convergio_mesh.Prelude.Text.Trim.{trim}
use convergio_mesh.Prelude.Text.Lines.{lines, split_once}
use convergio_mesh.Prelude.Map.{Map, insert}
use convergio_mesh.Peers.Config.{PeersError, parse, Outcome, ok, err, panics, and_then, PeerConfig}
use convergio_mesh.Peers.Parser.{flush_section}

-- What a line is, once it is trimmed.
pub data Line : Type 0 where
  skip : Line
  header : Text → Line
  entry : Text → Text → Line
  unexpected : Text → Line

unfoldable pub ends_with : ℕ → Text → Bool
ends_with c [] = false
ends_with c (x ∷ []) = x == c
ends_with c (x ∷ y ∷ ys) = ends_with c (y ∷ ys)

unfoldable pub drop_last : Text → Text
drop_last [] = []
drop_last (x ∷ []) = []
drop_last (x ∷ y ∷ ys) = x ∷ drop_last (y ∷ ys)

-- line[1..line.len() - 1]
unfoldable pub inner : Text → Text
unfolding drop_last
inner [] = []
inner (c ∷ cs) = drop_last cs

unfoldable pub entry_of : Text → Option (Text × Text) → Line
unfolding trim
entry_of line none = unexpected line
entry_of line (some (key, value)) = entry (trim key) (trim value)

unfoldable pub classify : Text → Line
unfolding starts_with ends_with inner entry_of split_once
classify line =
    if is_empty line || starts_with (codes "#") line
    then skip
    else if starts_with (codes "[") line && ends_with b']' line
    then header (inner line)
    else entry_of line (split_once b'=' line)

-- The variables of the loop.
pub record Reader : Type 0 where
  pub shared_secret : Text
  pub peers : Map PeerConfig
  pub current_section : Option Text
  pub current_kv : Map Text

abbrev pub open_section : Text → Text × Map PeerConfig → Reader
open_section name (secret, peers) = record {
  shared_secret = secret;
  peers = peers;
  current_section = some name;
  current_kv = [];
}

abbrev pub flush : Reader → Outcome (Text × Map PeerConfig)
flush r = flush_section r.current_section r.current_kv r.shared_secret r.peers

unfoldable pub read_line : ℕ → Line → Reader → Outcome Reader
read_line n skip r = ok r
read_line n (header name) r = and_then (flush r) (λ flushed. ok (open_section name flushed))
read_line n (entry key value) r = ok (record r { current_kv = insert key value r.current_kv })
read_line n (unexpected line) r = err (parse n (codes "unexpected content: " ++ line))

-- The number is that of the next line, from 1.
unfoldable pub read_lines : ℕ → List Text → Reader → Outcome Reader
unfolding read_line classify trim
read_lines n [] r = ok r
read_lines n (raw ∷ rest) r =
    and_then (read_line n (classify (trim raw)) r) (read_lines (n + 1) rest)

abbrev pub start : Reader
start = record { shared_secret = []; peers = []; current_section = none; current_kv = [] }

unfoldable pub parse_ini : Text → Outcome (Text × Map PeerConfig)
unfolding read_lines lines
parse_ini text = and_then (read_lines 1 (lines text) start) flush
