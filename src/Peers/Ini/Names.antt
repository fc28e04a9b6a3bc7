-- ===== src/Peers/Ini/Names.antt =====
-- Which peers a file that parses gives.
use convergio_mesh.Prelude.{
  ℕ, ◌+◌, ◌≡◌, ◌≢◌, ◌⊎◌, refl, ◌∙◌, subst, false, List, [], ◌∷◌, Option, none, some, arith,
  Bool-cases, inl, inr, or_else,
}
use convergio_mesh.Prelude.Text.{Text, codes, text_eq}
use convergio_mesh.Prelude.Text.Order.{text_eq_iff}
use convergio_mesh.Prelude.Text.Trim.{trim}
use convergio_mesh.Prelude.Text.Lines.{lines}
use convergio_mesh.Prelude.Map.{Map, lookup, insert}
use convergio_mesh.Prelude.Map.Laws.{IsSorted}
use convergio_mesh.Peers.Config.{Outcome, ok, err, panics, and_then, PeerConfig}
use convergio_mesh.Peers.Name.{canonical_peer_name}
use convergio_mesh.Peers.Parser.{flush_section}
use convergio_mesh.Peers.Parser.Merge.{Known, Merged}
use convergio_mesh.Peers.Parser.Section.{flush_section-Stored}
use convergio_mesh.Peers.Ini.{
  Line, skip, header, entry, unexpected, classify, Reader, open_section, flush, read_line,
  read_lines, start, parse_ini,
}

-- A peer is known by the name under the canonical form of that name.
abbrev pub IsPresent : Text → Map PeerConfig → Type 0
IsPresent name peers =
    (canon : Text) × (canonical_peer_name name ≡ some canon) × Known name canon peers

abbrev Keeps : Map PeerConfig → Map PeerConfig → Type 0
Keeps peers peers' =
    (IsSorted peers → IsSorted peers')
    × ((name : Text) → IsPresent name peers → IsPresent name peers')

Merged-Known :
    (nm cn name canon : Text) (peers peers' : Map PeerConfig)
    → Merged nm cn peers peers'
    → Known name canon peers
    → Known name canon peers'
Merged-Known nm cn name canon peers peers' m k = elim (Bool-cases (text_eq cn canon)) [
  | inl same ↦
      let e : cn ≡ canon = (text_eq_iff cn canon).0 same in
      let (ys, now, kept) = m.first k.config (rw e k.entry) in
      record {
        config = record k.config { aliases = ys };
        entry =
            subst (λ (c : Text). lookup c peers' ≡ some (record k.config { aliases = ys })) e now;
        named = elim k.named [ inl n ↦ inl n | inr a ↦ inr (kept name a) ];
      }
  | inr other ↦
      let n : cn ≢ canon = ground (arith, text_eq_iff cn canon) in
      record { config = k.config; entry = m.others canon n ∙ k.entry; named = k.named }
]

abbrev pub IsPeer : Text → Type 0
IsPeer name = text_eq name (codes "mesh") ≡ false

-- What the flush of a reader leaves.
record Flushed (section : Option Text) (peers peers' : Map PeerConfig) : Type 0 where
  keeps : Keeps peers peers'
  pending : (name : Text) → section ≡ some name → IsPeer name → IsPresent name peers'

flush-Flushed :
    (section : Option Text) (kv : Map Text) (secret : Text) (peers : Map PeerConfig)
    (r : Text × Map PeerConfig)
    → flush_section section kv secret peers ≡ ok r
    → Flushed section peers r.1
unfolding flush_section
flush-Flushed none kv secret peers r h =
    let same : peers ≡ r.1 = cc in
    record {
      keeps = (λ s. subst IsSorted same s, λ name k. subst (IsPresent name) same k);
      pending = λ name e. cc;
    }
flush-Flushed (some nm) kv secret peers r h = elim (Bool-cases (text_eq nm (codes "mesh"))) [
  | inl mesh ↦
      let left : ok (or_else (lookup (codes "shared_secret") kv) secret, peers) ≡ ok r =
        rw (mesh, flush_section) at h in
      let same : peers ≡ r.1 = cc left in
      record {
        keeps = (λ s. subst IsSorted same s, λ name k. subst (IsPresent name) same k);
        pending = λ name e p. cc;
      }
  | inr peer ↦
      let (canon, named, built, secret_kept, sorted, merged) =
        flush_section-Stored nm kv secret peers r peer h in
      record {
        keeps = (sorted, λ name k. (k.0, k.1, Merged-Known nm canon name k.0 peers r.1 merged k.2));
        pending = λ name e p.
            let same : nm ≡ name = cc in
            subst (λ (n : Text). IsPresent n r.1) same (canon, named, merged.known);
      }
]

-- A section header of that name stands among the lines.
abbrev pub HasHeader : Text → List Text → Type 0
HasHeader name [] = ⊥
HasHeader name (raw ∷ rest) = (classify (trim raw) ≡ header name) ⊎ HasHeader name rest

-- What reading lines from a reader and flushing the last section leads to.
record Leads (r : Reader) (ls : List Text) (peers : Map PeerConfig) : Type 0 where
  flushed : Flushed r.current_section r.peers peers
  headers : (name : Text) → HasHeader name ls → IsPeer name → IsPresent name peers

-- The lines that follow lead from the next reader, whichever it is, to the end.
abbrev Follows : ℕ → List Text → Reader → Map PeerConfig → Type 0
Follows n rest r' peers = (r : Reader) → read_lines n rest r ≡ ok r' → Leads r rest peers

header-Leads :
    (n : ℕ) (nm raw : Text) (rest : List Text) (r r' : Reader) (peers : Map PeerConfig)
    (o : Outcome (Text × Map PeerConfig))
    → Follows n rest r' peers
    → classify (trim raw) ≡ header nm
    → flush r ≡ o
    → and_then (and_then o (λ q. ok (open_section nm q))) (read_lines n rest) ≡ ok r'
    → Leads r (raw ∷ rest) peers
header-Leads n nm raw rest r r' peers (ok (s1, p1)) ih c e h =
    let l = ih (open_section nm (s1, p1)) h in
    let f = flush-Flushed r.current_section r.current_kv r.shared_secret r.peers (s1, p1) e in
    record {
      flushed = record {
        keeps = (
          λ s. l.flushed.keeps.0 (f.keeps.0 s),
          λ name k. l.flushed.keeps.1 name (f.keeps.1 name k),
        );
        pending = λ name x p. l.flushed.keeps.1 name (f.pending name x p);
      };
      headers = λ name m p. elim m [
        | inl c' ↦ l.flushed.pending name (cc (c, c')) p
        | inr k ↦ l.headers name k p
      ];
    }
header-Leads n nm raw rest r r' peers (err x) ih c e h = cc
header-Leads n nm raw rest r r' peers panics ih c e h = cc

line-Leads :
    (n : ℕ) (raw : Text) (rest : List Text) (r r' : Reader) (peers : Map PeerConfig) (line : Line)
    → Follows (n + 1) rest r' peers
    → classify (trim raw) ≡ line
    → and_then (read_line n line r) (read_lines (n + 1) rest) ≡ ok r'
    → Leads r (raw ∷ rest) peers
unfolding read_line
line-Leads n raw rest r r' peers skip ih c h =
    let l = ih r h in
    record {
      flushed = l.flushed;
      headers = λ name m p. elim m [ inl c' ↦ cc (c, c') | inr k ↦ l.headers name k p ];
    }
line-Leads n raw rest r r' peers (entry key value) ih c h =
    let l = ih (record r { current_kv = insert key value r.current_kv }) h in
    record {
      flushed = record { keeps = l.flushed.keeps; pending = l.flushed.pending };
      headers = λ name m p. elim m [ inl c' ↦ cc (c, c') | inr k ↦ l.headers name k p ];
    }
line-Leads n raw rest r r' peers (unexpected line) ih c h = cc
line-Leads n raw rest r r' peers (header nm) ih c h =
    header-Leads (n + 1) nm raw rest r r' peers (flush r) ih c refl h

lines-Leads :
    (n : ℕ) (ls : List Text) (r' : Reader) (q : Text × Map PeerConfig)
    → flush r' ≡ ok q
    → Follows n ls r' q.1
unfolding read_lines
lines-Leads n [] r' q f r h =
    let same : r' ≡ r = cc in
    record {
      flushed =
          flush-Flushed r.current_section r.current_kv r.shared_secret r.peers q
            (subst (λ (x : Reader). flush x ≡ ok q) same f);
      headers = λ name m p. elim m [ ];
    }
lines-Leads n (raw ∷ rest) r' q f r h =
    line-Leads n raw rest r r' q.1 (classify (trim raw)) (lines-Leads (n + 1) rest r' q f) refl h

parsed :
    (text : Text) (q : Text × Map PeerConfig) (o : Outcome Reader)
    → read_lines 1 (lines text) start ≡ o
    → and_then o flush ≡ ok q
    → IsSorted q.1
      × ((name : Text) → HasHeader name (lines text) → IsPeer name → IsPresent name q.1)
parsed text q (ok r') e h =
    let l = lines-Leads 1 (lines text) r' q h start e in (l.flushed.keeps.0 tt, l.headers)
parsed text q (err x) e h = cc
parsed text q panics e h = cc

-- Where parse_ini returns, the peers are in the order of their names, and every section of the text
-- but [mesh] is present: its name has a canonical form, there is a peer under that, and the name is
-- that form or one of the peer's aliases. Later sections never take this away.
pub parse_ini-IsPresent :
    (text : Text) (q : Text × Map PeerConfig)
    → parse_ini text ≡ ok q
    → IsSorted q.1
      × ((name : Text) → HasHeader name (lines text) → IsPeer name → IsPresent name q.1)
unfolding parse_ini
parse_ini-IsPresent text q h = parsed text q (read_lines 1 (lines text) start) refl h
