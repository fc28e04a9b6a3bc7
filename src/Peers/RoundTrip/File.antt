-- ===== src/Peers/RoundTrip/File.antt =====
-- The text of a registry, line by line.
use mathlib.Core.List
use mathlib.Core.List.{map-append}
use convergio_mesh.Prelude.{
  ℕ, ◌+◌, ◌≡◌, refl, ap, ap₂, ◌∙◌, sym, List, [], ◌∷◌, ◌++◌, All, append_assoc, subst,
}
use convergio_mesh.Prelude.Text.{Text, codes, has}
use convergio_mesh.Prelude.Text.Trim.{trim, is_whitespace}
use convergio_mesh.Prelude.Text.Lines.{lines}
use convergio_mesh.Prelude.Map.{Map}
use convergio_mesh.Peers.Config.{Outcome, ok, err, panics, and_then, PeerConfig, PeersRegistry}
use convergio_mesh.Peers.Ini.{
  Line, skip, header, entry, unexpected, classify, Reader, read_line, read_lines,
}
use convergio_mesh.Peers.Printer.{
  sanitize_ini_value, entries, entry_line, header_line, unlines, peer_lines, peer_to_ini,
  save_peers, save,
}
use convergio_mesh.Peers.Printer.Lines.{IsPlain, lines-unlines}
use convergio_mesh.Peers.Printer.Values.{IsValue}
use convergio_mesh.Peers.Printer.Reads.{
  IsKey, entry_line-trim, entry_line-classify, entry_line-IsPlain, header_line-trim,
  header_line-classify,
}
use convergio_mesh.Peers.Printer.Injection.{read, as_entry, peer_lines-IsPlain, peer_lines-read}
use convergio_mesh.Peers.RoundTrip.Fields.{insert_all}

-- What a line does to the reader, without its number.
unfoldable pub run : List Line → Reader → Outcome Reader
run [] r = ok r
run (l ∷ ls) r = and_then (read_line 0 l r) (run ls)

abbrev IsExpected : Line → Type 0
IsExpected (unexpected t) = ⊥
IsExpected _ = Unit

read_line_any : (n : ℕ) (l : Line) (r : Reader) → IsExpected l → read_line n l r ≡ read_line 0 l r
unfolding read_line
read_line_any n skip r h = refl
read_line_any n (header name) r h = refl
read_line_any n (entry key value) r h = refl
read_line_any n (unexpected t) r h = elim h [ ]

and_then-eq :
    {A B : Type 0} (o : Outcome A) (f g : A → Outcome B)
    → ((a : A) → f a ≡ g a)
    → and_then o f ≡ and_then o g
and_then-eq (ok a) f g h = h a
and_then-eq (err e) f g h = refl
and_then-eq panics f g h = refl

pub and_then_assoc :
    {A B C : Type 0} (o : Outcome A) (f : A → Outcome B) (g : B → Outcome C)
    → and_then (and_then o f) g ≡ and_then o (λ a. and_then (f a) g)
and_then_assoc (ok a) f g = refl
and_then_assoc (err e) f g = refl
and_then_assoc panics f g = refl

pub read_lines-run :
    (n : ℕ) (raws : List Text) (r : Reader)
    → All IsExpected (List.map read raws)
    → read_lines n raws r ≡ run (List.map read raws) r
unfolding read_lines run
read_lines-run n [] r h = refl
read_lines-run n (raw ∷ raws) r h =
    ap (λ o. and_then o (read_lines (n + 1) raws)) (read_line_any n (read raw) r h.0)
    ∙ and_then-eq (read_line 0 (read raw) r) (read_lines (n + 1) raws) (run (List.map read raws))
        (λ q. read_lines-run (n + 1) raws q h.1)

pub run-append : (xs ys : List Line) (r : Reader) → run (xs ++ ys) r ≡ and_then (run xs r) (run ys)
unfolding run
run-append [] ys r = refl
run-append (x ∷ xs) ys r =
    and_then-eq (read_line 0 x r) (run (xs ++ ys)) (λ q. and_then (run xs q) (run ys))
      (λ q. run-append xs ys q)
    ∙ sym (and_then_assoc (read_line 0 x r) (run xs) (run ys))

pub run-entries :
    (es : List (Text × Text)) (r : Reader)
    → run (List.map as_entry es) r ≡ ok (record r { current_kv = insert_all es r.current_kv })
unfolding run read_line insert_all
run-entries [] r = refl
run-entries ((key, value) ∷ es) r = run-entries es _

-- The lines of the file.
peers_lines : Map PeerConfig → List Text
peers_lines [] = []
peers_lines ((name, cfg) ∷ rest) = [] ∷ (peer_lines name cfg ++ peers_lines rest)

secret_entry : Text → Text × Text
secret_entry secret = (codes "shared_secret", secret)

file_lines : PeersRegistry → List Text
unfolding secret_entry
file_lines r =
    header_line (codes "mesh") ∷ entry_line (secret_entry r.shared_secret) ∷ peers_lines r.peers

unlines-append : (xs ys : List Text) → unlines (xs ++ ys) ≡ unlines xs ++ unlines ys
unfolding unlines
unlines-append [] ys = refl
unlines-append (x ∷ xs) ys =
    ap (λ t. x ++ 0x0A ∷ t) (unlines-append xs ys)
    ∙ sym (append_assoc x (0x0A ∷ unlines xs) (unlines ys))

save_peers-unlines : (peers : Map PeerConfig) → save_peers peers ≡ unlines (peers_lines peers)
unfolding save_peers peers_lines unlines peer_to_ini
save_peers-unlines [] = refl
save_peers-unlines ((name, cfg) ∷ rest) =
    ap (λ (t : Text). 0x0A ∷ t)
      (ap (λ (t : Text). unlines (peer_lines name cfg) ++ t) (save_peers-unlines rest)
        ∙ sym (unlines-append (peer_lines name cfg) (peers_lines rest)))

save-unlines : (r : PeersRegistry) → save r ≡ unlines (file_lines r)
unfolding save file_lines unlines header_line entry_line secret_entry
save-unlines r =
    ap (λ (t : Text). codes "[mesh]\nshared_secret=" ++ (r.shared_secret ++ 0x0A ∷ t))
      (save_peers-unlines r.peers)

All-append {ℓ κ} :
    {A : Type ℓ} (P : A → Type κ) (xs ys : List A) → All P xs → All P ys → All P (xs ++ ys)
All-append P [] ys h k = k
All-append P (x ∷ xs) ys h k = (h.0, All-append P xs ys h.1 k)

peers_lines-IsPlain : (peers : Map PeerConfig) → All IsPlain (peers_lines peers)
unfolding peers_lines has
peers_lines-IsPlain [] = tt
peers_lines-IsPlain ((name, cfg) ∷ rest) = (
  (refl, refl),
  All-append IsPlain (peer_lines name cfg) (peers_lines rest) (peer_lines-IsPlain name cfg)
      (peers_lines-IsPlain rest),
)

secret-IsKey : IsKey (codes "shared_secret")
unfolding is_whitespace has trim
secret-IsKey = (refl, refl, refl, refl, refl, (refl, refl))

file_lines-IsPlain : (r : PeersRegistry) → IsValue r.shared_secret → All IsPlain (file_lines r)
unfolding file_lines header_line has secret_entry
file_lines-IsPlain r h = (
  (refl, refl),
  (
    entry_line-IsPlain (codes "shared_secret") r.shared_secret secret-IsKey h,
    peers_lines-IsPlain r.peers,
  ),
)

-- What the parser reads.
unfoldable pub peers_read : Map PeerConfig → List Line
peers_read [] = []
peers_read ((name, cfg) ∷ rest) =
    skip ∷ header (sanitize_ini_value name) ∷ (List.map as_entry (entries cfg) ++ peers_read rest)

empty_read : read [] ≡ skip
unfolding classify trim
empty_read = refl

peers_lines-read : (peers : Map PeerConfig) → List.map read (peers_lines peers) ≡ peers_read peers
unfolding peers_lines peers_read
peers_lines-read [] = refl
peers_lines-read ((name, cfg) ∷ rest) =
    ap₂ (λ (x : Line) (xs : List Line). x ∷ xs) empty_read
      (map-append read (peer_lines name cfg) (peers_lines rest)
        ∙ ap₂ (λ (xs ys : List Line). xs ++ ys) (peer_lines-read name cfg) (peers_lines-read rest))

mesh_read : read (header_line (codes "mesh")) ≡ header (codes "mesh")
mesh_read = ap classify (header_line-trim (codes "mesh")) ∙ header_line-classify (codes "mesh")

file_lines-read :
    (r : PeersRegistry)
    → IsValue r.shared_secret
    → List.map read (file_lines r)
      ≡ header (codes "mesh") ∷ entry (codes "shared_secret") r.shared_secret ∷ peers_read r.peers
unfolding file_lines secret_entry
file_lines-read r h =
    ap₂ (λ (x : Line) (xs : List Line). x ∷ xs) mesh_read
      (ap₂ (λ (x : Line) (xs : List Line). x ∷ xs)
        (ap classify (entry_line-trim (codes "shared_secret") r.shared_secret secret-IsKey h)
          ∙ entry_line-classify (codes "shared_secret") r.shared_secret secret-IsKey h)
        (peers_lines-read r.peers))

entries-IsExpected : (es : List (Text × Text)) → All IsExpected (List.map as_entry es)
entries-IsExpected [] = tt
entries-IsExpected ((key, value) ∷ es) = (tt, entries-IsExpected es)

peers_read-IsExpected : (peers : Map PeerConfig) → All IsExpected (peers_read peers)
unfolding peers_read
peers_read-IsExpected [] = tt
peers_read-IsExpected ((name, cfg) ∷ rest) = (
  tt,
  (
    tt,
    All-append IsExpected (List.map as_entry (entries cfg)) (peers_read rest)
        (entries-IsExpected (entries cfg)) (peers_read-IsExpected rest),
  ),
)

-- The whole text, as the reader goes through it.
pub read_lines-save :
    (n : ℕ) (r : PeersRegistry) (q : Reader)
    → IsValue r.shared_secret
    → read_lines n (lines (save r)) q
      ≡ run
          (header (codes "mesh")
            ∷ entry (codes "shared_secret") r.shared_secret
            ∷ peers_read r.peers)
          q
read_lines-save n r q h =
    ap (λ ts. read_lines n (lines ts) q) (save-unlines r)
    ∙ ap (λ ts. read_lines n ts q) (lines-unlines (file_lines r) (file_lines-IsPlain r h))
    ∙ read_lines-run n (file_lines r) q (
        subst (All IsExpected) (sym (file_lines-read r h))
          (tt, (tt, peers_read-IsExpected r.peers)))
    ∙ ap (λ ls. run ls q) (file_lines-read r h)
