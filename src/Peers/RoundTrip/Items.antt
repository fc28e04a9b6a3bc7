-- ===== src/Peers/RoundTrip/Items.antt =====
-- The lists of peers.conf: capabilities and aliases, joined by commas.
use mathlib.Core.List
use convergio_mesh.Prelude.{
  ℕ, ◌≡◌, refl, ap, ◌∙◌, false, ◌&&◌, not, List, [], ◌∷◌, is_empty, keep, All, ◌==◌,
}
use convergio_mesh.Prelude.Text.{Text, codes, has, join}
use convergio_mesh.Prelude.Text.Trim.{trim, trim_start, trim_end, is_whitespace, trimmed_first}
use convergio_mesh.Prelude.Text.Lines.{split, cons_first}
use convergio_mesh.Peers.Parser.{parse_capabilities}
use convergio_mesh.Peers.Printer.{sanitize_ini_value}
use convergio_mesh.Peers.Printer.Lines.{IsPlain, has-cons, split-append}
use convergio_mesh.Peers.Printer.Values.{IsValue}
use convergio_mesh.Peers.Printer.Reads.{
  trim_end-append, trim-trim_end, trim_start-black, has-append,
}

-- A value is printed as it is.
keep-plain : (t : Text) → IsPlain t → keep (λ c. not (c == 0x0A) && not (c == 0x0D)) t ≡ t
keep-plain [] h = refl
keep-plain (c ∷ cs) h =
    let (a, p) = has-cons 0x0A c cs h.0 in
    let (b, q) = has-cons 0x0D c cs h.1 in rw (a, b, keep-plain cs (p, q)) refl

pub sanitize-value : (t : Text) → IsValue t → sanitize_ini_value t ≡ t
unfolding sanitize_ini_value
sanitize-value t h = ap trim (keep-plain t h.0) ∙ h.1

-- An item of a list: a value, not empty, without a comma.
abbrev pub IsItem : Text → Type 0
IsItem t = (is_empty t ≡ false) × (has b',' t ≡ false) × IsValue t

not_empty : ¬ (is_empty {A = ℕ} [] ≡ false)
not_empty h = cc

split-none : (t : Text) → has b',' t ≡ false → split b',' t ≡ t ∷ []
unfolding split cons_first
split-none [] h = refl
split-none (c ∷ cs) h =
    let (apart, later) = has-cons b',' c cs h in rw (apart, split-none cs later) refl

split-join :
    (x : Text) (xs : List Text)
    → All IsItem (x ∷ xs)
    → split b',' (join (codes ",") (x ∷ xs)) ≡ x ∷ xs
unfolding join
split-join x [] h = split-none x h.0.1
split-join x (y ∷ ys) h =
    split-append b',' x (join (codes ",") (y ∷ ys)) h.0.1
    ∙ ap (λ (ts : List Text). x ∷ ts) (split-join y ys h.1)

keep-items : (xs : List Text) → All IsItem xs → keep (λ s. not (is_empty s)) (List.map trim xs) ≡ xs
keep-items [] h = refl
keep-items (x ∷ xs) h = rw (h.0.2.1, h.0.0, keep-items xs h.1) refl

parse_nonempty :
    (x : Text) (xs : List Text)
    → All IsItem (x ∷ xs)
    → parse_capabilities (join (codes ",") (x ∷ xs)) ≡ x ∷ xs
unfolding parse_capabilities
parse_nonempty x xs h =
    ap (λ (ts : List Text). keep (λ s. not (is_empty s)) (List.map trim ts)) (split-join x xs h)
    ∙ keep-items (x ∷ xs) h

-- What is joined is parsed again.
pub parse-join : (xs : List Text) → All IsItem xs → parse_capabilities (join (codes ",") xs) ≡ xs
unfolding parse_capabilities join split trim
parse-join [] h = refl
parse-join (x ∷ xs) h = parse_nonempty x xs h

has-join :
    (k : ℕ) (xs : List Text)
    → (b',' == k) ≡ false
    → All (λ (x : Text). has k x ≡ false) xs
    → has k (join (codes ",") xs) ≡ false
unfolding join has
has-join k [] c h = refl
has-join k (x ∷ []) c h = h.0
has-join k (x ∷ y ∷ ys) c h =
    rw (has-append k x (b',' ∷ join (codes ",") (y ∷ ys)), h.0, c) (has-join k (y ∷ ys) c h.1)

items-has :
    (xs : List Text)
    → All IsItem xs
    → All (λ (x : Text). has 0x0A x ≡ false) xs × All (λ (x : Text). has 0x0D x ≡ false) xs
items-has [] h = (tt, tt)
items-has (x ∷ xs) h = let (a, b) = items-has xs h.1 in ((h.0.2.0.0, a), (h.0.2.0.1, b))

trim_end-join :
    (x : Text) (xs : List Text)
    → All IsItem (x ∷ xs)
    → trim_end (join (codes ",") (x ∷ xs)) ≡ join (codes ",") (x ∷ xs)
unfolding join is_whitespace
trim_end-join x [] h = trim-trim_end x h.0.2.1
trim_end-join x (y ∷ ys) h =
    trim_end-append x b',' (join (codes ",") (y ∷ ys)) refl (trim_end-join y ys h.1)

trim_start-join :
    (x : Text) (xs : List Text)
    → All IsItem (x ∷ xs)
    → trim_start (join (codes ",") (x ∷ xs)) ≡ join (codes ",") (x ∷ xs)
unfolding join
trim_start-join [] xs h = absurd (not_empty h.0.0)
trim_start-join (c ∷ cs) [] h = trim_start-black c cs (trimmed_first c cs h.0.2.1)
trim_start-join (c ∷ cs) (y ∷ ys) h = trim_start-black c _ (trimmed_first c cs h.0.2.1)

-- The list is one value of the file.
pub join-IsValue : (xs : List Text) → All IsItem xs → IsValue (join (codes ",") xs)
unfolding join trim has
join-IsValue [] h = ((refl, refl), refl)
join-IsValue (x ∷ xs) h =
    let (a, b) = items-has (x ∷ xs) h in
    (
      (has-join 0x0A (x ∷ xs) refl a, has-join 0x0D (x ∷ xs) refl b),
      ap trim_end (trim_start-join x xs h) ∙ trim_end-join x xs h,
    )
