-- ===== src/Peers/Printer/Reads.antt =====
-- The parser's view of the printed lines.
use convergio_mesh.Prelude.{
  ℕ, ◌≡◌, refl, sym, ap, ◌∙◌, false, ◌||◌, [], ◌∷◌, ◌++◌, some, arith, ◌==◌,
}
use convergio_mesh.Prelude.Text.{Text, has, starts_with}
use convergio_mesh.Prelude.Text.Trim.{
  trim, trim_start, trim_end, push_front, is_whitespace, trim_end_idem,
}
use convergio_mesh.Prelude.Text.Lines.{split_once, before}
use convergio_mesh.Peers.Ini.{header, entry, ends_with, drop_last, inner, entry_of, classify}
use convergio_mesh.Peers.Printer.{entry_line, header_line}
use convergio_mesh.Peers.Printer.Lines.{IsPlain, has-cons}
use convergio_mesh.Peers.Printer.Values.{IsValue, push_front-black}

push_front-cons : (c d : ℕ) (ds : Text) → push_front c (d ∷ ds) ≡ c ∷ d ∷ ds
unfolding push_front
push_front-cons c d ds = refl

pub trim_end-append :
    (a : Text) (x : ℕ) (v : Text)
    → is_whitespace x ≡ false
    → trim_end v ≡ v
    → trim_end (a ++ x ∷ v) ≡ a ++ x ∷ v
unfolding trim_end
trim_end-append [] x v h t = rw t (push_front-black x v h)
trim_end-append (c ∷ []) x v h t = rw (trim_end-append [] x v h t) (push_front-cons c x v)
trim_end-append (c ∷ d ∷ ds) x v h t =
    rw (trim_end-append (d ∷ ds) x v h t) (push_front-cons c d (ds ++ x ∷ v))

pub trim-trim_end : (v : Text) → trim v ≡ v → trim_end v ≡ v
unfolding trim
trim-trim_end v h = ap trim_end (sym h) ∙ trim_end_idem (trim_start v) ∙ h

split_once-append :
    (key v : Text) → has b'=' key ≡ false → split_once b'=' (key ++ b'=' ∷ v) ≡ some (key, v)
unfolding split_once has before
split_once-append [] v h = refl
split_once-append (c ∷ cs) v h =
    let (apart, later) = has-cons b'=' c cs h in rw (apart, split_once-append cs v later) refl

-- A key of the file: not empty, a plain and trimmed text without `=` that starts neither a comment
-- nor a section.
abbrev pub IsKey : Text → Type 0
IsKey [] = ⊥
IsKey (c ∷ cs) =
    (is_whitespace c ≡ false)
    × ((b'#' == c) ≡ false)
    × ((b'[' == c) ≡ false)
    × (has b'=' (c ∷ cs) ≡ false)
    × (trim (c ∷ cs) ≡ c ∷ cs)
    × IsPlain (c ∷ cs)

pub trim_start-black : (c : ℕ) (cs : Text) → is_whitespace c ≡ false → trim_start (c ∷ cs) ≡ c ∷ cs
unfolding trim_start
trim_start-black c cs h = rw h refl

pub entry_line-trim :
    (key v : Text) → IsKey key → IsValue v → trim (entry_line (key, v)) ≡ entry_line (key, v)
unfolding trim entry_line is_whitespace
entry_line-trim [] v k h = elim k [ ]
entry_line-trim (c ∷ cs) v k h =
    ap trim_end (trim_start-black c (cs ++ b'=' ∷ v) k.0)
    ∙ trim_end-append (c ∷ cs) b'=' v refl (trim-trim_end v h.1)

pub entry_line-classify :
    (key v : Text) → IsKey key → IsValue v → classify (entry_line (key, v)) ≡ entry key v
unfolding classify entry_line starts_with entry_of
entry_line-classify [] v k h = elim k [ ]
entry_line-classify (c ∷ cs) v k h = rw (k.1, k.2, split_once-append (c ∷ cs) v k.3, k.4, h.1) refl

pub has-append : (k : ℕ) (xs ys : Text) → has k (xs ++ ys) ≡ (has k xs || has k ys)
unfolding has
has-append k [] ys = refl
has-append k (x ∷ xs) ys = ground (arith, has-append k xs ys)

pub entry_line-IsPlain : (key v : Text) → IsKey key → IsValue v → IsPlain (entry_line (key, v))
unfolding entry_line has
entry_line-IsPlain [] v k h = elim k [ ]
entry_line-IsPlain (c ∷ cs) v k h = (
  rw (has-append 0x0A (c ∷ cs) (b'=' ∷ v), k.5.0, h.0.0) refl,
  rw (has-append 0x0D (c ∷ cs) (b'=' ∷ v), k.5.1, h.0.1) refl,
)

ends_with-append : (c : ℕ) (t : Text) (d : ℕ) → ends_with c (t ++ d ∷ []) ≡ (d == c)
unfolding ends_with
ends_with-append c [] d = refl
ends_with-append c (x ∷ []) d = refl
ends_with-append c (x ∷ y ∷ ys) d = ends_with-append c (y ∷ ys) d

drop_last-append : (t : Text) (d : ℕ) → drop_last (t ++ d ∷ []) ≡ t
unfolding drop_last
drop_last-append [] d = refl
drop_last-append (x ∷ []) d = refl
drop_last-append (x ∷ y ∷ ys) d = ap (λ (t : Text). x ∷ t) (drop_last-append (y ∷ ys) d)

pub header_line-trim : (name : Text) → trim (header_line name) ≡ header_line name
unfolding trim header_line is_whitespace trim_end
header_line-trim name =
    ap trim_end (trim_start-black b'[' (name ++ b']' ∷ []) refl)
    ∙ trim_end-append (b'[' ∷ name) b']' [] refl refl

pub header_line-classify : (name : Text) → classify (header_line name) ≡ header name
unfolding classify header_line inner starts_with
header_line-classify name =
    rw (ends_with-append b']' (b'[' ∷ name) b']', drop_last-append name b']') refl

pub header_line-IsPlain : (name : Text) → IsPlain name → IsPlain (header_line name)
unfolding header_line has
header_line-IsPlain name h = (
  rw (has-append 0x0A name (b']' ∷ []), h.0) refl,
  rw (has-append 0x0D name (b']' ∷ []), h.1) refl,
)
