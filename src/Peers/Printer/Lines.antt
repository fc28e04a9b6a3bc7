-- ===== src/Peers/Printer/Lines.antt =====
-- What the printed text is when it is read line by line.
use convergio_mesh.Prelude.{
  ℕ, ◌≡◌, refl, ap, false, List, [], ◌∷◌, ◌++◌, arith, All, ◌==◌, ==_iff, is_empty, true,
}
use convergio_mesh.Prelude.Text.{Text, has}
use convergio_mesh.Prelude.Text.Lines.{cons_first, split, strip_return, as_lines, lines}
use convergio_mesh.Peers.Printer.{unlines}

-- No newline and no carriage return.
abbrev pub IsPlain : Text → Type 0
IsPlain t = (has 0x0A t ≡ false) × (has 0x0D t ≡ false)

pub has-cons :
    (k c : ℕ) (cs : Text) → has k (c ∷ cs) ≡ false → ((c == k) ≡ false) × (has k cs ≡ false)
unfolding has
has-cons k c cs h = ground arith

==_refl : (k : ℕ) → (k == k) ≡ true
==_refl k = (==_iff k k).1 refl

pub split-append :
    (k : ℕ) (t rest : Text) → has k t ≡ false → split k (t ++ k ∷ rest) ≡ t ∷ split k rest
unfolding split has cons_first
split-append k [] rest h = rw (==_refl k) refl
split-append k (c ∷ cs) rest h =
    let (apart, later) = has-cons k c cs h in rw (apart, split-append k cs rest later) refl

strip_return-plain : (t : Text) → has 0x0D t ≡ false → strip_return t ≡ t
unfolding strip_return has
strip_return-plain [] h = refl
strip_return-plain (c ∷ []) h = ground arith
strip_return-plain (c ∷ d ∷ ds) h =
    ap (λ (t : Text). c ∷ t) (strip_return-plain (d ∷ ds) (has-cons 0x0D c (d ∷ ds) h).1)

as_lines-cons :
    (t : Text) (ps : List Text)
    → is_empty ps ≡ false
    → as_lines (t ∷ ps) ≡ strip_return t ∷ as_lines ps
unfolding as_lines
as_lines-cons t [] h = cc
as_lines-cons [] (p ∷ ps) h = refl
as_lines-cons (c ∷ cs) (p ∷ ps) h = refl

cons_first-is_empty : (c : ℕ) (ps : List Text) → is_empty (cons_first c ps) ≡ false
unfolding cons_first
cons_first-is_empty c [] = refl
cons_first-is_empty c (p ∷ ps) = refl

split-is_empty : (k : ℕ) (t : Text) → is_empty (split k t) ≡ false
unfolding split
split-is_empty k [] = refl
split-is_empty k (c ∷ cs) = ground (arith, cons_first-is_empty c (split k cs))

-- Lines without newlines and carriage returns are what the text of them is read as.
pub lines-unlines : (ts : List Text) → All IsPlain ts → lines (unlines ts) ≡ ts
unfolding lines unlines
lines-unlines [] h = refl
lines-unlines (t ∷ ts) h =
    rw
      (
        split-append 0x0A t (unlines ts) h.0.0,
        as_lines-cons t (split 0x0A (unlines ts)) (split-is_empty 0x0A (unlines ts)),
        strip_return-plain t h.0.1,
      )
      (ap (λ (us : List Text). t ∷ us) (lines-unlines ts h.1))
