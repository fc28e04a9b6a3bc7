-- ===== src/Peers/Name/Collapse.antt =====
-- Which names are one identity.
use mathlib.Core.Option
use convergio_mesh.Prelude.{
  ℕ, ◌+◌, ◌-◌, ◌<◌, ◌≡◌, refl, sym, ap, ◌∙◌, Bool, true, false, [], ◌∷◌, ◌++◌, Option, none, some,
  arith, leb, ◌==◌, Bool-cases, inl, inr, if◌then◌else◌,
}
use convergio_mesh.Prelude.Text.{Text, codes, len, len_utf8, lower, lowercase, eq_ignore_case}
use convergio_mesh.Prelude.Text.Order.{text_eq_iff}
use convergio_mesh.Prelude.Text.Trim.{trim, trim_start, trim_end, push_front, is_whitespace}
use convergio_mesh.Peers.Name.{cons_left, split_at, strip_local, stripped, canonical_peer_name}

lower-lower : (c : ℕ) → lower (lower c) ≡ lower c
unfolding lower
lower-lower c = ground arith

len_utf8-lower : (c : ℕ) → len_utf8 (lower c) ≡ len_utf8 c
unfolding lower len_utf8
len_utf8-lower c = ground arith

is_whitespace-lower : (c : ℕ) → is_whitespace (lower c) ≡ is_whitespace c
unfolding lower is_whitespace
is_whitespace-lower c = ground arith

lowercase_idem : (t : Text) → lowercase (lowercase t) ≡ lowercase t
unfolding lowercase
lowercase_idem [] = refl
lowercase_idem (c ∷ cs) = rw (lower-lower c, lowercase_idem cs) refl

len-lowercase : (t : Text) → len (lowercase t) ≡ len t
unfolding len lowercase
len-lowercase [] = refl
len-lowercase (c ∷ cs) = rw (len_utf8-lower c, len-lowercase cs) refl

trim_start-lowercase : (t : Text) → trim_start (lowercase t) ≡ lowercase (trim_start t)
unfolding trim_start lowercase
trim_start-lowercase [] = refl
trim_start-lowercase (c ∷ cs) = ground (arith, is_whitespace-lower c, trim_start-lowercase cs)

push_front-lowercase :
    (c : ℕ) (t : Text) → push_front (lower c) (lowercase t) ≡ lowercase (push_front c t)
unfolding push_front lowercase
push_front-lowercase c [] = ground (arith, is_whitespace-lower c)
push_front-lowercase c (x ∷ xs) = refl

trim_end-lowercase : (t : Text) → trim_end (lowercase t) ≡ lowercase (trim_end t)
unfolding trim_end lowercase
trim_end-lowercase [] = refl
trim_end-lowercase (c ∷ cs) = rw (trim_end-lowercase cs, push_front-lowercase c (trim_end cs)) refl

trim-lowercase : (t : Text) → trim (lowercase t) ≡ lowercase (trim t)
unfolding trim
trim-lowercase t = rw (trim_start-lowercase t, trim_end-lowercase (trim_start t)) refl

abbrev both_lowercase : Text × Text → Text × Text
both_lowercase (a, b) = (lowercase a, lowercase b)

split_step-lowercase :
    (a b : Bool) (c : ℕ) (cs : Text) (o : Option (Text × Text))
    → (if a
        then some ([], lowercase (c ∷ cs))
        else if b
        then Option.map (cons_left (lower c)) (Option.map both_lowercase o)
        else none)
      ≡ Option.map both_lowercase
          (if a then some ([], c ∷ cs) else if b then Option.map (cons_left c) o else none)
unfolding lowercase
split_step-lowercase true b c cs o = refl
split_step-lowercase false true c cs (some p) = refl
split_step-lowercase false true c cs none = refl
split_step-lowercase false false c cs o = refl

split_at-lowercase :
    (n : ℕ) (t : Text) → split_at n (lowercase t) ≡ Option.map both_lowercase (split_at n t)
unfolding split_at lowercase
split_at-lowercase n [] = ground arith
split_at-lowercase n (c ∷ cs) =
    rw (len_utf8-lower c, split_at-lowercase (n - len_utf8 c) cs)
      (split_step-lowercase (n == 0) (leb (len_utf8 c) n) c cs (split_at (n - len_utf8 c) cs))

strip_local-lowercase :
    (t : Text) (p : Text × Text)
    → lowercase (strip_local (lowercase t) (both_lowercase p)) ≡ lowercase (strip_local t p)
unfolding strip_local eq_ignore_case
strip_local-lowercase t (a, b) =
    ground (arith, lowercase_idem a, lowercase_idem b, lowercase_idem t)

map_strip-lowercase :
    (t : Text) (o : Option (Text × Text))
    → Option.map lowercase (Option.map (strip_local (lowercase t)) (Option.map both_lowercase o))
      ≡ Option.map lowercase (Option.map (strip_local t) o)
map_strip-lowercase t none = refl
map_strip-lowercase t (some p) = ap some (strip_local-lowercase t p)

stripped-lowercase :
    (t : Text) → Option.map lowercase (stripped (lowercase t)) ≡ Option.map lowercase (stripped t)
unfolding stripped
stripped-lowercase t = elim (Bool-cases (leb 6 (len t))) [
  | inl long ↦
      rw (len-lowercase t, long, split_at-lowercase (len t - 6) t)
        (map_strip-lowercase t (split_at (len t - 6) t))
  | inr short ↦ rw (len-lowercase t, short) (ap some (lowercase_idem t))
]

canonical-lowercase : (raw : Text) → canonical_peer_name (lowercase raw) ≡ canonical_peer_name raw
unfolding canonical_peer_name
canonical-lowercase raw = rw (trim-lowercase raw) (stripped-lowercase (trim raw))

-- Names that differ only in the case of ASCII letters have one canonical name, or panic both.
pub canonical_peer_name-case :
    (a b : Text) → eq_ignore_case a b ≡ true → canonical_peer_name a ≡ canonical_peer_name b
unfolding eq_ignore_case
canonical_peer_name-case a b h =
    sym (canonical-lowercase a)
    ∙ ap canonical_peer_name ((text_eq_iff (lowercase a) (lowercase b)).0 h)
    ∙ canonical-lowercase b

split_at-zero : (s : Text) → split_at 0 s ≡ some ([], s)
unfolding split_at
split_at-zero [] = refl
split_at-zero (c ∷ cs) = refl

len_utf8-positive : (c : ℕ) → 0 < len_utf8 c
unfolding len_utf8
len_utf8-positive c = ground arith

split_at-len : (t s : Text) → split_at (len t) (t ++ s) ≡ some (t, s)
unfolding split_at len
split_at-len [] s = split_at-zero s
split_at-len (c ∷ cs) s =
    let more : (len_utf8 c + len cs == 0) ≡ false = ground (arith, len_utf8-positive c) in
    let fits : leb (len_utf8 c) (len_utf8 c + len cs) ≡ true = ground arith in
    let left : len_utf8 c + len cs - len_utf8 c ≡ len cs = omega arith in
    rw (more, fits, left, split_at-len cs s) refl

len-append : (t s : Text) → len (t ++ s) ≡ len t + len s
unfolding len
len-append [] s = omega arith
len-append (c ∷ cs) s = ground (arith, len-append cs s)

local-len : (s : Text) → eq_ignore_case s (codes ".local") ≡ true → len s ≡ 6
unfolding eq_ignore_case len
local-len s h =
    sym (len-lowercase s) ∙ ap len ((text_eq_iff (lowercase s) (codes ".local")).0 h) ∙ refl

stripped-local :
    (name suffix : Text)
    → eq_ignore_case suffix (codes ".local") ≡ true
    → stripped (name ++ suffix) ≡ some name
unfolding stripped strip_local
stripped-local name suffix h =
    let long : leb 6 (len name + 6) ≡ true = ground arith in
    let left : len name + 6 - 6 ≡ len name = omega arith in
    rw (len-append name suffix, local-len suffix h, long, left, split_at-len name suffix, h) refl

-- A name that carries the suffix .local, in any case, has as its canonical name the lower case of
-- what stands before the suffix, whatever characters that holds; the name is to be trimmed.
pub canonical_peer_name-local :
    (name suffix : Text)
    → eq_ignore_case suffix (codes ".local") ≡ true
    → trim (name ++ suffix) ≡ name ++ suffix
    → canonical_peer_name (name ++ suffix) ≡ some (lowercase name)
unfolding canonical_peer_name
canonical_peer_name-local name suffix h t =
    ap (λ x. Option.map lowercase (stripped x)) t
    ∙ ap (Option.map lowercase) (stripped-local name suffix h)
