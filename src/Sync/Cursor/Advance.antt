-- ===== src/Sync/Cursor/Advance.antt =====
-- The cursor is the least upper bound of the previous cursor and of the capped maxima.
use mathlib.Core.Option
use mathlib.Core.Option.{some-injective}
use convergio_mesh.Prelude.{Option, none, some, ◌≡◌, subst, ◌↔◌, ◌⊎◌, inl, arith, if◌then◌else◌}
use convergio_mesh.Prelude.Text.{Text, text_ltb, ◌≼◌}
use convergio_mesh.Prelude.Text.Order.{
  Within, text_ltb_irrefl, text_ltb_asym, text_ltb_connex, text_ltb_trans, ≼_trans,
}
use convergio_mesh.Sync.Cursor.{cap, compute_new_cursor}

-- A cap is the greatest lower bound of the timestamp and the start of the round.
abbrev pub capped : Text → Option Text → Option Text
capped s o = Option.map (λ c. if text_ltb c s then c else s) o

abbrev later : Text → Text → Text
later a b = if text_ltb a b then b else a

later_lub : (a b u : Text) → (later a b ≼ u) ↔ ((a ≼ u) × (b ≼ u))
later_lub a b u = ground (arith, ≼_trans a b u, ≼_trans b a u, text_ltb_asym a b)

later-cap : (s a b : Text) → cap s (later a b) ≡ later (cap s a) (cap s b)
unfolding cap
later-cap s a b = ground (
  arith,
  text_ltb_irrefl s,
  text_ltb_trans a b s,
  text_ltb_trans b s a,
  text_ltb_trans b a s,
  text_ltb_asym a s,
  text_ltb_asym b s,
  text_ltb_connex a s,
  text_ltb_connex a b,
)

later_three :
    (s p x y u : Text)
    → (later (cap s (later x y)) p ≼ u) ↔ ((p ≼ u) × (cap s x ≼ u) × (cap s y ≼ u))
later_three s p x y u = rw later-cap (
    (
      λ h.
          let (xy, below) = (later_lub (later (cap s x) (cap s y)) p u).0 h in
          let (first, second) = (later_lub (cap s x) (cap s y) u).0 xy in (below, first, second),
      λ h.
          (later_lub (later (cap s x) (cap s y)) p u).1
            ((later_lub (cap s x) (cap s y) u).1 (h.1, h.2), h.0),
    ))

-- For every u, the new cursor is at most u exactly when the previous cursor, the capped exported
-- maximum and the capped applied maximum are; an absent value is less than every text.
pub cursor_lub :
    (prev e a : Option Text) (s : Text) (u : Option Text)
    → Within u (compute_new_cursor prev e a s)
      ↔ (Within u prev × Within u (capped s e) × Within u (capped s a))
unfolding compute_new_cursor
cursor_lub none none none s u = (λ h. (tt, tt, tt), λ h. tt)
cursor_lub none none (some y) s u = (λ h. (tt, tt, h), λ h. h.2)
cursor_lub none (some x) none s u = (λ h. (tt, h, tt), λ h. h.1)
cursor_lub none (some x) (some y) s none = (λ h. elim h [ ], λ h. h.1)
cursor_lub none (some x) (some y) s (some u) = rw later-cap (
    let both = later_lub (cap s x) (cap s y) u in
    (λ h. (tt, (both.0 h).0, (both.0 h).1), λ h. both.1 (h.1, h.2)))
cursor_lub (some p) none none s u = rw text_ltb_irrefl ((λ h. (h, tt, tt), λ h. h.0))
cursor_lub (some p) none (some y) s none = (λ h. elim h [ ], λ h. h.0)
cursor_lub (some p) (some x) none s none = (λ h. elim h [ ], λ h. h.0)
cursor_lub (some p) (some x) (some y) s none = (λ h. elim h [ ], λ h. h.0)
cursor_lub (some p) none (some y) s (some u) =
    let both = later_lub (cap s y) p u in
    (λ h. ((both.0 h).1, tt, (both.0 h).0), λ h. both.1 (h.2, h.0))
cursor_lub (some p) (some x) none s (some u) =
    let both = later_lub (cap s x) p u in
    (λ h. ((both.0 h).1, (both.0 h).0, tt), λ h. both.1 (h.1, h.0))
cursor_lub (some p) (some x) (some y) s (some u) = later_three s p x y u

-- There is a new cursor unless there was none and nothing was exchanged.
pub cursor-eq-none_iff :
    (prev e a : Option Text) (s : Text)
    → (compute_new_cursor prev e a s ≡ none) ↔ ((prev ≡ none) × (e ≡ none) × (a ≡ none))
unfolding compute_new_cursor
cursor-eq-none_iff prev e a s = ground arith

cap-le : (s x : Text) → cap s x ≼ s
unfolding cap
cap-le s x = ground (arith, text_ltb_asym x s, text_ltb_irrefl s)

later_bounds :
    (s p x : Text) → x ≼ s → (p ≼ later x p) × ((later x p ≼ s) ⊎ (some p ≡ some (later x p)))
later_bounds s p x h = ground (arith, text_ltb_irrefl p)

-- The cursor `c` is not behind `prev`, and not past `s` unless `prev` is `c`.
abbrev pub IsBounded : Option Text → Text → Text → Type 0
IsBounded prev s c = Within (some c) prev × ((c ≼ s) ⊎ (prev ≡ some c))

-- The new cursor is not behind the previous one, and it is past the start of the round only if the
-- previous cursor already stood at that place.
pub cursor_bounds :
    (prev e a : Option Text) (s : Text) {c : Text}
    → compute_new_cursor prev e a s ≡ some c
    → IsBounded prev s c
unfolding compute_new_cursor
cursor_bounds none none none s {c} h = cc
cursor_bounds none none (some y) s {c} h =
    subst (IsBounded none s) (some-injective _ _ h) (tt, inl (cap-le s y))
cursor_bounds none (some x) none s {c} h =
    subst (IsBounded none s) (some-injective _ _ h) (tt, inl (cap-le s x))
cursor_bounds none (some x) (some y) s {c} h =
    subst (IsBounded none s) (some-injective _ _ h) (tt, inl (cap-le s (later x y)))
cursor_bounds (some p) none none s {c} h = ground (arith, text_ltb_irrefl p)
cursor_bounds (some p) none (some y) s {c} h =
    subst (IsBounded (some p) s) (some-injective _ _ h) (later_bounds s p (cap s y) (cap-le s y))
cursor_bounds (some p) (some x) none s {c} h =
    subst (IsBounded (some p) s) (some-injective _ _ h) (later_bounds s p (cap s x) (cap-le s x))
cursor_bounds (some p) (some x) (some y) s {c} h =
    subst (IsBounded (some p) s) (some-injective _ _ h)
      (later_bounds s p (cap s (later x y)) (cap-le s (later x y)))
