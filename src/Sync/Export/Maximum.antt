-- ===== src/Sync/Export/Maximum.antt =====
-- The maximum that the cursor is computed from bounds every exported timestamp.
use convergio_mesh.Prelude.{
  List, [], ◌∷◌, Option, none, some, All, ◌↔◌, cons_some, if◌then◌else◌, keep_map,
}
use convergio_mesh.Prelude.Text.{Text, text_ltb}
use convergio_mesh.Prelude.Text.Order.{Within, larger_lub}
use convergio_mesh.Sync.Types.{SyncChange}
use convergio_mesh.Sync.Export.{change_updated_at, maximum, max_updated_at}

-- `maximum` is the least upper bound of the timestamps.
pub maximum_lub :
    (xs : List Text) (u : Option Text) → Within u (maximum xs) ↔ All (λ x. Within u (some x)) xs
unfolding maximum
maximum_lub [] u = (λ w. tt, λ a. tt)
maximum_lub (x ∷ xs) u = larger (maximum xs) (maximum_lub xs u)
  where
    larger :
        (o : Option Text)
        → Within u o ↔ All (λ y. Within u (some y)) xs
        → Within u (elim o [ none ↦ some x | some m ↦ some (if text_ltb m x then x else m) ])
          ↔ (Within u (some x) × All (λ y. Within u (some y)) xs)
    larger none h = (λ w. (w, h.0 tt), λ b. b.0)
    larger (some m) h =
        let both = larger_lub m x u in
        (λ w. ((both.0 w).1, h.0 (both.0 w).0), λ b. both.1 (h.1 b.1, b.0))

-- The maximum is at most u exactly when every timestamp that a change carries is.
pub max_updated_at_lub :
    (xs : List SyncChange) (u : Option Text)
    → Within u (max_updated_at xs) ↔ All (λ x. Within u (change_updated_at x)) xs
unfolding max_updated_at
max_updated_at_lub [] u = maximum_lub [] u
max_updated_at_lub (x ∷ xs) u = carried (change_updated_at x) (max_updated_at_lub xs u)
  where
    carried :
        (o : Option Text)
        → Within u (maximum (keep_map change_updated_at xs))
          ↔ All (λ y. Within u (change_updated_at y)) xs
        → Within u (maximum (cons_some o (keep_map change_updated_at xs)))
          ↔ (Within u o × All (λ y. Within u (change_updated_at y)) xs)
    carried none h = (λ w. (tt, h.0 w), λ b. h.1 b.1)
    carried (some t) h =
        let all_of = maximum_lub (t ∷ keep_map change_updated_at xs) u in
        let rest = maximum_lub (keep_map change_updated_at xs) u in
        (λ w. ((all_of.0 w).0, h.0 (rest.1 (all_of.0 w).1)), λ b. all_of.1 (b.0, rest.0 (h.1 b.1)))
