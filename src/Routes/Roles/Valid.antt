-- ===== src/Routes/Roles/Valid.antt =====
-- The roles that nodes can have.
use convergio_mesh.Prelude.{
  ◌≡◌, ◌≢◌, refl, true, [], Option, none, some, arith, Bool-cases, inl, inr,
}
use mathlib.Core.Option
use convergio_mesh.Prelude.Text.{Text, elem}
use convergio_mesh.Prelude.Text.Order.{text_eq_iff, text_eq_refl}
use convergio_mesh.Prelude.Map.{Map, lookup, insert}
use convergio_mesh.Prelude.Map.Laws.{lookup-insert, IsSorted}
use convergio_mesh.Prelude.Map.Entries.{Values}
use convergio_mesh.Routes.Heartbeat.{Heartbeat}
use convergio_mesh.Routes.Roles.{valid_roles, Assignment, assigned, assign, handle_set_role}

-- The names are in order, and every role is one of the six.
abbrev pub IsValid : Map Assignment → Type 0
IsValid rows = IsSorted rows × Values (λ (row : Assignment). elem row.role valid_roles ≡ true) rows

abbrev OptionIsValid : Option (Map Assignment) → Type 0
OptionIsValid none = Unit
OptionIsValid (some rows) = IsValid rows

-- The tables that requests to handle_set_role lead to, whether or not they are answered with success.
pub data Reach : Map Assignment → Type 0 where
  here : Reach []
  set :
      {rows rows' : Map Assignment}
      → Reach rows
      → (now : Option Text) (peer role : Text)
      → (handle_set_role now peer role (some rows)).0 ≡ some rows'
      → Reach rows'

-- What an assignment makes of the table.
pub record Assigned (now peer role : Text) (rows rows' : Map Assignment) : Type 0 where
  pub valid : elem role valid_roles ≡ true
  pub here : lookup peer rows' ≡ some (record { role = role; updated_at = now })
  pub others : (j : Text) → peer ≢ j → lookup j rows' ≡ lookup j rows

assign-Assigned :
    (time : Option Text) (peer role : Text) (rows : Map Assignment)
    (rows' : Option (Map Assignment)) (p r : Text)
    → elem role valid_roles ≡ true
    → assign time peer role (some rows) ≡ (rows', assigned p r)
    → (now : Text) × (t : Map Assignment) × (rows' ≡ some t) × Assigned now peer role rows t
unfolding assign
assign-Assigned none peer role rows rows' p r v h = cc
assign-Assigned (some now) peer role rows rows' p r v h =
    let row : Assignment = record { role = role; updated_at = now } in
    (
      now,
      insert peer row rows,
      cc,
      record {
        valid = v;
        here = rw (lookup-insert peer peer row rows, text_eq_refl peer) refl;
        others = λ j n. ground (arith, lookup-insert peer j row rows, text_eq_iff peer j);
      },
    )

-- A request that is answered with an assignment names one of the six roles, and afterwards its peer
-- has that role and every other peer has the role that it had.
handle_set_role-Assigned :
    (time : Option Text) (peer role : Text) (rows : Map Assignment)
    (rows' : Option (Map Assignment)) (p r : Text)
    → handle_set_role time peer role (some rows) ≡ (rows', assigned p r)
    → (now : Text) × (t : Map Assignment) × (rows' ≡ some t) × Assigned now peer role rows t
unfolding handle_set_role
handle_set_role-Assigned time peer role rows rows' p r h =
    elim (Bool-cases (elem role valid_roles)) [
      | inl valid ↦
          assign-Assigned time peer role rows rows' p r valid (rw (valid, handle_set_role) at h)
      | inr invalid ↦ cc (rw (invalid, handle_set_role) at h)
    ]
