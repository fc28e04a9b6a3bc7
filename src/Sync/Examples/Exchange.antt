-- ===== src/Sync/Examples/Exchange.antt =====
-- Two nodes with different plans, and the round between them.
use mathlib.Core.Option
use convergio_mesh.Prelude.{refl, true, List, [], ◌∷◌, Option, none, some}
use convergio_mesh.Prelude.Text.{Text, codes, text_ltb}
use convergio_mesh.Prelude.Text.Order.{Within}
use convergio_mesh.Prelude.Map.{Map, lookup}
use convergio_mesh.Prelude.Map.Laws.{IsSorted}
use convergio_mesh.Sync.Types.{SyncChange}
use convergio_mesh.Sync.Sqlite.{Key, by_text}
use convergio_mesh.Sync.Shelf.{Shelf, shelf}
use convergio_mesh.Sync.Export.{Result, ok, err, normalise, export_changes_since}
use convergio_mesh.Sync.Apply.Laws.{clock}
use convergio_mesh.Sync.Round.{World}
use convergio_mesh.Sync.Round.Exchange.{received}
use convergio_mesh.Sync.Round.Exchange.Agree.{IsSkipped}
use convergio_mesh.Sync.Examples.{noon, plans}

abbrev evening : Text
evening = codes "2026-04-21 20:00:00"

-- The node has one plan, written after the cursor.
abbrev left_stamps : Map Text
left_stamps = (codes "p1", evening) ∷ []

-- The peer has an older version of it, and another plan, also written after the cursor.
abbrev right_stamps : Map Text
right_stamps = (codes "p1", noon) ∷ (codes "p2", evening) ∷ []

left_stamps-IsSorted : IsSorted left_stamps
left_stamps-IsSorted = (tt, tt)

right_stamps-IsSorted : IsSorted right_stamps
unfolding text_ltb
right_stamps-IsSorted = ((refl, tt), (tt, tt))

abbrev left : Shelf
left = record {
  stamps = λ t. left_stamps;
  sorted = λ t. left_stamps-IsSorted;
  meta = λ p t. some noon;
}

abbrev right : Shelf
right = record {
  stamps = λ t. right_stamps;
  sorted = λ t. right_stamps-IsSorted;
  meta = λ p t. none;
}

abbrev answered : Result (List SyncChange) → Option (List SyncChange)
answered (ok ys) = some ys
answered (err e) = none

-- Between the two requests the peer has imported what the node exports.
abbrev between : World shelf
between = record {
  round_start_at = evening;
  http = record {
    post_import = λ p xs. true;
    get_export = λ p t since. answered (
        export_changes_since shelf (received shelf right (export_changes_since shelf left t since))
          t since);
  };
  during_send = λ c. c;
  during_fetch = λ c. c;
}

abbrev schema : Text → List Text
schema t = codes "id" ∷ codes "updated_at" ∷ []

abbrev first_plan : Key
first_plan = by_text (codes "p1")

abbrev stamp_of : Shelf → Text → Option Text
stamp_of c i = Option.map normalise (lookup i (c.stamps plans))

abbrev Covered : Shelf → Shelf → Type 0
Covered a b =
    (k : Key)
    → IsSkipped (some noon) (clock shelf a plans k)
    → Within (clock shelf b plans k) (clock shelf a plans k)
