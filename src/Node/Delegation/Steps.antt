-- ===== src/Node/Delegation/Steps.antt =====
-- What is recorded is what is read.
use convergio_mesh.Prelude.{◌≡◌, ◌≢◌, refl, false, Option, some, arith}
use convergio_mesh.Prelude.Text.{Text}
use convergio_mesh.Prelude.Text.Order.{text_eq_iff, text_eq_refl}
use convergio_mesh.Prelude.Map.{Map, lookup}
use convergio_mesh.Prelude.Map.Laws.{lookup-insert}
use convergio_mesh.Node.Delegation.{DelegationProgress, coalesce, record_step, get_progress}

-- After a step is recorded, the progress of its delegation is that status and step with the given
-- summary, or the last one that was given if there is none now, and the progress of every other
-- delegation is as before.
pub get_progress-record_step :
    (i step status : Text) (summary : Option Text) (table : Map DelegationProgress)
    → (get_progress i (record_step false i step status summary table)
        ≡ some (record {
          status = status;
          current_task = step;
          output_summary = coalesce summary (get_progress i table);
        }))
      × ((j : Text)
          → i ≢ j
          → get_progress j (record_step false i step status summary table) ≡ get_progress j table)
unfolding get_progress record_step
get_progress-record_step i step status summary table =
    let row : DelegationProgress = record {
      status = status;
      current_task = step;
      output_summary = coalesce summary (lookup i table);
    } in
    (
      rw (lookup-insert i i row table, text_eq_refl i) refl,
      λ j n. ground (arith, lookup-insert i j row table, text_eq_iff i j),
    )
