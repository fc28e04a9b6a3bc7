-- ===== src/Node/Delegation.antt =====
-- crates/convergio-mesh/src/delegation.rs: the table delegation_progress as a map from delegations to
-- rows; its time of update is left out.
pub mod Steps
use convergio_mesh.Prelude.{Bool, true, false, Option, none, some, if◌then◌else◌}
use convergio_mesh.Prelude.Text.{Text}
use convergio_mesh.Prelude.Map.{Map, lookup, insert}

pub record DelegationProgress : Type 0 where
  pub status : Text
  pub current_task : Text
  pub output_summary : Option Text

-- COALESCE(excluded.output_summary, output_summary)
unfoldable pub coalesce : Option Text → Option DelegationProgress → Option Text
coalesce (some summary) row = some summary
coalesce none none = none
coalesce none (some row) = row.output_summary

-- The flag is whether the statement fails, which is only logged.
unfoldable pub record_step :
    Bool → Text → Text → Text → Option Text → Map DelegationProgress → Map DelegationProgress
unfolding coalesce lookup insert
record_step fails delegation_id step status summary table =
    if fails
    then table
    else insert delegation_id
        (record {
          status = status;
          current_task = step;
          output_summary = coalesce summary (lookup delegation_id table);
        })
        table

unfoldable pub get_progress : Text → Map DelegationProgress → Option DelegationProgress
unfolding lookup
get_progress delegation_id table = lookup delegation_id table
