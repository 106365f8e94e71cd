-- ===== src/Tests/Route.antt =====
-- Runs of the filters of src/api.rs and of the choices of src/queue.rs.
use qhook.Prelude.{◌≡◌, refl, false, true, none, some, [], ◌∷◌, ◌++◌}
use qhook.Prelude.Classes.{string_eq}
use qhook.Db.Runs.{update_workflow_run_step}
use qhook.Json.Path.{resolve_path, extract_json_path_value}
use qhook.Text.{trim, strip_prefix, strip_suffix, split_once}
use qhook.Api.Filter.{evaluate_filter}
use qhook.Workflow.{StepConfig, ChoiceRule, find_step_from}
use qhook.Workflow.Handler.{workflow_part}
use qhook.Workflow.Engine.{done}
use qhook.Workflow.Route.{handle_choice_step}
use qhook.Workflow.Progress.{entered_job}
use qhook.Workflow.Choice.{handle_choice_step_first}
use qhook.Tests.Flow.{
  env, checkout, charge_job, engine_on, flow_tables, serde, matchers, step_named, row_found, known,
  id_is_free,
}

missing : evaluate_filter serde matchers "{}" "$.x" ≡ false
unfolding evaluate_filter strip_prefix trim strip_suffix split_once extract_json_path_value
    resolve_path
missing = refl

not_missing : evaluate_filter serde matchers "{}" "not $.x" ≡ true
unfolding evaluate_filter strip_prefix trim strip_suffix split_once extract_json_path_value
    resolve_path
not_missing = refl

abbrev to_charge : ChoiceRule
to_charge = record { when = "$.x"; goto = "charge" }

abbrev to_ship : ChoiceRule
to_ship = record { when = "not $.x"; goto = "ship" }

abbrev decide : StepConfig
decide = record (step_named "charge" none) {
  handler_type = "choice";
  choices = some (to_charge ∷ to_ship ∷ []);
}

ship_found : find_step_from 0 "ship" checkout.steps ≡ some (1, step_named "ship" none)
unfolding find_step_from
ship_found = refl

handle_choice_step_first_example :
    let (s', a) = handle_choice_step env charge_job decide (engine_on flow_tables) in
    let added =
      entered_job env
        (engine_on flow_tables)
        "e1"
        (workflow_part "checkout/charge")
        "r1"
        1
        (step_named "ship" none)
        "{}" in
    (a ≡ done tt)
    × (s'.world.db.jobs ≡ flow_tables.jobs ++ added ∷ [])
    × (s'.world.db.runs ≡ (update_workflow_run_step "r1" "ship" flow_tables).runs)
handle_choice_step_first_example =
    handle_choice_step_first env charge_job decide (engine_on flow_tables) (to_charge ∷ []) to_ship
      [] (λ n. refl) row_found refl known refl (missing, tt) not_missing ship_found id_is_free
