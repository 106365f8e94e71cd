-- ===== src/Tests/Start.antt =====
-- A workflow that is started by src/api.rs.
use mathlib.Core.List.{Memᴰ}
use qhook.Prelude.{◌≡◌, refl, ◌↔◌, true, none, some, List, [], ◌∷◌, ◌++◌}
use qhook.Prelude.Classes.{string_eq}
use qhook.Json.{text, object, Entries, no_entries, entry, Serde, get_field}
use qhook.Sql.{exists_where}
use qhook.Db.Runs.{has_run_id}
use qhook.Db.Jobs.{is_due}
use qhook.Workflow.{ParamConfig, WorkflowConfig, step_at}
use qhook.Workflow.Params.{validate_workflow_params, conforms, validate_workflow_params_accepts}
use qhook.Workflow.Engine.{Env, done}
use qhook.Workflow.Start.{start_workflow, params_error}
use qhook.Workflow.Started.{started_run, first_job, start_workflow_starts}
use qhook.Tests.{tables}
use qhook.Tests.Flow.{env, checkout, step_named, engine_on}

abbrev declared : List ParamConfig
declared = (record { name = "id"; param_type = "string"; required = true }) ∷ []

abbrev sent : Entries
sent = entry "id" (text "7") no_entries

abbrev one_object : Serde
one_object = record { from_str = λ s. some (object sent); to_string = λ v. "{}" }

abbrev shop : Env
shop = record env { serde = one_object }

abbrev timed : WorkflowConfig
timed = record checkout { params = declared; timeout = some 60 }

sent_accepted : params_error shop timed "{}" ≡ none
unfolding params_error get_field
sent_accepted = refl

validate_workflow_params_accepts_example :
    (validate_workflow_params one_object declared "{}" ≡ none) ↔ (
      (obj : Entries) × (one_object.from_str "{}" ≡ some (object obj))
      × ((p : ParamConfig) → Memᴰ p declared → conforms p (get_field p.name obj) ≡ true))
validate_workflow_params_accepts_example = validate_workflow_params_accepts one_object declared "{}"

start_workflow_starts_example :
    let (s', a) = start_workflow shop "checkout" timed "e1" "{}" (engine_on tables) in
    let step = step_named "charge" none in
    let job = first_job shop (engine_on tables) "checkout" "e1" step "{}" in
    (a ≡ done tt)
    × (s'.world.db ≡ (record tables {
      runs = tables.runs ++ started_run shop (engine_on tables) "checkout" timed "e1" step ∷ [];
      jobs = tables.jobs ++ job ∷ [];
    }))
    × (is_due 100 job ≡ true)
unfolding step_at exists_where has_run_id
start_workflow_starts_example =
    start_workflow_starts shop "checkout" timed "e1" "{}" (engine_on tables) (λ n. refl)
      sent_accepted refl refl refl
