-- ===== src/Workflow/Start.antt =====
-- src/api.rs, `start_workflow` and `create_step_job`: an event starts a run of a workflow.
use qhook.Prelude.{ℕ, ◌+◌, ◌*◌, Option, none, some, String, [], ◌∷◌}
use qhook.Prelude.Classes.{string_eq}
use qhook.Db.Runs.{insert_workflow_run, set_workflow_timeout}
use qhook.Db.Steps.{insert_workflow_job}
use qhook.Metrics.{inc_jobs_created, inc_workflow_started}
use qhook.Workflow.{StepConfig, WorkflowConfig, step_at}
use qhook.Workflow.Params.{ParamError, validate_workflow_params}
use qhook.Workflow.Engine.{
  Env, Task, pure, fail, given, ◌>>=◌, ◌>>◌, call, write, tally, draw, no_steps, invalid_params,
}
use qhook.Workflow.Advance.{text_or, with_template, spec_of}

unfoldable pub create_step_job :
    Env → String → String → String → StepConfig → ℕ → String → Task (Unit {0})
unfolding spec_of
create_step_job env workflow run_id event_id step index input = do
  id ← draw env
  call env (
      insert_workflow_job
        (spec_of env id event_id workflow (text_or "" step.url) run_id index step
          (with_template env step.input input))
        env.now)
  tally inc_jobs_created

-- The payload is looked at only if the workflow declares parameters.
unfoldable pub params_error : Env → WorkflowConfig → String → Option ParamError
unfolding validate_workflow_params
params_error env workflow payload = elim workflow.params [
  | [] ↦ none
  | p ∷ ps ↦ validate_workflow_params env.serde (p ∷ ps) payload
]

unfoldable pub set_timeout : Env → String → Option ℕ → Task (Unit {0})
set_timeout env run_id none = pure tt
set_timeout env run_id (some secs) = write env (set_workflow_timeout run_id (env.now + secs * 1000))

unfoldable pub start_run :
    Env → String → WorkflowConfig → String → String → StepConfig → Task (Unit {0})
unfolding set_timeout create_step_job
start_run env name workflow event_id payload first_step = do
  run_id ← draw env
  call env (insert_workflow_run run_id name event_id first_step.name env.now)
  set_timeout env run_id workflow.timeout
  tally (inc_workflow_started name)
  create_step_job env name run_id event_id first_step 0 payload

-- `steps[0]` of a workflow with no steps, which the configuration refuses, is an error here.
unfoldable pub start_accepted :
    Env → String → WorkflowConfig → String → String → Option ParamError → Task (Unit {0})
unfolding start_run
start_accepted env name workflow event_id payload (some e) = fail (invalid_params name e)
start_accepted env name workflow event_id payload none =
    given (step_at workflow.steps 0) (fail (no_steps name))
      λ first_step. start_run env name workflow event_id payload first_step

unfoldable pub start_workflow : Env → String → WorkflowConfig → String → String → Task (Unit {0})
unfolding params_error start_accepted
start_workflow env name workflow event_id payload =
    start_accepted env name workflow event_id payload (params_error env workflow payload)
