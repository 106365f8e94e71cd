-- ===== src/Workflow/Route.antt =====
-- src/queue.rs: `handle_choice_step`, `handle_wait_step` and `handle_subworkflow_step`.
use qhook.Prelude.{ℕ, ◌+◌, ◌*◌, Option, none, some, String, List, [], ◌∷◌, if◌then◌else◌}
use qhook.Db.{Job, clamp_i32}
use qhook.Db.Runs.{update_workflow_run_step, insert_sub_workflow_run}
use qhook.Db.Steps.{insert_workflow_job_delayed}
use qhook.Metrics.{inc_jobs_created, inc_workflow_step_completed}
use qhook.Json.{Value, number, text}
use qhook.Api.Filter.{evaluate_filter}
use qhook.Json.Path.{resolve_path}
use qhook.Workflow.{StepConfig, ChoiceRule, find_workflow, find_step_from, step_at}
use qhook.Workflow.Handler.{workflow_part}
use qhook.Workflow.Engine.{
  Env, Task, pure, fail, given, ◌>>=◌, ◌>>◌, call, write, tally, draw, not_json, workflow_not_found,
  step_not_found, no_workflow_name, no_steps,
}
use qhook.Workflow.Advance.{
  text_or, nat_or, with_template, spec_of, enqueue_step, enter_step, fail_run, finish_run,
}
use qhook.Workflow.Success.{with_run}

-- The target of the first rule whose condition holds of the payload.
unfoldable pub first_choice : Env → String → List ChoiceRule → Option String
unfolding evaluate_filter
first_choice env payload [] = none
first_choice env payload (c ∷ cs) =
    let rest = first_choice env payload cs in
    if evaluate_filter env.serde env.matchers payload c.when then some c.goto else rest

abbrev pub or_else : Option String → Option String → Option String
or_else none default = default
or_else (some goto) default = some goto

abbrev pub choices_of : Option (List ChoiceRule) → List ChoiceRule
choices_of none = []
choices_of (some cs) = cs

-- Where the payload goes: a choice that holds, or the default.
unfoldable pub goto_of : Env → StepConfig → String → Option String
unfolding first_choice
goto_of env step payload = or_else (first_choice env payload (choices_of step.choices)) step.default

unfoldable pub handle_choice_step : Env → Job → StepConfig → Task (Unit {0})
unfolding with_run goto_of fail_run enter_step
handle_choice_step env job step = with_run env job λ row run_id.
    let payload = text_or "{}" row.step_input in
    let name = workflow_part job.handler in
    given (find_workflow name env.workflows) (fail (workflow_not_found name)) λ workflow.
      given (goto_of env step payload) (fail_run env name run_id) λ goto.
        given (find_step_from 0 goto workflow.steps) (fail (step_not_found goto))
          λ target. enter_step env job.event_id name run_id target.0 target.1 payload

-- What is found at `timestamp_path`: a text is parsed, a number counts seconds; if it is neither,
-- or is no time, the wait is over at once.
abbrev pub timestamp : Env → Option Value → ℕ
timestamp env (some (text ts)) = nat_or env.now (env.parse_timestamp ts)
timestamp env (some (number n)) = nat_or env.now (env.from_timestamp n)
timestamp env _ = env.now

-- The end of the wait, or the error of a payload that is no JSON. The seconds are such that the
-- sum is a time of the library.
unfoldable pub wait_until : Env → StepConfig → String → Task ℕ
wait_until env step payload =
    given step.seconds
      (given step.timestamp_path (pure env.now) λ path.
        given (env.serde.from_str payload) (fail not_json)
          λ json. pure (timestamp env (resolve_path json path)))
      λ seconds. pure (env.now + seconds * 1000)

unfoldable pub enqueue_delayed :
    Env → String → String → String → ℕ → StepConfig → String → ℕ → Task (Unit {0})
unfolding spec_of
enqueue_delayed env event_id workflow run_id index step payload at = do
  write env (update_workflow_run_step run_id step.name)
  id ← draw env
  call env (
      insert_workflow_job_delayed
        (spec_of env id event_id workflow (text_or "" step.url) run_id (clamp_i32 index) step
          (with_template env step.input payload))
        at env.now)
  tally inc_jobs_created

unfoldable pub handle_wait_step : Env → Job → StepConfig → Task (Unit {0})
unfolding with_run wait_until finish_run enqueue_delayed
handle_wait_step env job step = with_run env job λ row run_id.
    let payload = text_or "{}" row.step_input in
    let name = workflow_part job.handler in
    let index = nat_or 0 row.step_index + 1 in
    given (find_workflow name env.workflows) (pure tt) λ workflow. do
      at ← wait_until env step payload
      tally (inc_workflow_step_completed name)
      given (step_at workflow.steps index) (finish_run env name run_id job.event_id payload)
          λ next. enqueue_delayed env job.event_id name run_id index next payload at

-- The run of the sub-workflow is stored with its parent, and its first step is created.
unfoldable pub launch : Env → Job → Job → String → String → StepConfig → Task (Unit {0})
unfolding enqueue_step
launch env job row run_id name first = do
  id ← draw env
  call env (
      insert_sub_workflow_run id name job.event_id first.name run_id (nat_or 0 row.step_index)
        env.now)
  enqueue_step env job.event_id name id 0 first (text_or "{}" row.step_input)

unfoldable pub handle_subworkflow_step : Env → Job → StepConfig → Task (Unit {0})
unfolding with_run launch
handle_subworkflow_step env job step = with_run env job λ row run_id.
    given step.workflow (fail no_workflow_name) λ name.
      given (find_workflow name env.workflows) (fail (workflow_not_found name)) λ workflow.
        given (step_at workflow.steps 0) (fail (no_steps name))
          λ first. launch env job row run_id name first
