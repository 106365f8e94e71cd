-- ===== src/Workflow/Failure.antt =====
-- src/queue.rs: `handle_workflow_step_failure` and `route_to_catch_step`.
use qhook.Prelude.{
  ◌+◌, ◌*◌, Bool, true, ◌&&◌, Option, none, some, String, List, [], ◌∷◌, ltb, if◌then◌else◌,
}
use qhook.Db.{Job}
use qhook.Db.Jobs.{mark_job_completed, mark_job_retryable, mark_job_dead}
use qhook.Db.Runs.{fail_workflow_run}
use qhook.Db.Steps.{get_workflow_job_data}
use qhook.Metrics.{inc_dlq, inc_workflow_failed}
use qhook.Json.{text, object, entry, no_entries}
use qhook.Worker.Deliver.{dlq, workflow_failed}
use qhook.Worker.Failure.{handle_failure, base_backoff}
use qhook.Workflow.{
  StepConfig, StepRetryConfig, CatchConfig, OnFailure, stop, continue, find_workflow, find_step,
  find_step_from, error_type_matches,
}
use qhook.Workflow.Handler.{workflow_part, step_part}
use qhook.Workflow.Engine.{
  Env, Task, pure, fail, given, ◌>>=◌, ◌>>◌, read, write, tally, alert, attempt, ok_or_none,
  workflow_not_found, step_not_found,
}
use qhook.Workflow.Advance.{text_or, enter_step}
use qhook.Workflow.Success.{handle_workflow_step_success}

abbrev pub retries : String → Option StepRetryConfig → Bool
retries error_type none = true
retries error_type (some r) = error_type_matches r.errors error_type

-- Without a step or without its `retry`, every error is tried again.
abbrev pub should_retry : String → Option StepConfig → Bool
should_retry error_type none = true
should_retry error_type (some step) = retries error_type step.retry

-- The first rule that the error meets.
unfoldable pub find_catch : String → List CatchConfig → Option CatchConfig
find_catch error_type [] = none
find_catch error_type (c ∷ cs) =
    let rest = find_catch error_type cs in
    if error_type_matches c.errors error_type then some c else rest

abbrev rules : Option (List CatchConfig) → List CatchConfig
rules none = []
rules (some cs) = cs

abbrev pub catches : Option StepConfig → List CatchConfig
catches none = []
catches (some step) = rules step.catch

abbrev pub on_failure : Option StepConfig → OnFailure
on_failure none = stop
on_failure (some step) = step.on_failure

abbrev pub run_of : Option Job → Option String
run_of none = none
run_of (some row) = row.workflow_run_id

-- The input of the step that catches an error.
abbrev pub catch_payload : Env → Job → String → String
catch_payload env job error = env.serde.to_string (
    object (
      entry "error" (text error) (
        entry "failed_step" (text (step_part job.handler))
          (entry "job_id" (text job.id) no_entries))))

unfoldable pub route_to_catch_step : Env → String → String → Job → String → Task (Unit {0})
unfolding enter_step
route_to_catch_step env name goto job error = do
  write env (mark_job_completed env.now job.id)
  given (find_workflow name env.workflows) (fail (workflow_not_found name)) λ workflow.
      given (find_step_from 0 goto workflow.steps) (fail (step_not_found goto)) λ target. do
        row ← read env (get_workflow_job_data job.id)
        enter_step env job.event_id name (text_or "" (run_of row)) target.0 target.1
            (catch_payload env job error)

-- 30 seconds doubled for each attempt, with jitter.
unfoldable pub schedule_retry : Env → Job → String → Task (Unit {0})
schedule_retry env job error =
    let next_at = env.now + env.jitter (base_backoff (job.attempt + 1)) * 1000 in
    attempt (write env (mark_job_retryable job.id next_at error))

abbrev pub error_payload : Env → String → String → String
error_payload env error step =
    env.serde.to_string
      (object (entry "error" (text error) (entry "failed_step" (text step) no_entries)))

-- The job counts as completed, and the run goes on with the error as the step's response.
unfoldable pub continue_run : Env → Job → String → Task (Unit {0})
unfolding handle_workflow_step_success
continue_run env job error = do
  attempt (write env (mark_job_completed env.now job.id))
  attempt (
      handle_workflow_step_success env job (some (error_payload env error (step_part job.handler))))

-- The job is dead and its run has failed: an error of the call that fails the run is ignored.
unfoldable pub stop_run : Env → Job → String → Task (Unit {0})
stop_run env job error = do
  attempt (write env (mark_job_dead env.now job.id error))
  tally (inc_dlq job.handler)
  alert (dlq job.id job.handler (job.attempt + 1))
  row ← ok_or_none (read env (get_workflow_job_data job.id))
  given (run_of row) (pure tt) λ run_id. do
    attempt (write env (fail_workflow_run env.now run_id))
    tally (inc_workflow_failed (workflow_part job.handler))
    alert (workflow_failed (workflow_part job.handler) run_id)

-- No rule has caught the error.
abbrev pub uncaught : Env → Job → String → OnFailure → Task (Unit {0})
uncaught env job error continue = continue_run env job error
uncaught env job error stop = stop_run env job error

-- What happens to a failure that is not tried again.
unfoldable pub give_up : Env → Job → Option StepConfig → String → String → Task (Unit {0})
unfolding route_to_catch_step continue_run stop_run
give_up env job step error error_type =
    given (find_catch error_type (catches step)) (uncaught env job error (on_failure step))
      λ c. attempt (route_to_catch_step env (workflow_part job.handler) c.goto job error)

unfoldable pub handle_workflow_step_failure : Env → Job → String → String → Task (Unit {0})
unfolding schedule_retry give_up
handle_workflow_step_failure env job error error_type =
    given (find_workflow (workflow_part job.handler) env.workflows)
      (attempt (write env λ db. (handle_failure env.now env.jitter job error none db).0))
      λ workflow.
        let step = find_step (step_part job.handler) workflow.steps in
        if should_retry error_type step && ltb (job.attempt + 1) job.max_attempts
        then schedule_retry env job error
        else give_up env job step error error_type
