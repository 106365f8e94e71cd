-- ===== src/Workflow/Dispatch.antt =====
-- src/queue.rs, `deliver_job`: the part on jobs of workflows, ahead of the delivery.
use qhook.Prelude.{
  ℕ, Bool, true, false, not, ◌&&◌, Option, none, some, String, starts_with, if◌then◌else◌,
}
use qhook.Prelude.Classes.{◌==◌, string_eq}
use qhook.Db.{Job}
use qhook.Db.Jobs.{mark_job_completed, mark_job_dead}
use qhook.Db.Runs.{fail_workflow_run, get_workflow_timeout}
use qhook.Db.Steps.{get_workflow_job_data, is_set}
use qhook.Metrics.{inc_workflow_failed}
use qhook.Worker.Deliver.{workflow_failed}
use qhook.Workflow.{StepConfig, find_workflow, find_step}
use qhook.Workflow.Handler.{workflow_part, step_part, lacks}
use qhook.Workflow.Engine.{
  Env, Task, pure, given, ◌>>=◌, ◌>>◌, write, read, tally, alert, attempt, ok_or_none,
}
use qhook.Workflow.Advance.{is_over}
use qhook.Workflow.Failure.{run_of}
use qhook.Workflow.Fanout.{handle_parallel_step, handle_map_step}
use qhook.Workflow.Route.{handle_choice_step, handle_wait_step, handle_subworkflow_step}
use qhook.Workflow.Callback.{handle_callback_step}

-- `!is_outbound && job.handler.contains('/')`
unfoldable pub is_workflow : Job → Bool
is_workflow job = not (starts_with job.handler "outbound/") && not (lacks b'/' job.handler)

-- The time of the run, if the job has one.
unfoldable pub run_timeout : Env → Option String → Task (Option ℕ)
run_timeout env none = pure none
run_timeout env (some run_id) = ok_or_none (read env (get_workflow_timeout run_id))

-- The job is dead and its run has failed; an error of either call is ignored.
unfoldable pub skip_step : Env → Job → String → Task (Unit {0})
skip_step env job run_id = do
  attempt (write env (mark_job_dead env.now job.id "workflow timeout"))
  attempt (write env (fail_workflow_run env.now run_id))
  tally (inc_workflow_failed (workflow_part job.handler))
  alert (workflow_failed (workflow_part job.handler) run_id)

-- The handler of a type of step that is not delivered.
unfoldable pub step_handler : String → Option (Env → Job → StepConfig → Task (Unit {0}))
step_handler kind =
    if kind == "choice"
    then some handle_choice_step
    else (if kind == "parallel"
        then some handle_parallel_step
        else (if kind == "map"
            then some handle_map_step
            else (if kind == "wait"
                then some handle_wait_step
                else (if kind == "callback"
                    then some handle_callback_step
                    else (if kind == "workflow" then some handle_subworkflow_step else none)))))

abbrev branch_of_row : Option Job → Bool
branch_of_row none = false
branch_of_row (some row) = is_set row.branch_name

abbrev pub step_of : Env → Job → Option StepConfig
step_of env job = elim (find_workflow (workflow_part job.handler) env.workflows) [
  | none ↦ none
  | some workflow ↦ find_step (step_part job.handler) workflow.steps
]

-- The job is completed first: if that fails the step is not handled. The handler's error is logged.
unfoldable pub run_handler :
    Env → Job → StepConfig → (Env → Job → StepConfig → Task (Unit {0})) → Task (Unit {0})
run_handler env job step handler =
    attempt (write env (mark_job_completed env.now job.id) >> attempt (handler env job step))

-- Whether the step was handled without a delivery.
unfoldable pub handle_locally : Env → Job → Task Bool
unfolding step_handler run_handler
handle_locally env job = do
  row ← ok_or_none (read env (get_workflow_job_data job.id))
  if branch_of_row row
      then pure false
      else (given (step_of env job) (pure false) λ step.
          given (step_handler step.handler_type) (pure false)
            λ handler. run_handler env job step handler >> pure true)

-- Whether the job needs no delivery: its run is over time, or its step is handled here.
unfoldable pub dispatch_step : Env → Job → Task Bool
unfolding run_timeout skip_step handle_locally
dispatch_step env job = do
  row ← ok_or_none (read env (get_workflow_job_data job.id))
  timeout_at ← run_timeout env (run_of row)
  if is_over env.now timeout_at
      then (given (run_of row) (pure true) λ run_id. skip_step env job run_id >> pure true)
      else handle_locally env job

-- A job of another kind is delivered as it is.
unfoldable pub before_delivery : Env → Job → Task Bool
unfolding dispatch_step
before_delivery env job = if is_workflow job then dispatch_step env job else pure false
