-- ===== src/Workflow/Callback.antt =====
-- src/queue.rs: `handle_callback_step` and `resume_callback`.
use Prim.Native.String.{◌++◌ as ◌++ᵗ◌}
use qhook.Prelude.{Bool, true, false, String, if◌then◌else◌}
use qhook.Db.{Job}
use qhook.Db.Steps.{
  insert_callback_job, resume_callback_job, get_callback_job, get_workflow_job_data,
}
use qhook.Metrics.{inc_jobs_created, inc_callbacks_received, inc_workflow_step_completed}
use qhook.Workflow.{StepConfig, WorkflowConfig, find_workflow, find_step}
use qhook.Workflow.Handler.{workflow_part}
use qhook.Workflow.Engine.{
  Env, Task, pure, fail, given, ◌>>=◌, ◌>>◌, call, read, tally, draw, workflow_not_found,
  callback_job_not_found,
}
use qhook.Workflow.Advance.{text_or, nat_or, spec_of, finish_run, next_step}
use qhook.Workflow.Success.{with_run, output_payload, is_end}

-- The row that waits for the token, which two ULIDs make. `callback_timeout` is handed to
-- `insert_callback_job`, which does not use it.
unfoldable pub create_callback : Env → Job → Job → String → StepConfig → Task (Unit {0})
unfolding spec_of
create_callback env job row run_id step = do
  first ← draw env
  second ← draw env
  id ← draw env
  call env (
      insert_callback_job
        (spec_of env id job.event_id (workflow_part job.handler) "" run_id (nat_or 0 row.step_index)
          step (text_or "{}" row.step_input))
        (first ++ᵗ second) env.far_future env.now)
  tally inc_jobs_created

-- The notification of the `url`, whose outcome is only logged, is left out.
unfoldable pub handle_callback_step : Env → Job → StepConfig → Task (Unit {0})
unfolding with_run create_callback
handle_callback_step env job step = with_run env job λ row run_id.
    let name = workflow_part job.handler in
    given (find_workflow name env.workflows) (fail (workflow_not_found name))
      λ workflow. create_callback env job row run_id step

-- The run goes on behind the step whose callback has come. Its time limit is not checked.
unfoldable pub callback_received :
    Env → Job → Job → String → String → WorkflowConfig → String → Task (Unit {0})
unfolding output_payload finish_run next_step
callback_received env job row run_id name workflow payload = do
  let step = find_step (text_or "" row.step_name) workflow.steps
  let output = output_payload env step (text_or "{}" row.step_input) payload
  tally (inc_workflow_step_completed name)
  if is_end step
      then finish_run env name run_id job.event_id output
      else next_step env name workflow run_id job.event_id (nat_or 0 row.step_index) output

-- What follows the update of the row of the callback.
unfoldable pub after_resume : Env → String → String → String → Task Bool
unfolding callback_received
after_resume env token payload job_id = do
  tally inc_callbacks_received
  found ← read env (get_callback_job token)
  given found (fail callback_job_not_found) λ job. do
    data_row ← read env (get_workflow_job_data job_id)
    given data_row (pure true) λ row. given row.workflow_run_id (pure true) λ run_id.
        let name = workflow_part job.handler in
        given (find_workflow name env.workflows) (pure true)
          λ workflow. callback_received env job row run_id name workflow payload >> pure true

-- Whether a job waited for the token.
unfoldable pub resume_callback : Env → String → String → Task Bool
unfolding after_resume
resume_callback env token payload = do
  resumed ← call env (resume_callback_job env.now token payload)
  given resumed (pure false) λ job_id. after_resume env token payload job_id
