-- ===== src/Workflow/Success.antt =====
-- src/queue.rs: `handle_workflow_step_success` and `handle_branch_completion`.
use qhook.Prelude.{
  ℕ, Bool, false, Option, none, some, String, List, [], ◌∷◌, map, ltb, if◌then◌else◌,
}
use qhook.Prelude.Classes.{◌==◌, string_eq}
use qhook.Db.{Job}
use qhook.Db.Runs.{get_workflow_timeout, increment_parallel_completed, clear_parallel_state}
use qhook.Db.Steps.{get_workflow_job_data, save_step_output, is_set}
use qhook.Db.Branches.{get_branch_outputs}
use qhook.Metrics.{inc_workflow_step_completed}
use qhook.Json.{Value, null, array, object, Entries, no_entries, set_field, items_of}
use qhook.Json.Merge.{merge_result_path, value_or}
use qhook.Workflow.{StepConfig, WorkflowConfig, find_workflow, find_step}
use qhook.Workflow.Handler.{workflow_part}
use qhook.Workflow.Engine.{
  Env, Task, pure, given, ◌>>=◌, ◌>>◌, call, write, read, tally, ok_or_none,
}
use qhook.Workflow.Advance.{
  text_or, nat_or, with_template, fail_run, finish_run, next_step, is_over,
}

-- `if let Some(body) = response_body`
unfoldable pub save_output : Env → String → Option String → Task (Unit {0})
save_output env id response = given response (pure tt) λ body. write env (save_step_output id body)

-- What a step hands on: its response, put where `result_path` says, through the `output` template.
unfoldable pub output_payload : Env → Option StepConfig → String → String → String
output_payload env none input response = response
output_payload env (some step) input response =
    with_template env step.output (merge_result_path env.serde input response step.result_path)

abbrev pub is_end : Option StepConfig → Bool
is_end none = false
is_end (some step) = step.end

-- `step_name` can be missing: then no step is the current one.
abbrev pub current_step : Option String → WorkflowConfig → Option StepConfig
current_step none workflow = none
current_step (some name) workflow = find_step name workflow.steps

abbrev output_value : Env → Option String → Value
output_value env none = null
output_value env (some s) = value_or null (env.serde.from_str s)

-- `obj.insert(branch_name, val)` for each output in turn
unfoldable pub insert_outputs : Env → List (String × Option String) → Entries → Entries
insert_outputs env [] fs = fs
insert_outputs env ((branch, output) ∷ rest) fs =
    insert_outputs env rest (set_field branch (output_value env output) fs)

abbrev is_map : Option StepConfig → Bool
is_map none = false
is_map (some step) = step.handler_type == "map"

-- An array of the outputs of a map step, an object of those of a parallel step.
unfoldable pub merge_branches : Env → Option StepConfig → List (String × Option String) → String
unfolding insert_outputs
merge_branches env step outputs =
    if is_map step
    then env.serde.to_string (array (items_of (map (λ o. output_value env o.1) outputs)))
    else env.serde.to_string (object (insert_outputs env outputs no_entries))

-- The step of a name in a workflow that can be missing.
abbrev pub configured : Option WorkflowConfig → String → Option StepConfig
configured none name = none
configured (some workflow) name = find_step name workflow.steps

-- All branches are done: the run goes on with what they leave.
unfoldable pub join_branches : Env → Job → Job → String → String → Task (Unit {0})
unfolding merge_branches output_payload finish_run next_step
join_branches env job row run_id name = do
  let step_name = text_or "" row.step_name
  outputs ← read env (get_branch_outputs run_id step_name)
  let workflow = find_workflow name env.workflows
  let step = configured workflow step_name
  write env (clear_parallel_state run_id)
  let output =
      output_payload env step (text_or "{}" row.step_input) (merge_branches env step outputs)
  tally (inc_workflow_step_completed name)
  if is_end step
      then finish_run env name run_id job.event_id output
      else given workflow (pure tt)
          λ w. next_step env name w run_id job.event_id (nat_or 0 row.step_index) output

unfoldable pub handle_branch_completion : Env → Job → Job → String → Option String → Task (Unit {0})
unfolding save_output join_branches
handle_branch_completion env job row run_id response = do
  save_output env job.id response
  counts ← call env (increment_parallel_completed run_id)
  if ltb counts.0 counts.1
      then pure tt
      else join_branches env job row run_id (workflow_part job.handler)

-- The end of a step that is no branch: the run goes on, unless its time is over.
unfoldable pub advance_run :
    Env → Job → WorkflowConfig → Option StepConfig → String → String → ℕ → String → Task (Unit {0})
unfolding fail_run finish_run next_step
advance_run env job workflow step name run_id index output = do
  timeout_at ← ok_or_none (read env (get_workflow_timeout run_id))
  if is_over env.now timeout_at
      then fail_run env name run_id
      else (if is_end step
          then finish_run env name run_id job.event_id output
          else next_step env name workflow run_id job.event_id index output)

-- A step of a run that is no branch has succeeded.
unfoldable pub step_succeeded : Env → Job → Job → String → Option String → Task (Unit {0})
unfolding save_output output_payload advance_run
step_succeeded env job row run_id response = do
  save_output env job.id response
  let name = workflow_part job.handler
  given (find_workflow name env.workflows) (pure tt) λ workflow. do
    let step = current_step row.step_name workflow
    let output = output_payload env step (text_or "{}" row.step_input) (text_or "{}" response)
    tally (inc_workflow_step_completed name)
    advance_run env job workflow step name run_id (nat_or 0 row.step_index) output

-- The row of the job and its run, if it is a job of a workflow.
unfoldable pub with_run : Env → Job → (Job → String → Task (Unit {0})) → Task (Unit {0})
with_run env job handler = do
  found ← read env (get_workflow_job_data job.id)
  given found (pure tt) λ row. given row.workflow_run_id (pure tt) λ run_id. handler row run_id

unfoldable pub handle_workflow_step_success : Env → Job → Option String → Task (Unit {0})
unfolding with_run handle_branch_completion step_succeeded
handle_workflow_step_success env job response = with_run env job λ row run_id.
    if is_set row.branch_name
    then handle_branch_completion env job row run_id response
    else step_succeeded env job row run_id response
