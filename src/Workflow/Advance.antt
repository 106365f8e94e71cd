-- ===== src/Workflow/Advance.antt =====
-- src/queue.rs: the ends that the handlers of the steps share, and `resume_parent_workflow`.
use qhook.Prelude.{ℕ, zero, suc, ◌+◌, Bool, false, Option, none, some, String, ltb}
use qhook.Db.{clamp_i32}
use qhook.Db.Runs.{
  update_workflow_run_step, complete_workflow_run, fail_workflow_run, get_workflow_run,
  get_parent_workflow_run,
}
use qhook.Db.Steps.{StepSpec, insert_workflow_job}
use qhook.Metrics.{inc_jobs_created, inc_workflow_completed, inc_workflow_failed}
use qhook.Worker.Deliver.{workflow_failed}
use qhook.Workflow.{StepConfig, StepRetryConfig, WorkflowConfig, find_workflow, step_at}
use qhook.Workflow.Handler.{handler_of}
use qhook.Workflow.Engine.{
  Env, Task, pure, fail, given, ◌>>=◌, ◌>>◌, call, write, read, tally, alert, draw, run_not_found,
  unfinished,
}

-- `unwrap_or`
abbrev pub text_or : String → Option String → String
text_or s none = s
text_or s (some t) = t

abbrev pub nat_or : ℕ → Option ℕ → ℕ
nat_or n none = n
nat_or n (some m) = m

abbrev pub max_attempts : ℕ → Option StepRetryConfig → ℕ
max_attempts n none = n
max_attempts n (some r) = r.max

-- A payload, or what a template makes of it.
abbrev pub with_template : Env → Option String → String → String
with_template env none payload = payload
with_template env (some template) payload = env.apply_transform payload template

-- What is bound to the insert of a step's job.
unfoldable pub spec_of :
    Env → String → String → String → String → String → ℕ → StepConfig → String → StepSpec
spec_of env id event_id workflow url run_id index step input = record {
  id = id;
  event_id = event_id;
  handler = handler_of workflow step.name;
  url = url;
  max_attempts = max_attempts env.default_retry_max step.retry;
  workflow_run_id = run_id;
  step_name = step.name;
  step_index = index;
  step_input = some input;
}

unfoldable pub enqueue_step :
    Env → String → String → String → ℕ → StepConfig → String → Task (Unit {0})
unfolding spec_of
enqueue_step env event_id workflow run_id index step payload = do
  id ← draw env
  call env (
      insert_workflow_job
        (spec_of env id event_id workflow (text_or "" step.url) run_id (clamp_i32 index) step
          (with_template env step.input payload))
        env.now)
  tally inc_jobs_created

-- The run goes on at the step with the given index.
unfoldable pub enter_step :
    Env → String → String → String → ℕ → StepConfig → String → Task (Unit {0})
unfolding enqueue_step
enter_step env event_id workflow run_id index step payload =
    write env (update_workflow_run_step run_id step.name)
    >> enqueue_step env event_id workflow run_id index step payload

-- The run is completed and counted.
unfoldable pub complete_run : Env → String → String → Task (Unit {0})
complete_run env workflow run_id =
    write env (complete_workflow_run env.now run_id) >> tally (inc_workflow_completed workflow)

-- The run fails, which is counted and reported.
unfoldable pub fail_run : Env → String → String → Task (Unit {0})
fail_run env workflow run_id = do
  write env (fail_workflow_run env.now run_id)
  tally (inc_workflow_failed workflow)
  alert (workflow_failed workflow run_id)

-- `now > timeout_at`
abbrev pub is_over : ℕ → Option ℕ → Bool
is_over now none = false
is_over now (some at) = ltb at now

-- The recursion ends where a run has no parent; the first argument bounds it.
unfoldable pub resume_parent_workflow : ℕ → Env → String → String → String → Task (Unit {0})
unfolding enter_step complete_run
resume_parent_workflow zero env run_id event_id output = fail unfinished
resume_parent_workflow (suc depth) env run_id event_id output = do
  parent ← read env (get_parent_workflow_run run_id)
  given parent (pure tt) λ p. do
    found ← read env (get_workflow_run p.0)
    given found (fail (run_not_found p.0)) λ run.
        given (find_workflow run.workflow env.workflows) (pure tt) λ workflow.
          given (step_at workflow.steps (p.1 + 1))
            (complete_run env run.workflow p.0
              >> resume_parent_workflow depth env p.0 event_id output)
            λ next. enter_step env event_id run.workflow p.0 (p.1 + 1) next output

-- A run has come to its end: it is completed, and its parent goes on.
unfoldable pub finish_run : Env → String → String → String → String → Task (Unit {0})
unfolding complete_run resume_parent_workflow
finish_run env workflow run_id event_id output =
    complete_run env workflow run_id >> resume_parent_workflow env.depth env run_id event_id output

-- The run goes on behind the step with the given index, or it has come to its end.
unfoldable pub next_step :
    Env → String → WorkflowConfig → String → String → ℕ → String → Task (Unit {0})
unfolding finish_run enter_step
next_step env name workflow run_id event_id index output =
    given (step_at workflow.steps (index + 1)) (finish_run env name run_id event_id output)
      λ next. enter_step env event_id name run_id (index + 1) next output
