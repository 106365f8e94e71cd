-- ===== src/Workflow/Sound/Runs.antt =====
-- What the tasks that run workflows keep true of the tables: how runs go on, for whatever the writes
-- on runs and the inserts of steps keep.
use qhook.Prelude.{ℕ, zero, suc, String}
use qhook.Db.{Run, Database}
use qhook.Db.Runs
use qhook.Db.Runs.{update_run}
use qhook.Db.Steps.{StepSpec, insert_workflow_job}
use qhook.Workflow.{StepConfig, WorkflowConfig}
use qhook.Workflow.Engine.{Env, call, write}
use qhook.Workflow.Advance.{
  enqueue_step, enter_step, complete_run, fail_run, resume_parent_workflow, finish_run, next_step,
}
use qhook.Workflow.Sound.{Keeps, keeps, call-Keeps, write-Keeps}

module _ (P : Database → Type 0)
    (runs_kept : (id : String) (f : Run → Run) (db : Database) → P db → P (update_run id f db))
    (step_kept : (s : StepSpec) (now : ℕ) (db : Database)
      → P db
      → P (insert_workflow_job s now db).0) where
  pub step_row-Keeps :
      (env : Env) (s : StepSpec) → Keeps P (call env (insert_workflow_job s env.now))
  step_row-Keeps env s = call-Keeps P env _ (step_kept s env.now)

  pub update_step-Keeps :
      (env : Env) (id name : String) → Keeps P (write env (Runs.update_workflow_run_step id name))
  unfolding Runs.update_workflow_run_step
  update_step-Keeps env id name = write-Keeps P env _ (runs_kept id _)

  pub complete-Keeps :
      (env : Env) (id : String) → Keeps P (write env (Runs.complete_workflow_run env.now id))
  unfolding Runs.complete_workflow_run
  complete-Keeps env id = write-Keeps P env _ (runs_kept id _)

  pub fail_write-Keeps :
      (env : Env) (id : String) → Keeps P (write env (Runs.fail_workflow_run env.now id))
  unfolding Runs.fail_workflow_run
  fail_write-Keeps env id = write-Keeps P env _ (runs_kept id _)

  pub enqueue_step-Keeps :
      (env : Env) (event_id workflow run_id : String) (i : ℕ) (step : StepConfig) (payload : String)
      → Keeps P (enqueue_step env event_id workflow run_id i step payload)
  unfolding enqueue_step
  enqueue_step-Keeps env event_id workflow run_id i step payload = search (keeps, step_row-Keeps)

  pub enter_step-Keeps :
      (env : Env) (event_id workflow run_id : String) (i : ℕ) (step : StepConfig) (payload : String)
      → Keeps P (enter_step env event_id workflow run_id i step payload)
  unfolding enter_step
  enter_step-Keeps env event_id workflow run_id i step payload =
      search (keeps, update_step-Keeps, enqueue_step-Keeps)

  pub complete_run-Keeps : (env : Env) (name id : String) → Keeps P (complete_run env name id)
  unfolding complete_run
  complete_run-Keeps env name id = search (keeps, complete-Keeps)

  pub fail_run-Keeps : (env : Env) (name id : String) → Keeps P (fail_run env name id)
  unfolding fail_run
  fail_run-Keeps env name id = search (keeps, fail_write-Keeps)

  pub resume_parent-Keeps :
      (depth : ℕ) (env : Env) (run_id event_id output : String)
      → Keeps P (resume_parent_workflow depth env run_id event_id output)
  unfolding resume_parent_workflow
  resume_parent-Keeps zero env run_id event_id output = search keeps
  resume_parent-Keeps (suc depth) env run_id event_id output =
      let rest : (p : String) → Keeps P (resume_parent_workflow depth env p event_id output) =
        λ p. resume_parent-Keeps depth env p event_id output in
      search (keeps, complete_run-Keeps, enter_step-Keeps, rest) depth 12

  pub finish_run-Keeps :
      (env : Env) (name run_id event_id output : String)
      → Keeps P (finish_run env name run_id event_id output)
  unfolding finish_run
  finish_run-Keeps env name run_id event_id output =
      search (keeps, complete_run-Keeps, resume_parent-Keeps)

  pub next_step-Keeps :
      (env : Env) (name : String) (workflow : WorkflowConfig) (run_id event_id : String) (i : ℕ)
      (output : String)
      → Keeps P (next_step env name workflow run_id event_id i output)
  unfolding next_step
  next_step-Keeps env name workflow run_id event_id i output =
      search (keeps, finish_run-Keeps, enter_step-Keeps)
