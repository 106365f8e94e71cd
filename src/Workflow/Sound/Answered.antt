-- ===== src/Workflow/Sound/Answered.antt =====
-- What the tasks that run workflows keep true of the tables: an answered callback, for whatever the
-- writes on runs and the inserts of steps keep.
use qhook.Prelude.{ℕ, String}
use qhook.Db.{Job, Run, Database}
use qhook.Db.Runs.{update_run}
use qhook.Db.Steps.{StepSpec, insert_workflow_job}
use qhook.Workflow.{WorkflowConfig}
use qhook.Workflow.Engine.{Env}
use qhook.Workflow.Callback.{callback_received, after_resume}
use qhook.Workflow.Sound.{Keeps, keeps}
use qhook.Workflow.Sound.Runs.{finish_run-Keeps, next_step-Keeps}

module _ (P : Database → Type 0)
    (runs_kept : (id : String) (f : Run → Run) (db : Database) → P db → P (update_run id f db))
    (step_kept : (s : StepSpec) (now : ℕ) (db : Database)
      → P db
      → P (insert_workflow_job s now db).0) where
  callback_received-Keeps :
      (env : Env) (job row : Job) (run_id name : String) (workflow : WorkflowConfig)
      (payload : String)
      → Keeps P (callback_received env job row run_id name workflow payload)
  unfolding callback_received
  callback_received-Keeps env job row run_id name workflow payload =
      search (keeps, finish_run-Keeps, next_step-Keeps, runs_kept, step_kept) depth 12

  pub after_resume-Keeps :
      (env : Env) (token payload job_id : String) → Keeps P (after_resume env token payload job_id)
  unfolding after_resume
  after_resume-Keeps env token payload job_id = search (keeps, callback_received-Keeps) depth 14
