-- ===== src/Workflow/Failed.antt =====
-- src/queue.rs, `handle_workflow_step_failure`: the fates of a step that fails, described without the
-- tests and the statements of the code.
use qhook.Prelude.{
  ℕ, ◌+◌, ◌*◌, ◌^◌, ◌≡◌, ◌<◌, Bool, ◌&&◌, Option, some, String, [], ◌∷◌, ◌++◌, ltb, min,
}
use qhook.Prelude.Classes.{string_eq}
use qhook.Json.{text, object, entry, no_entries}
use qhook.Db.{Job, Database, completed, retryable, dead, run_failed}
use qhook.Workflow.{StepConfig, CatchConfig, stop, continue, WorkflowConfig, find_step}
use qhook.Workflow.Handler.{workflow_part, step_part}
use qhook.Workflow.Engine.{Env, Engine}
use qhook.Workflow.Success.{handle_workflow_step_success}
use qhook.Workflow.Failure.{should_retry}
use qhook.Workflow.Rows.{change_job, change_run, step_row, url_of, filled}
use qhook.Workflow.Progress.{called}
use qhook.Workflow.Named.{NotNamed, FirstNamed}
use qhook.Workflow.Rules.{Admits, rules_of, ending_of, NoRule, FirstRule}

module _ (env : Env) (job : Job) (error kind : String) (s : Engine) (run_id : String)
    (workflow : WorkflowConfig) where
  abbrev pub failed_step : Option StepConfig
  failed_step = find_step (step_part job.handler) workflow.steps

  -- The error is one to be tried again, and attempts are left.
  abbrev pub Again : Type 0
  Again = Admits kind failed_step × (job.attempt + 1 < job.max_attempts)

  abbrev pub job_completed : Database
  job_completed = record s.world.db {
    jobs =
        change_job job.id (λ j. record j { status = completed; completed_at = some env.now })
          s.world.db.jobs;
  }

  -- The tables after a failure.
  pub data Outcome (db : Database) : Type 0 where
    retried :
        Again
        → db ≡ record s.world.db {
          jobs =
              change_job job.id
                (λ j. record j {
                  status = retryable;
                  scheduled_at = env.now + env.jitter (30 * 2 ^ min (job.attempt + 1) 10) * 1000;
                  last_error = some error;
                })
                s.world.db.jobs;
        }
        → Outcome db
    caught :
        (c : CatchConfig) (i : ℕ) (target : StepConfig)
        → ¬ Again
        → FirstRule kind (rules_of failed_step) c
        → FirstNamed c.goto workflow.steps i target
        → db.jobs
          ≡ job_completed.jobs
            ++ step_row env
                (env.ulid s.drawn)
                job.event_id
                (workflow_part job.handler)
                (url_of target.url)
                run_id
                (min i 2147483647)
                target
                (filled env target.input (
                  env.serde.to_string (
                    object (
                      entry "error" (text error) (
                        entry "failed_step"
                          (text (step_part job.handler))
                          (entry "job_id" (text job.id) no_entries))))))
              ∷ []
        → db.runs
          ≡ change_run run_id (λ r. record r { current_step = some target.name }) s.world.db.runs
        → Outcome db
    lost :
        (c : CatchConfig)
        → ¬ Again
        → FirstRule kind (rules_of failed_step) c
        → NotNamed c.goto workflow.steps
        → db ≡ job_completed
        → Outcome db
    stopped :
        ¬ Again
        → NoRule kind (rules_of failed_step)
        → ending_of failed_step ≡ stop
        → db ≡ record s.world.db {
          jobs =
              change_job job.id
                (λ j. record j {
                  status = dead;
                  completed_at = some env.now;
                  last_error = some error;
                })
                s.world.db.jobs;
          runs =
              change_run run_id
                (λ r. record r { status = run_failed; completed_at = some env.now })
                s.world.db.runs;
        }
        → Outcome db
    continued :
        ¬ Again
        → NoRule kind (rules_of failed_step)
        → ending_of failed_step ≡ continue
        → db
          ≡ (handle_workflow_step_success env job
              (some (
                env.serde.to_string (
                  object (
                    entry "error"
                      (text error)
                      (entry "failed_step" (text (step_part job.handler)) no_entries)))))
              (called job_completed s)).0.world.db
        → Outcome db

module _ (env : Env) (job : Job) (error kind : String) (s : Engine) (run_id : String)
    (workflow : WorkflowConfig) where
  abbrev again : Bool
  again =
      should_retry kind (find_step (step_part job.handler) workflow.steps)
      && ltb (job.attempt + 1) job.max_attempts
