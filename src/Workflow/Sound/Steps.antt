-- ===== src/Workflow/Sound/Steps.antt =====
-- The tasks that run workflows keep the table of jobs valid: success, failure and branches.
use qhook.Prelude.{ℕ, ◌+◌, ◌*◌, Option, none, some, String, leb, Bool-cases, inl, inr}
use qhook.Db.{Job, Run, Database, transaction}
use qhook.Db.Jobs
use qhook.Db.Jobs.{update_jobs}
use qhook.Db.Runs
use qhook.Db.Runs.{update_run, bump, read_counts}
use qhook.Db.Steps
use qhook.Db.Steps.{StepSpec}
use qhook.Db.Invariant.Rows.{IsValid}
use qhook.Db.Invariant.Sequences as Seq
use qhook.Worker.Failure.{handle_failure, backoff_secs}
use qhook.Workflow.{StepConfig, OnFailure, continue, stop, WorkflowConfig}
use qhook.Workflow.Engine.{Env, Task, call, write}
use qhook.Workflow.Success.{
  save_output, join_branches, handle_branch_completion, advance_run, step_succeeded, with_run,
  handle_workflow_step_success,
}
use qhook.Workflow.Failure.{
  route_to_catch_step, schedule_retry, continue_run, stop_run, give_up, uncaught,
  handle_workflow_step_failure,
}
use qhook.Workflow.Sound.{Keeps, keeps, call-Keeps, write-Keeps}
use qhook.Workflow.Sound.Runs.{
  fail_write-Keeps, update_step-Keeps, enqueue_step-Keeps, enter_step-Keeps, fail_run-Keeps,
  finish_run-Keeps, next_step-Keeps,
}

pub update_run-IsValid :
    (id : String) (f : Run → Run) (db : Database) → IsValid db → IsValid (update_run id f db)
unfolding update_run
update_run-IsValid id f db v = record { rows = v.rows; ids = v.ids }

pub step-IsValid :
    (s : StepSpec) (now : ℕ) (db : Database)
    → IsValid db
    → IsValid (Steps.insert_workflow_job s now db).0
step-IsValid s now = Seq.execute-IsValid (Seq.insert_workflow_job s now)

-- How runs go on, for the jobs.
pub ruleset runs = (
  fail_write-Keeps, update_step-Keeps, enqueue_step-Keeps, enter_step-Keeps, fail_run-Keeps,
  finish_run-Keeps, next_step-Keeps, update_run-IsValid, step-IsValid,
)

pub completed-Keeps :
    (env : Env) (id : String) → Keeps IsValid (write env (Jobs.mark_job_completed env.now id))
completed-Keeps env id =
    write-Keeps IsValid env _ (Seq.execute-IsValid (Seq.mark_job_completed env.now id))

pub dead-Keeps :
    (env : Env) (id error : String)
    → Keeps IsValid (write env (Jobs.mark_job_dead env.now id error))
dead-Keeps env id error =
    write-Keeps IsValid env _ (Seq.execute-IsValid (Seq.mark_job_dead env.now id error))

pub retryable-Keeps :
    (env : Env) (id error : String) (at : ℕ)
    → Keeps IsValid (write env (Jobs.mark_job_retryable id at error))
retryable-Keeps env id error at =
    write-Keeps IsValid env _ (Seq.execute-IsValid (Seq.mark_job_retryable id at error))

pub saved-Keeps :
    (env : Env) (id output : String) → Keeps IsValid (write env (Steps.save_step_output id output))
saved-Keeps env id output =
    write-Keeps IsValid env _ (Seq.execute-IsValid (Seq.save_step_output id output))

clear-Keeps : (env : Env) (id : String) → Keeps IsValid (write env (Runs.clear_parallel_state id))
unfolding Runs.clear_parallel_state
clear-Keeps env id = write-Keeps IsValid env _ (update_run-IsValid id _)

counted-IsValid :
    (db t : Database) (o : Option Run)
    → IsValid db
    → IsValid t
    → IsValid (transaction {0} db λ d. read_counts t o).0
unfolding read_counts
counted-IsValid db t none v w = v
counted-IsValid db t (some r) v w = w

increment-IsValid :
    (id : String) (db : Database) → IsValid db → IsValid (Runs.increment_parallel_completed id db).0
unfolding Runs.increment_parallel_completed
increment-IsValid id db v =
    counted-IsValid db (update_run id bump db) _ v (update_run-IsValid id bump db v)

increment-Keeps :
    (env : Env) (id : String) → Keeps IsValid (call env (Runs.increment_parallel_completed id))
increment-Keeps env id = call-Keeps IsValid env _ (increment-IsValid id)

handle_failure-IsValid :
    (now : ℕ) (jitter : ℕ → ℕ) (job : Job) (error : String) (db : Database)
    → IsValid db
    → IsValid (handle_failure now jitter job error none db).0
unfolding handle_failure
handle_failure-IsValid now jitter job error db v =
    let at = now + backoff_secs jitter (job.attempt + 1) none * 1000 in
    elim (Bool-cases (leb job.max_attempts (job.attempt + 1))) [
      | inl last ↦ rw last (Seq.execute-IsValid (Seq.mark_job_dead now job.id error) db v)
      | inr more ↦ rw more (Seq.execute-IsValid (Seq.mark_job_retryable job.id at error) db v)
    ]

pub save_output-Keeps :
    (env : Env) (id : String) (response : Option String)
    → Keeps IsValid (save_output env id response)
unfolding save_output
save_output-Keeps env id response = search (keeps, saved-Keeps)

join_branches-Keeps :
    (env : Env) (job row : Job) (run_id name : String)
    → Keeps IsValid (join_branches env job row run_id name)
unfolding join_branches
join_branches-Keeps env job row run_id name = search (keeps, clear-Keeps, runs) depth 12

branch_completion-Keeps :
    (env : Env) (job row : Job) (run_id : String) (response : Option String)
    → Keeps IsValid (handle_branch_completion env job row run_id response)
unfolding handle_branch_completion
branch_completion-Keeps env job row run_id response =
    search (keeps, save_output-Keeps, increment-Keeps, join_branches-Keeps) depth 12

advance_run-Keeps :
    (env : Env) (job : Job) (workflow : WorkflowConfig) (step : Option StepConfig)
    (name run_id : String) (i : ℕ) (output : String)
    → Keeps IsValid (advance_run env job workflow step name run_id i output)
unfolding advance_run
advance_run-Keeps env job workflow step name run_id i output = search (keeps, runs) depth 12

step_succeeded-Keeps :
    (env : Env) (job row : Job) (run_id : String) (response : Option String)
    → Keeps IsValid (step_succeeded env job row run_id response)
unfolding step_succeeded
step_succeeded-Keeps env job row run_id response =
    search (keeps, save_output-Keeps, advance_run-Keeps) depth 12

pub with_run-Keeps :
    (env : Env) (job : Job) (handler : Job → String → Task (Unit {0}))
    → ((row : Job) (run_id : String) → Keeps IsValid (handler row run_id))
    → Keeps IsValid (with_run env job handler)
unfolding with_run
with_run-Keeps env job handler h = search keeps depth 12

pub success-Keeps :
    (env : Env) (job : Job) (response : Option String)
    → Keeps IsValid (handle_workflow_step_success env job response)
unfolding handle_workflow_step_success
success-Keeps env job response =
    search (keeps, with_run-Keeps, branch_completion-Keeps, step_succeeded-Keeps) depth 12

route-Keeps :
    (env : Env) (name goto : String) (job : Job) (error : String)
    → Keeps IsValid (route_to_catch_step env name goto job error)
unfolding route_to_catch_step
route-Keeps env name goto job error = search (keeps, completed-Keeps, runs) depth 12

schedule_retry-Keeps :
    (env : Env) (job : Job) (error : String) → Keeps IsValid (schedule_retry env job error)
unfolding schedule_retry
schedule_retry-Keeps env job error = search (keeps, retryable-Keeps)

continue_run-Keeps :
    (env : Env) (job : Job) (error : String) → Keeps IsValid (continue_run env job error)
unfolding continue_run
continue_run-Keeps env job error = search (keeps, completed-Keeps, success-Keeps)

stop_run-Keeps : (env : Env) (job : Job) (error : String) → Keeps IsValid (stop_run env job error)
unfolding stop_run
stop_run-Keeps env job error = search (keeps, dead-Keeps, runs) depth 12

uncaught-Keeps :
    (env : Env) (job : Job) (error : String) (o : OnFailure)
    → Keeps IsValid (uncaught env job error o)
uncaught-Keeps env job error continue = continue_run-Keeps env job error
uncaught-Keeps env job error stop = stop_run-Keeps env job error

give_up-Keeps :
    (env : Env) (job : Job) (step : Option StepConfig) (error kind : String)
    → Keeps IsValid (give_up env job step error kind)
unfolding give_up
give_up-Keeps env job step error kind = search (keeps, route-Keeps, uncaught-Keeps)

pub failure-Keeps :
    (env : Env) (job : Job) (error kind : String)
    → Keeps IsValid (handle_workflow_step_failure env job error kind)
unfolding handle_workflow_step_failure
failure-Keeps env job error kind =
    let failed : Keeps IsValid
        (write env λ db. (handle_failure env.now env.jitter job error none db).0) =
      write-Keeps IsValid env _ (handle_failure-IsValid env.now env.jitter job error) in
    search (keeps, failed, schedule_retry-Keeps, give_up-Keeps) depth 12
