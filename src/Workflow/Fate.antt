-- ===== src/Workflow/Fate.antt =====
-- src/queue.rs, `handle_workflow_step_failure`: what a failure leaves, on each of its branches.
use qhook.Prelude.{
  ℕ, ◌+◌, ◌*◌, ◌≡◌, refl, ◌∙◌, ap, Bool, true, false, ◌&&◌, Option, none, some, String, [], ◌∷◌,
  ◌++◌, ltb, if◌then◌else◌, Bool-cases, Option-cases, inl, inr,
}
use qhook.Prelude.Classes.{string_eq}
use qhook.Sql.Laws.{find_where-update_self}
use qhook.Db.{Job, Database}
use qhook.Db.Jobs.{
  has_id, update_jobs, complete, kill, mark_job_completed, mark_job_dead, mark_job_retryable,
}
use qhook.Db.Runs.{update_run, update_workflow_run_step, fail_workflow_run}
use qhook.Db.Steps.{get_workflow_job_data}
use qhook.Metrics.{inc_dlq, inc_workflow_failed}
use qhook.Worker.Deliver.{World, AlertEvent, dlq, workflow_failed, send}
use qhook.Worker.Failure.{base_backoff}
use qhook.Workflow.{
  StepConfig, CatchConfig, OnFailure, stop, continue, WorkflowConfig, find_workflow, find_step,
  find_step_from,
}
use qhook.Workflow.Handler.{workflow_part, step_part}
use qhook.Workflow.Engine.{Env, Engine, done, Task, ◌>>◌, call, write, attempt, tally, alert}
use qhook.Workflow.Success.{handle_workflow_step_success}
use qhook.Workflow.Failure.{
  should_retry, find_catch, catches, on_failure, catch_payload, route_to_catch_step, schedule_retry,
  error_payload, continue_run, stop_run, uncaught, give_up, handle_workflow_step_failure,
}
use qhook.Workflow.Progress.{
  NoFault, called, read-made, ok_or_none-made, write-made, tally-made, has_job_id,
  has_job_id-update, entered_job, enter_step-made,
}

-- A rule has caught the error: the job is completed, and the rule's target is entered. If the
-- target is no step, nothing else happens.
abbrev pub Caught :
    Env → Job → String → Engine → String → Option (ℕ × StepConfig) → Database → Type 0
Caught env job error s run_id none db = db ≡ mark_job_completed env.now job.id s.world.db
Caught env job error s run_id (some (i, target)) db =
    (db.jobs
      ≡ (mark_job_completed env.now job.id s.world.db).jobs
        ++ entered_job env s job.event_id (workflow_part job.handler) run_id i target
            (catch_payload env job error)
          ∷ [])
    × (db.runs ≡ (update_workflow_run_step run_id target.name s.world.db).runs)

-- No rule has caught it: the job is dead and the run has failed, or the job is completed and the
-- error is handled as the response of the step.
abbrev pub Uncaught : Env → Job → String → Engine → String → OnFailure → Database → Type 0
Uncaught env job error s run_id stop db =
    db ≡ fail_workflow_run env.now run_id (mark_job_dead env.now job.id error s.world.db)
Uncaught env job error s run_id continue db =
    db
    ≡ (handle_workflow_step_success env job (some (error_payload env error (step_part job.handler)))
        (called (mark_job_completed env.now job.id s.world.db) s)).0.world.db

abbrev GivenUp :
    Env
    → Job
    → String
    → Engine
    → String
    → WorkflowConfig
    → OnFailure
    → Option CatchConfig
    → Database
    → Type 0
GivenUp env job error s run_id workflow o none db = Uncaught env job error s run_id o db
GivenUp env job error s run_id workflow o (some c) db =
    Caught env job error s run_id (find_step_from 0 c.goto workflow.steps) db

-- The error is tried again, after the backoff, or it is given up.
abbrev pub FailureFate :
    Env → Job → String → String → Engine → String → WorkflowConfig → Bool → Database → Type 0
FailureFate env job error kind s run_id workflow true db =
    db
    ≡ mark_job_retryable job.id (env.now + env.jitter (base_backoff (job.attempt + 1)) * 1000) error
        s.world.db
FailureFate env job error kind s run_id workflow false db =
    let step = find_step (step_part job.handler) workflow.steps in
    GivenUp env job error s run_id workflow (on_failure step) (find_catch kind (catches step)) db

attempt-made :
    (env : Env) (f : Database → Database) (s : Engine)
    → NoFault env
    → attempt (write env f) s ≡ (called (f s.world.db) s, done tt)
unfolding attempt call
attempt-made env f s nf = rw (nf s.calls) refl

pub attempt-then :
    {B : Type 0} (env : Env) (f : Database → Database) (next : Task B) (s : Engine)
    → NoFault env
    → (attempt (write env f) >> next) s ≡ next (called (f s.world.db) s)
unfolding ◌>>◌
attempt-then env f next s nf = rw (attempt-made env f s nf) refl

row-completed :
    (now : ℕ) (id : String) (db : Database) {row : Job}
    → get_workflow_job_data id db ≡ some row
    → get_workflow_job_data id (mark_job_completed now id db) ≡ some (complete now row)
unfolding get_workflow_job_data mark_job_completed update_jobs
row-completed now id db found =
    find_where-update_self (has_id id) (complete now) (λ j. unfold has_id in refl) db.jobs found

row-dead :
    (now : ℕ) (id error : String) (db : Database) {row : Job}
    → get_workflow_job_data id db ≡ some row
    → get_workflow_job_data id (mark_job_dead now id error db) ≡ some (kill now error row)
unfolding get_workflow_job_data mark_job_dead update_jobs
row-dead now id error db found =
    find_where-update_self (has_id id) (kill now error) (λ j. unfold has_id in refl) db.jobs found

send-db : (e : AlertEvent) (w : World) → (send e w).db ≡ w.db
unfolding send
send-db e w = elim (Bool-cases w.alerting) [ inl on ↦ rw on refl | inr off ↦ rw off refl ]

alert-then :
    {B : Type 0} (e : AlertEvent) (next : Task B) (s : Engine)
    → (alert e >> next) s ≡ next (record s { world = send e s.world })
unfolding alert ◌>>◌
alert-then e next s = refl

-- `fail_workflow_run` with its counter and its alert, as `stop_run` calls them.
pub report-made :
    (env : Env) (name run_id : String) (s : Engine)
    → NoFault env
    → let (s', a) =
        (attempt (write env (fail_workflow_run env.now run_id))
            >> (tally (inc_workflow_failed name) >> alert (workflow_failed name run_id)))
          s in
      (a ≡ done tt) × (s'.world.db ≡ fail_workflow_run env.now run_id s.world.db)
unfolding tally alert ◌>>◌
report-made env name run_id s nf =
    rw (attempt-made env (fail_workflow_run env.now run_id) s nf)
      (refl, send-db (workflow_failed name run_id) _)

stop-Fate :
    (env : Env) (job : Job) (error : String) (s : Engine) {row : Job} {run_id : String}
    → NoFault env
    → get_workflow_job_data job.id s.world.db ≡ some row
    → row.workflow_run_id ≡ some run_id
    → Uncaught env job error s run_id stop (stop_run env job error s).0.world.db
unfolding stop_run
stop-Fate env job error s {row} {run_id} nf found in_run =
    let db = mark_job_dead env.now job.id error s.world.db in
    let s₁ = called db s in
    let s₂ = record s₁ {
      world = record s₁.world { metrics = inc_dlq job.handler s₁.world.metrics };
    } in
    let e = dlq job.id job.handler (job.attempt + 1) in
    let s₃ = record s₂ { world = send e s₂.world } in
    rw
      (
        attempt-then env _ _ s nf,
        tally-made _ _ s₁,
        alert-then _ _ s₂,
        ok_or_none-made env _ _ s₃ nf,
        send-db e s₂.world,
        row-dead env.now job.id error _ found,
        in_run,
      )
      (report-made env (workflow_part job.handler) run_id _ nf).1

continue-Fate :
    (env : Env) (job : Job) (error : String) (s : Engine) (run_id : String)
    → NoFault env
    → Uncaught env job error s run_id continue (continue_run env job error s).0.world.db
unfolding continue_run attempt
continue-Fate env job error s run_id nf = rw (attempt-then env _ _ s nf) refl

completed-fresh :
    (now : ℕ) (x id : String) (db : Database)
    → has_job_id x (mark_job_completed now id db).jobs ≡ has_job_id x db.jobs
unfolding mark_job_completed
completed-fresh now x id db = has_job_id-update x (has_id id) (complete now) (λ j. refl) db.jobs

completed-runs :
    (now : ℕ) (id run_id name : String) (db : Database)
    → (update_workflow_run_step run_id name (mark_job_completed now id db)).runs
      ≡ (update_workflow_run_step run_id name db).runs
unfolding mark_job_completed update_workflow_run_step update_run
completed-runs now id run_id name db = refl

route_to_catch_step-Fate :
    (env : Env) (job : Job) (error : String) (s : Engine) (c : CatchConfig)
    {workflow : WorkflowConfig} {row : Job} {run_id : String}
    → NoFault env
    → find_workflow (workflow_part job.handler) env.workflows ≡ some workflow
    → get_workflow_job_data job.id s.world.db ≡ some row
    → row.workflow_run_id ≡ some run_id
    → has_job_id (env.ulid s.drawn) s.world.db.jobs ≡ false
    → Caught env job error s run_id
        (find_step_from 0 c.goto workflow.steps)
        (attempt
          (route_to_catch_step env (workflow_part job.handler) c.goto job error)
          s).0.world.db
unfolding route_to_catch_step attempt
route_to_catch_step-Fate env job error s c {workflow} {row} {run_id} nf known found in_run fresh =
    let db = mark_job_completed env.now job.id s.world.db in
    let s₁ = called db s in
    elim (Option-cases (find_step_from 0 c.goto workflow.steps)) [
      | inl gone ↦ rw (write-made env _ _ s nf, known, gone) refl
      | inr ((i, target), there) ↦
          (let fresh' : has_job_id (env.ulid s.drawn) db.jobs ≡ false =
              completed-fresh env.now (env.ulid s.drawn) job.id s.world.db ∙ fresh in
            let entered =
              enter_step-made env job.event_id (workflow_part job.handler) run_id i target
                (catch_payload env job error) (called db s₁) nf fresh' in
            rw
              (
                write-made env _ _ s nf,
                known,
                there,
                read-made env _ _ s₁ nf,
                row-completed env.now job.id s.world.db found,
                in_run,
              )
              (
                ap (λ d. d.jobs) entered.1,
                ap (λ d. d.runs) entered.1
                    ∙ completed-runs env.now job.id run_id target.name s.world.db,
              ))
    ]

uncaught-Fate :
    (env : Env) (job : Job) (error : String) (s : Engine) (o : OnFailure) {row : Job}
    {run_id : String}
    → NoFault env
    → get_workflow_job_data job.id s.world.db ≡ some row
    → row.workflow_run_id ≡ some run_id
    → Uncaught env job error s run_id o (uncaught env job error o s).0.world.db
uncaught-Fate env job error s stop nf found in_run = stop-Fate env job error s nf found in_run
uncaught-Fate env job error s continue {row} {run_id} nf found in_run =
    continue-Fate env job error s run_id nf

give_up-Fate :
    (env : Env) (job : Job) (error kind : String) (s : Engine) {workflow : WorkflowConfig}
    {row : Job} {run_id : String}
    → NoFault env
    → find_workflow (workflow_part job.handler) env.workflows ≡ some workflow
    → get_workflow_job_data job.id s.world.db ≡ some row
    → row.workflow_run_id ≡ some run_id
    → has_job_id (env.ulid s.drawn) s.world.db.jobs ≡ false
    → FailureFate env job error kind s run_id workflow false
        (give_up env job (find_step (step_part job.handler) workflow.steps) error kind s).0.world.db
unfolding give_up
give_up-Fate env job error kind s {workflow} {row} {run_id} nf known found in_run fresh =
    let step = find_step (step_part job.handler) workflow.steps in
    elim (Option-cases (find_catch kind (catches step))) [
      | inl none_fits ↦
          rw none_fits (uncaught-Fate env job error s (on_failure step) nf found in_run)
      | inr (c, fits) ↦
          rw fits (route_to_catch_step-Fate env job error s c nf known found in_run fresh)
    ]

schedule_retry-db :
    (env : Env) (job : Job) (error : String) (s : Engine)
    → NoFault env
    → (schedule_retry env job error s).0.world.db
      ≡ mark_job_retryable job.id
          (env.now + env.jitter (base_backoff (job.attempt + 1)) * 1000)
          error
          s.world.db
unfolding schedule_retry
schedule_retry-db env job error s nf = ap (λ r. r.0.world.db) (attempt-made env _ s nf)

failure-branch :
    (env : Env) (job : Job) (error kind : String) (s : Engine) {workflow : WorkflowConfig}
    → find_workflow (workflow_part job.handler) env.workflows ≡ some workflow
    → let step = find_step (step_part job.handler) workflow.steps in
      handle_workflow_step_failure env job error kind s
      ≡ (if should_retry kind step && ltb (job.attempt + 1) job.max_attempts
            then schedule_retry env job error
            else give_up env job step error kind)
          s
unfolding handle_workflow_step_failure
failure-branch env job error kind s known = rw known refl

-- If no call of the database fails, the job of a known workflow fails and its row belongs to a run,
-- then: while attempts are left and `retry.errors` admits the error, the job is due again after the
-- backoff and nothing else changes. Otherwise the first rule that names the error completes the job
-- and enters its target with the error as its input, or, if no step has that name, only completes
-- the job. With no such rule, `stop` kills the job and fails its run, and changes nothing else; and
-- `continue` completes the job and treats the error as the response of the step.
pub handle_workflow_step_failure-Fate :
    (env : Env) (job : Job) (error kind : String) (s : Engine) {workflow : WorkflowConfig}
    {row : Job} {run_id : String}
    → NoFault env
    → find_workflow (workflow_part job.handler) env.workflows ≡ some workflow
    → get_workflow_job_data job.id s.world.db ≡ some row
    → row.workflow_run_id ≡ some run_id
    → has_job_id (env.ulid s.drawn) s.world.db.jobs ≡ false
    → let again =
        should_retry kind (find_step (step_part job.handler) workflow.steps)
        && ltb (job.attempt + 1) job.max_attempts in
      FailureFate env job error kind s run_id workflow again
        (handle_workflow_step_failure env job error kind s).0.world.db
handle_workflow_step_failure-Fate env job error kind s {workflow} {row} {run_id} nf known found
      in_run fresh =
    let again =
      should_retry kind (find_step (step_part job.handler) workflow.steps)
      && ltb (job.attempt + 1) job.max_attempts in
    rw (failure-branch env job error kind s known) (elim (Bool-cases again) [
      | inl more ↦ rw more (schedule_retry-db env job error s nf)
      | inr last ↦ rw last (give_up-Fate env job error kind s nf known found in_run fresh)
    ])
