-- ===== src/Workflow/Started.antt =====
-- src/api.rs, `start_workflow`: the run and the job that it creates.
use qhook.Prelude.{
  ℕ, suc, ◌+◌, ◌*◌, ◌≡◌, refl, Bool, true, false, Bool-cases, inl, inr, eq_iff, ◌∙◌, Option, none,
  some, String, List, [], ◌∷◌, ◌++◌, arith,
}
use qhook.Prelude.Classes.{string_eq}
use qhook.Sql.{exists_where, update_where}
use qhook.Db.{Run, Job, Database, ok}
use qhook.Db.Jobs.{is_due}
use qhook.Db.Runs.{
  new_run, has_run_id, insert_run, insert_workflow_run, set_workflow_timeout, update_run,
}
use qhook.Db.Steps.{step_job, insert_workflow_job}
use qhook.Metrics.{inc_workflow_started}
use qhook.Workflow.{StepConfig, WorkflowConfig, step_at}
use qhook.Workflow.Rows.{step_row, run_row, url_of, filled}
use qhook.Workflow.Engine.{Env, Engine, done, Task, ◌>>=◌, ◌>>◌, call, tally, draw}
use qhook.Workflow.Advance.{text_or, with_template, spec_of}
use qhook.Workflow.Progress.{
  NoFault, called, call-made, tally-made, draw-made, has_job_id, insert_row-fresh,
}
use qhook.Workflow.Start.{create_step_job, params_error, set_timeout, start_run, start_workflow}

-- A run with the timeout of its workflow, if it has one.
abbrev with_timeout : Env → Option ℕ → Run → Run
with_timeout env none r = r
with_timeout env (some secs) r = record r { timeout_at = some (env.now + secs * 1000) }

-- The time at which a run is over that is started now.
abbrev timeout_of : Env → Option ℕ → Option ℕ
timeout_of env none = none
timeout_of env (some secs) = some (env.now + secs * 1000)

-- The run that is started, and the job of its first step.
abbrev pub started_run : Env → Engine → String → WorkflowConfig → String → StepConfig → Run
started_run env s name workflow event_id first_step =
    run_row env (env.ulid s.drawn) name event_id first_step.name (timeout_of env workflow.timeout)

abbrev pub first_job : Env → Engine → String → String → StepConfig → String → Job
first_job env s name event_id first_step payload =
    step_row env (env.ulid (suc s.drawn)) event_id name (url_of first_step.url) (env.ulid s.drawn) 0
      first_step (filled env first_step.input payload)

abbrev pub has_run : String → List Run → Bool
has_run id = exists_where (has_run_id id)

timed-row :
    (env : Env) (id name event_id step : String) (timeout : Option ℕ)
    → with_timeout env timeout (new_run id name event_id step env.now)
      ≡ run_row env id name event_id step (timeout_of env timeout)
timed-row env id name event_id step none = refl
timed-row env id name event_id step (some secs) = refl

-- The database with one more run.
abbrev with_run_row : Run → Database → Database
with_run_row r db = record db { runs = db.runs ++ r ∷ [] }

insert_run-fresh :
    (r : Run) (db : Database)
    → has_run r.id db.runs ≡ false
    → insert_run r db ≡ (with_run_row r db, ok tt)
unfolding insert_run
insert_run-fresh r db h = rw h refl

update_appended :
    (id : String) (f : Run → Run) (r : Run) (rs : List Run)
    → has_run id rs ≡ false
    → has_run_id id r ≡ true
    → update_where (has_run_id id) f (rs ++ r ∷ []) ≡ rs ++ f r ∷ []
unfolding update_where exists_where
update_appended id f r [] h k = rw k refl
update_appended id f r (x ∷ xs) h k = elim (Bool-cases (has_run_id id x)) [
  | inl e ↦ ground arith
  | inr e ↦
      (let rest : has_run id xs ≡ false = ground arith in
        rw (e, update_appended id f r xs rest k) refl)
]

create_step_job-made :
    (env : Env) (workflow run_id event_id : String) (step : StepConfig) (input : String)
    (s : Engine)
    → NoFault env
    → has_job_id (env.ulid s.drawn) s.world.db.jobs ≡ false
    → let (s', a) = create_step_job env workflow run_id event_id step 0 input s in
      (a ≡ done tt)
      × (s'.world.db ≡ (record s.world.db {
        jobs =
            s.world.db.jobs
            ++ step_job
                (spec_of env
                  (env.ulid s.drawn)
                  event_id
                  workflow
                  (text_or "" step.url)
                  run_id
                  0
                  step
                  (with_template env step.input input))
                env.now
              ∷ [];
      }))
unfolding create_step_job insert_workflow_job tally draw ◌>>=◌ ◌>>◌ call spec_of
create_step_job-made env workflow run_id event_id step input s nf fresh =
    let j =
      step_job
        (spec_of env (env.ulid s.drawn) event_id workflow (text_or "" step.url) run_id 0 step
          (with_template env step.input input))
        env.now in
    rw (nf s.calls, insert_row-fresh j s.world.db refl fresh) (refl, refl)

-- What follows the insert of the run.
set_timeout-made :
    (env : Env) (timeout : Option ℕ) (r : Run) (rest : Database) (next : Task (Unit {0}))
    (s : Engine)
    → NoFault env
    → s.world.db ≡ with_run_row r rest
    → has_run r.id rest.runs ≡ false
    → (s' : Engine) × ((set_timeout env r.id timeout >> next) s ≡ next s')
      × (s'.world.db ≡ with_run_row (with_timeout env timeout r) rest)
      × (s'.drawn ≡ s.drawn)
unfolding set_timeout ◌>>◌ call
set_timeout-made env none r rest next s nf stored fresh = (s, refl, stored, refl)
set_timeout-made env (some secs) r rest next s nf stored fresh =
    let at = env.now + secs * 1000 in
    let db = set_workflow_timeout r.id at s.world.db in
    let same : has_run_id r.id r ≡ true = unfold has_run_id in (eq_iff r.id r.id).1 refl in
    let updated : db ≡ with_run_row (with_timeout env (some secs) r) rest =
      unfold set_workflow_timeout update_run in
      rw
        (
          stored,
          update_appended r.id (λ r'. record r' { timeout_at = some at }) r rest.runs fresh same,
        )
        refl in
    (called db s, rw (nf s.calls) refl, updated, refl)

start_run-made :
    (env : Env) (name : String) (workflow : WorkflowConfig) (event_id payload : String)
    (first_step : StepConfig) (s : Engine)
    → NoFault env
    → has_run (env.ulid s.drawn) s.world.db.runs ≡ false
    → has_job_id (env.ulid (suc s.drawn)) s.world.db.jobs ≡ false
    → let (s', a) = start_run env name workflow event_id payload first_step s in
      (a ≡ done tt)
      × (s'.world.db ≡ (record s.world.db {
        runs = s.world.db.runs ++ started_run env s name workflow event_id first_step ∷ [];
        jobs = s.world.db.jobs ++ first_job env s name event_id first_step payload ∷ [];
      }))
unfolding start_run
start_run-made env name workflow event_id payload first_step s nf new_run_id new_job_id =
    let id = env.ulid s.drawn in
    let r = new_run id name event_id first_step.name env.now in
    let s₁ = record s { drawn = suc s.drawn } in
    let s₂ = called (with_run_row r s.world.db) s₁ in
    let inserted : insert_workflow_run id name event_id first_step.name env.now s.world.db
        ≡ (with_run_row r s.world.db, ok tt) =
      unfold insert_workflow_run in insert_run-fresh r s.world.db new_run_id in
    let next =
      tally (inc_workflow_started name)
      >> create_step_job env name id event_id first_step 0 payload in
    let (s₃, goes_on, stored, drawn) =
      set_timeout-made env workflow.timeout r s.world.db next s₂ nf refl new_run_id in
    let s₄ = record s₃ {
      world = record s₃.world { metrics = inc_workflow_started name s₃.world.metrics };
    } in
    let fresh : has_job_id (env.ulid s₃.drawn) s₃.world.db.jobs ≡ false =
      rw (drawn, stored) new_job_id in
    let (returned, created) =
      create_step_job-made env name id event_id first_step payload s₄ nf fresh in
    rw
      (
        draw-made env _ s,
        call-made env (insert_workflow_run id name event_id first_step.name env.now) _ s₁ nf
            inserted,
        goes_on,
        tally-made (inc_workflow_started name) _ s₃,
      )
      (
        returned,
        created
            ∙ rw (drawn, stored, timed-row env id name event_id first_step.name workflow.timeout)
                refl,
      )

-- If no call of the database fails, the payload has no error, the workflow has a first step and the
-- two ULIDs to be drawn are new, then `start_workflow` adds one run, which is running, is at the
-- first step and has the workflow's timeout, and one job, the first step's, which is due at once,
-- belongs to the run and has the payload, through the step's template, as its input; and it changes
-- nothing else in the database.
pub start_workflow_starts :
    (env : Env) (name : String) (workflow : WorkflowConfig) (event_id payload : String) (s : Engine)
    {first_step : StepConfig}
    → NoFault env
    → params_error env workflow payload ≡ none
    → step_at workflow.steps 0 ≡ some first_step
    → has_run (env.ulid s.drawn) s.world.db.runs ≡ false
    → has_job_id (env.ulid (suc s.drawn)) s.world.db.jobs ≡ false
    → let (s', a) = start_workflow env name workflow event_id payload s in
      let job = first_job env s name event_id first_step payload in
      (a ≡ done tt)
      × (s'.world.db ≡ (record s.world.db {
        runs = s.world.db.runs ++ started_run env s name workflow event_id first_step ∷ [];
        jobs = s.world.db.jobs ++ job ∷ [];
      }))
      × (is_due env.now job ≡ true)
unfolding start_workflow is_due
start_workflow_starts env name workflow event_id payload s {first_step} nf accepted first new_run_id
      new_job_id =
    let (returned, created) =
      start_run-made env name workflow event_id payload first_step s nf new_run_id new_job_id in
    rw (accepted, first) (returned, created, ground arith)
