-- ===== src/Workflow/Progress.antt =====
-- src/queue.rs, `handle_workflow_step_success`: a step that succeeds hands its run on.
use qhook.Prelude.{
  ℕ, suc, ◌+◌, ◌≡◌, refl, ◌∙◌, ap, Bool, false, Option, none, some, String, List, [], ◌∷◌, ◌++◌,
  arith, min, Bool-cases, inl, inr,
}
use qhook.Prelude.Classes.{◌==◌, string_eq}
use qhook.Sql.{exists_where, update_where}
use qhook.Db.{Job, Database, Result, ok}
use qhook.Db.Events.{insert_job_row, has_job}
use qhook.Db.Jobs.{has_id, update_jobs}
use qhook.Db.Runs.{update_run, update_workflow_run_step, get_workflow_run, get_workflow_timeout}
use qhook.Db.Steps.{insert_row, insert_workflow_job, save_step_output, get_workflow_job_data}
use qhook.Metrics.{Metrics, inc_workflow_step_completed}
use qhook.Workflow.{StepConfig, WorkflowConfig, find_workflow, step_at}
use qhook.Workflow.Handler.{workflow_part}
use qhook.Workflow.Rows.{
  change_job, change_run, step_row, url_of, filled, input_of, index_of, save_step_output-jobs,
  update_workflow_run_step-runs,
}
use qhook.Workflow.Output.{Output, output_payload-Output}
use qhook.Workflow.Engine.{
  Env, Engine, done, Task, ◌>>=◌, ◌>>◌, call, read, write, tally, draw, ok_or_none,
}
use qhook.Workflow.Advance.{text_or, nat_or, spec_of, enqueue_step, enter_step, next_step, is_over}
use qhook.Workflow.Success.{
  current_step, save_output, output_payload, is_end, advance_run, step_succeeded, with_run,
  handle_workflow_step_success,
}

-- Every call of the database is made.
abbrev pub NoFault : Env → Type 0
NoFault env = (n : ℕ) → env.fault n ≡ false

-- The state after a call that left the given database.
abbrev pub called : Database → Engine → Engine
called db s = record s { calls = suc s.calls; world = record s.world { db = db } }

pub read-made :
    {A B : Type 0} (env : Env) (f : Database → A) (next : A → Task B) (s : Engine)
    → NoFault env
    → (read env f >>= next) s ≡ next (f s.world.db) (called s.world.db s)
unfolding ◌>>=◌ call
read-made env f next s nf = rw (nf s.calls) refl

pub ok_or_none-made :
    {A B : Type 0} (env : Env) (f : Database → Option A) (next : Option A → Task B) (s : Engine)
    → NoFault env
    → (ok_or_none (read env f) >>= next) s ≡ next (f s.world.db) (called s.world.db s)
unfolding ◌>>=◌ call ok_or_none
ok_or_none-made env f next s nf = rw (nf s.calls) refl

pub write-made :
    {B : Type 0} (env : Env) (f : Database → Database) (next : Task B) (s : Engine)
    → NoFault env
    → (write env f >> next) s ≡ next (called (f s.world.db) s)
unfolding ◌>>◌ call
write-made env f next s nf = rw (nf s.calls) refl

-- A call whose statement succeeds.
pub call-made :
    {A B : Type 0} (env : Env) (op : Database → Database × Result A) (next : Task B) (s : Engine)
    {db : Database} {a : A}
    → NoFault env
    → op s.world.db ≡ (db, ok a)
    → (call env op >> next) s ≡ next (called db s)
unfolding ◌>>◌ call
call-made env op next s nf e = rw (nf s.calls, e) refl

pub tally-made :
    {B : Type 0} (f : Metrics → Metrics) (next : Task B) (s : Engine)
    → (tally f >> next) s
      ≡ next (record s { world = record s.world { metrics = f s.world.metrics } })
unfolding ◌>>◌ tally
tally-made f next s = refl

pub draw-made :
    {B : Type 0} (env : Env) (next : String → Task B) (s : Engine)
    → (draw env >>= next) s ≡ next (env.ulid s.drawn) (record s { drawn = suc s.drawn })
unfolding ◌>>=◌ draw
draw-made env next s = refl

-- A job with a new id is stored behind the others.
abbrev pub has_job_id : String → List Job → Bool
has_job_id id = exists_where (λ r. r.id == id)

has_job-fresh :
    (j : Job) (rows : List Job)
    → j.callback_token ≡ none
    → has_job_id j.id rows ≡ false
    → has_job j rows ≡ false
unfolding has_job exists_where
has_job-fresh j [] k h = refl
has_job-fresh j (r ∷ rows) k h = ground (arith, has_job-fresh j rows)

pub insert_row-fresh :
    (j : Job) (db : Database)
    → j.callback_token ≡ none
    → has_job_id j.id db.jobs ≡ false
    → insert_row j db ≡ (record db { jobs = db.jobs ++ j ∷ [] }, ok tt)
unfolding insert_row
insert_row-fresh j db k h =
    let stored : insert_job_row j db.jobs ≡ ok (db.jobs ++ j ∷ []) =
      unfold insert_job_row in rw (has_job-fresh j db.jobs k h) refl in
    ground (arith, stored)

-- The job of a step that a run enters: its input is the payload, through the step's template.
abbrev pub entered_job : Env → Engine → String → String → String → ℕ → StepConfig → String → Job
entered_job env s event_id workflow run_id index step payload =
    step_row env (env.ulid s.drawn) event_id workflow (url_of step.url) run_id
      (min index 2147483647) step (filled env step.input payload)

pub enter_step-made :
    (env : Env) (event_id workflow run_id : String) (i : ℕ) (step : StepConfig) (payload : String)
    (s : Engine)
    → NoFault env
    → has_job_id (env.ulid s.drawn) s.world.db.jobs ≡ false
    → let (s', a) = enter_step env event_id workflow run_id i step payload s in
      (a ≡ done tt)
      × (s'.world.db ≡ (record (update_workflow_run_step run_id step.name s.world.db) {
        jobs = s.world.db.jobs ++ entered_job env s event_id workflow run_id i step payload ∷ [];
      }))
      × (s'.drawn ≡ suc s.drawn)
unfolding enter_step enqueue_step insert_workflow_job update_workflow_run_step update_run tally draw
    ◌>>=◌ ◌>>◌ call spec_of
enter_step-made env event_id workflow run_id i step payload s nf fresh =
    let db' = update_workflow_run_step run_id step.name s.world.db in
    let j = entered_job env s event_id workflow run_id i step payload in
    rw (nf s.calls, nf (suc s.calls), insert_row-fresh j db' refl fresh) (refl, refl, refl)

-- A write that leaves the ids does not touch which are there.
pub has_job_id-update :
    (x : String) (p : Job → Bool) (f : Job → Job)
    → ((j : Job) → (f j).id ≡ j.id)
    → (rows : List Job) → has_job_id x (update_where p f rows) ≡ has_job_id x rows
unfolding exists_where update_where
has_job_id-update x p f same [] = refl
has_job_id-update x p f same (j ∷ js) = elim (Bool-cases (p j)) [
  | inl e ↦ rw (e, same j, has_job_id-update x p f same js) refl
  | inr e ↦ rw (e, has_job_id-update x p f same js) refl
]

saved-fresh :
    (x id output : String) (s : Engine)
    → has_job_id x s.world.db.jobs ≡ false
    → has_job_id x (save_step_output id output s.world.db).jobs ≡ false
unfolding save_step_output update_jobs
saved-fresh x id output s h = has_job_id-update x (has_id id) _ (λ j. refl) s.world.db.jobs ∙ h

saved-timeout :
    (env : Env) (run_id id output : String) (s : Engine)
    → is_over env.now (get_workflow_timeout run_id s.world.db) ≡ false
    → is_over env.now (get_workflow_timeout run_id (save_step_output id output s.world.db)) ≡ false
unfolding save_step_output update_jobs get_workflow_timeout get_workflow_run
saved-timeout env run_id id output s h = h

saved-runs :
    (run_id name id output : String) (s : Engine)
    → (update_workflow_run_step run_id name (save_step_output id output s.world.db)).runs
      ≡ (update_workflow_run_step run_id name s.world.db).runs
unfolding save_step_output update_jobs update_workflow_run_step update_run
saved-runs run_id name id output s = refl

-- If no call of the database fails, a step that is no branch and no end succeeds in time, and its
-- workflow has a next step, then the response is stored, the run's current step is the next one, no
-- other run changes, and exactly one job is added: the next step's, available and due at once, of
-- the same run. Its input comes, through the next step's template, of the text that the step hands
-- on: the response merged with the step's input as `result_path` says, through the `output` template.
pub success_enters_next :
    (env : Env) (job : Job) (body : String) (s : Engine) {row : Job} {workflow : WorkflowConfig}
    {next : StepConfig} {run_id : String}
    → NoFault env
    → get_workflow_job_data job.id s.world.db ≡ some row
    → row.workflow_run_id ≡ some run_id
    → row.branch_name ≡ none
    → find_workflow (workflow_part job.handler) env.workflows ≡ some workflow
    → is_over env.now (get_workflow_timeout run_id s.world.db) ≡ false
    → is_end (current_step row.step_name workflow) ≡ false
    → step_at workflow.steps (index_of row.step_index + 1) ≡ some next
    → has_job_id (env.ulid s.drawn) s.world.db.jobs ≡ false
    → let (s', a) = handle_workflow_step_success env job (some body) s in
      let step = current_step row.step_name workflow in
      (a ≡ done tt)
      × (output : String) × Output env (input_of row.step_input) body step output
      × (s'.world.db.jobs
          ≡ change_job job.id (λ j. record j { step_output = some body }) s.world.db.jobs
            ++ step_row env
                (env.ulid s.drawn)
                job.event_id
                (workflow_part job.handler)
                (url_of next.url)
                run_id
                (min (index_of row.step_index + 1) 2147483647)
                next
                (filled env next.input output)
              ∷ [])
      × (s'.world.db.runs
          ≡ change_run run_id (λ r. record r { current_step = some next.name }) s.world.db.runs)
unfolding handle_workflow_step_success with_run step_succeeded save_output advance_run next_step
success_enters_next env job body s {row} {workflow} {next} {run_id} nf found in_run no_branch known
      in_time goes_on step fresh =
    let db = save_step_output job.id body s.world.db in
    let output =
      output_payload env (current_step row.step_name workflow) (text_or "{}" row.step_input) body in
    let added =
      entered_job env s job.event_id (workflow_part job.handler) run_id
        (nat_or 0 row.step_index + 1) next output in
    let s₁ = called s.world.db s in
    let s₂ = called db s₁ in
    let s₃ = record s₂ {
      world = record s₂.world {
        metrics = inc_workflow_step_completed (workflow_part job.handler) s₂.world.metrics;
      };
    } in
    let s₄ = called db s₃ in
    let fresh' : has_job_id (env.ulid s.drawn) db.jobs ≡ false =
      saved-fresh _ job.id body s fresh in
    let in_time' : is_over env.now (get_workflow_timeout run_id db) ≡ false =
      saved-timeout env run_id job.id body s in_time in
    let entered =
      enter_step-made env job.event_id (workflow_part job.handler) run_id
        (nat_or 0 row.step_index + 1) next output s₄ nf fresh' in
    rw
      (
        read-made env _ _ s nf,
        found,
        in_run,
        no_branch,
        write-made env _ _ s₁ nf,
        known,
        tally-made _ _ s₂,
        ok_or_none-made env _ _ s₃ nf,
        in_time',
        goes_on,
        step,
      )
      (
        entered.0,
        output,
        output_payload-Output env (current_step row.step_name workflow)
            (text_or "{}" row.step_input) body,
        ap (λ d. d.jobs) entered.1
            ∙ ap (λ js. js ++ added ∷ []) (save_step_output-jobs job.id body s.world.db),
        ap (λ d. d.runs) entered.1
            ∙ saved-runs run_id next.name job.id body s
            ∙ update_workflow_run_step-runs run_id next.name s.world.db,
      )
