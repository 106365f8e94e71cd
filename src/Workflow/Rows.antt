-- ===== src/Workflow/Rows.antt =====
-- src/queue.rs and src/api.rs: the rows that the engine of workflows is to leave, field by field, with
-- none of the statements of src/db.rs in them.
use Prim.Native.String.{◌++◌ as ◌++ᵗ◌}
use qhook.Prelude.{
  ℕ, ◌≡◌, refl, ap, Bool, Option, none, some, String, List, [], ◌∷◌, map, min, if◌then◌else◌,
}
use qhook.Prelude.Classes.{◌==◌, string_eq}
use qhook.Sql.{update_where}
use qhook.Db.{Job, Run, run_running, run_failed, available, completed, retryable, dead, Database}
use qhook.Db.Jobs.{has_id, mark_job_completed, mark_job_dead, mark_job_retryable, update_jobs}
use qhook.Db.Runs.{
  has_run_id, update_run, update_workflow_run_step, fail_workflow_run, set_parallel_state,
}
use qhook.Db.Steps.{save_step_output}
use qhook.Workflow.{StepConfig, StepRetryConfig}
use qhook.Workflow.Engine.{Env}

-- The rows with this one changed, wherever it stands.
abbrev pub change_job : String → (Job → Job) → List Job → List Job
change_job id f jobs = map (λ j. if j.id == id then f j else j) jobs

abbrev pub change_run : String → (Run → Run) → List Run → List Run
change_run id f runs = map (λ r. if r.id == id then f r else r) runs

abbrev attempts_of : ℕ → Option StepRetryConfig → ℕ
attempts_of n none = n
attempts_of n (some r) = r.max

-- What a template makes of a payload, if there is one.
abbrev pub filled : Env → Option String → String → String
filled env none payload = payload
filled env (some template) payload = env.apply_transform payload template

-- The job of a step that is delivered to `url`: available, due at once, of the run, with its input.
abbrev pub step_row :
    Env → String → String → String → String → String → ℕ → StepConfig → String → Job
step_row env id event_id workflow url run_id index step input = record {
  id = id;
  event_id = event_id;
  handler = workflow ++ᵗ "/" ++ᵗ step.name;
  url = url;
  status = available;
  attempt = 0;
  max_attempts = min (attempts_of env.default_retry_max step.retry) 2147483647;
  scheduled_at = env.now;
  started_at = none;
  completed_at = none;
  created_at = env.now;
  last_error = none;
  workflow_run_id = some run_id;
  step_name = some step.name;
  step_index = some index;
  step_input = some input;
  step_output = none;
  branch_name = none;
  callback_token = none;
}

abbrev pub url_of : Option String → String
url_of none = ""
url_of (some url) = url

-- The input of a row's step and its index, where the row has none.
abbrev pub input_of : Option String → String
input_of none = "{}"
input_of (some input) = input

abbrev pub index_of : Option ℕ → ℕ
index_of none = 0
index_of (some i) = i

-- A run that is running, at the given step.
abbrev pub run_row : Env → String → String → String → String → Option ℕ → Run
run_row env id workflow event_id step timeout_at = record {
  id = id;
  workflow = workflow;
  event_id = event_id;
  status = run_running;
  current_step = some step;
  created_at = env.now;
  completed_at = none;
  parallel_step = none;
  parallel_count = 0;
  parallel_completed = 0;
  timeout_at = timeout_at;
  parent_run_id = none;
  parent_step_index = none;
}

-- What the statements of src/db.rs leave, as changes of one row.
update_where-map :
    {A : Type 0} (p : A → Bool) (f : A → A) (rows : List A)
    → update_where p f rows ≡ map (λ r. if p r then f r else r) rows
unfolding update_where
update_where-map p f [] = refl
update_where-map p f (r ∷ rows) = ap (λ l. (if p r then f r else r) ∷ l) (update_where-map p f rows)

pub mark_job_completed-changed :
    (now : ℕ) (id : String) (db : Database)
    → mark_job_completed now id db ≡ record db {
      jobs = change_job id (λ j. record j { status = completed; completed_at = some now }) db.jobs;
    }
unfolding mark_job_completed has_id
mark_job_completed-changed now id db =
    ap (λ js. record db { jobs = js }) (update_where-map (has_id id) _ db.jobs)

pub mark_job_dead-changed :
    (now : ℕ) (id error : String) (db : Database)
    → mark_job_dead now id error db ≡ record db {
      jobs =
          change_job id
            (λ j. record j { status = dead; completed_at = some now; last_error = some error })
            db.jobs;
    }
unfolding mark_job_dead has_id
mark_job_dead-changed now id error db =
    ap (λ js. record db { jobs = js }) (update_where-map (has_id id) _ db.jobs)

pub mark_job_retryable-changed :
    (id : String) (at : ℕ) (error : String) (db : Database)
    → mark_job_retryable id at error db ≡ record db {
      jobs =
          change_job id
            (λ j. record j { status = retryable; scheduled_at = at; last_error = some error })
            db.jobs;
    }
unfolding mark_job_retryable has_id
mark_job_retryable-changed id at error db =
    ap (λ js. record db { jobs = js }) (update_where-map (has_id id) _ db.jobs)

pub save_step_output-jobs :
    (id output : String) (db : Database)
    → (save_step_output id output db).jobs
      ≡ change_job id (λ j. record j { step_output = some output }) db.jobs
unfolding save_step_output update_jobs has_id
save_step_output-jobs id output db = update_where-map (has_id id) _ db.jobs

pub update_workflow_run_step-runs :
    (id step : String) (db : Database)
    → (update_workflow_run_step id step db).runs
      ≡ change_run id (λ r. record r { current_step = some step }) db.runs
unfolding update_workflow_run_step update_run has_run_id
update_workflow_run_step-runs id step db = update_where-map (has_run_id id) _ db.runs

pub fail_workflow_run-changed :
    (now : ℕ) (id : String) (db : Database)
    → fail_workflow_run now id db ≡ record db {
      runs = change_run id (λ r. record r { status = run_failed; completed_at = some now }) db.runs;
    }
unfolding fail_workflow_run update_run has_run_id
fail_workflow_run-changed now id db =
    ap (λ rs. record db { runs = rs }) (update_where-map (has_run_id id) _ db.runs)

pub set_parallel_state-runs :
    (id step : String) (count : ℕ) (db : Database)
    → (set_parallel_state id step count db).runs
      ≡ change_run id
          (λ r. record r {
            parallel_step = some step;
            parallel_count = count;
            parallel_completed = 0;
          })
          db.runs
unfolding set_parallel_state update_run has_run_id
set_parallel_state-runs id step count db = update_where-map (has_run_id id) _ db.runs
