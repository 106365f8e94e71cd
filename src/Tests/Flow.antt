-- ===== src/Tests/Flow.antt =====
-- Runs of the workflows of src/queue.rs.

use qhook.Prelude.{
  ℕ, zero, suc, ◌≤◌, ◌≡◌, ◌∙◌, ap, sym, refl, false, true, Option, none, some, String, List, [],
  ◌∷◌, ◌++◌, length,
}
use qhook.Prelude.Classes.{◌==◌, string_eq}
use qhook.Sql.{find_where, exists_where}
use qhook.Db.{Job, running, dead, run_failed, Run, Database}
use qhook.Db.Jobs.{has_id}
use qhook.Db.Runs.{has_run_id, get_workflow_run, get_workflow_timeout}
use qhook.Db.Steps.{get_workflow_job_data, save_step_output}
use qhook.Api.Filter.{Matchers}
use qhook.Json.{object, no_entries, Serde}
use qhook.Json.Path.{split, resolve_path}
use qhook.Workflow.{StepConfig, WorkflowConfig, stop, find_workflow, find_step, step_at}
use qhook.Workflow.Handler.{workflow_part}
use qhook.Workflow.Engine.{Env, Engine, done}
use qhook.Workflow.Advance.{is_over, resume_parent_workflow}
use qhook.Workflow.Success.{handle_workflow_step_success, current_step, is_end}
use qhook.Workflow.Fanout.{Branch, items_at, fork_run, handle_map_step}
use qhook.Workflow.Callback.{resume_callback}
use qhook.Workflow.Dispatch.{is_workflow}
use qhook.Workflow.Deliver.{Client, answered, deliver_workflow_job}
use qhook.Workflow.Rows.{change_job, change_run, step_row, url_of}
use qhook.Workflow.Output.{Output}
use qhook.Workflow.Progress.{success_enters_next}
use qhook.Workflow.Forked.{branch_jobs, fork_run_creates}
use qhook.Workflow.Once.{resume_callback_once}
use qhook.Workflow.Parents.{IsOrdered, absent_from}
use qhook.Workflow.Parents.Resume.{is_unfinished, resume_parent_workflow_ends}
use qhook.Workflow.Halted.{deliver_workflow_job_over_time, handle_map_step_stalls}
use qhook.Tests.{tables, job_of, flow, world_of}

-- A step that is delivered, with the given name and items.
abbrev pub step_named : String → Option String → StepConfig
step_named name items_path = record {
  name = name;
  url = some "https://steps.example.com";
  handler_type = "http";
  method = "POST";
  headers = [];
  input = none;
  result_path = none;
  output = none;
  retry = none;
  catch = none;
  timeout = none;
  on_failure = stop;
  end = false;
  choices = none;
  default = none;
  branches = none;
  items_path = items_path;
  max_concurrency = none;
  seconds = none;
  timestamp_path = none;
  callback_timeout = none;
  workflow = none;
}

abbrev pub checkout : WorkflowConfig
checkout = record {
  source = "shop";
  events = [];
  steps = step_named "charge" none ∷ step_named "ship" none ∷ [];
  timeout = none;
  params = [];
}

-- The ULIDs "", "a", "aa" and so on.
abbrev letters : ℕ → String
letters zero = ""
letters (suc n) = String.◌∷◌ "a" (letters n)

abbrev pub serde : Serde
serde = record { from_str = λ s. some (object no_entries); to_string = λ v. "{}" }

-- Numbers are not compared, and every pattern matches.
abbrev pub matchers : Matchers
matchers = record {
  parse = λ s. none;
  as_f64 = λ s. none;
  ge = λ a b. false;
  le = λ a b. false;
  gt = λ a b. false;
  lt = λ a b. false;
  is_zero = λ a. false;
  is_match = λ pattern s. true;
}

abbrev pub env : Env
env = record {
  workflows = ("checkout", checkout) ∷ [];
  default_retry_max = 5;
  ulid = letters;
  now = 100;
  jitter = λ n. n;
  far_future = 1000000;
  fault = λ n. false;
  depth = 3;
  serde = serde;
  parse_timestamp = λ s. none;
  from_timestamp = λ s. none;
  decimal = λ n. "1";
  apply_transform = λ payload template. payload;
  matchers = matchers;
}

abbrev pub client : Client
client = record {
  send = λ r. answered 200 (some "{}");
  digest = λ s. s;
  query_error = "query failed";
  http_error = λ n. "HTTP error";
  duration_ms = 20;
}

-- The job of the first step of the run "r1".
abbrev pub charge_job : Job
charge_job = record (job_of "c1" running 1) {
  handler = "checkout/charge";
  workflow_run_id = some "r1";
  step_name = some "charge";
  step_index = some 0;
  step_input = some "{}";
}

abbrev pub flow_tables : Database
flow_tables = record tables { jobs = charge_job ∷ [] }

-- A child of the run "r1" behind it.
abbrev child : Run
child = record flow { id = "r2"; parent_run_id = some "r1"; parent_step_index = some 0 }

abbrev pub engine_on : Database → Engine
engine_on db = record { world = record (world_of none) { db = db }; drawn = 0; calls = 0 }

pub row_found : get_workflow_job_data "c1" flow_tables ≡ some charge_job
unfolding get_workflow_job_data find_where has_id
row_found = refl

pub known : find_workflow (workflow_part "checkout/charge") env.workflows ≡ some checkout
unfolding find_workflow workflow_part split
known = refl

in_time : is_over 100 (get_workflow_timeout "r1" flow_tables) ≡ false
unfolding get_workflow_timeout get_workflow_run find_where has_run_id
in_time = refl

second : step_at checkout.steps 1 ≡ some (step_named "ship" none)
unfolding step_at
second = refl

pub id_is_free : exists_where (λ r. r.id == letters 0) flow_tables.jobs ≡ false
unfolding exists_where
id_is_free = refl

goes_on : is_end (current_step (some "charge") checkout) ≡ false
unfolding find_step
goes_on = refl

success_enters_next_example :
    let (s', a) = handle_workflow_step_success env charge_job (some "{}") (engine_on flow_tables) in
    (a ≡ done tt)
    × (output : String) × Output env "{}" "{}" (current_step (some "charge") checkout) output
    × (s'.world.db.jobs
        ≡ change_job "c1" (λ j. record j { step_output = some "{}" }) flow_tables.jobs
          ++ step_row env
              (letters 0)
              "e1"
              (workflow_part "checkout/charge")
              (url_of (step_named "ship" none).url)
              "r1"
              1
              (step_named "ship" none)
              output
            ∷ [])
    × (s'.world.db.runs
        ≡ change_run "r1" (λ r. record r { current_step = some "ship" }) flow_tables.runs)
success_enters_next_example =
    success_enters_next env charge_job "{}" (engine_on flow_tables) (λ n. refl) row_found refl refl
      known in_time goes_on second id_is_free

abbrev count_letters : String → ℕ
count_letters String.[] = zero
count_letters (String.◌∷◌ c s) = suc (count_letters s)

letters_count : (n : ℕ) → count_letters (letters n) ≡ n
letters_count zero = refl
letters_count (suc n) = ap suc (letters_count n)

letters_differ : (m n : ℕ) → letters m ≡ letters n → m ≡ n
letters_differ m n e = sym (letters_count m) ∙ ap count_letters e ∙ letters_count n

abbrev no_jobs : Database
no_jobs = record tables { jobs = [] }

all_free : (m : ℕ) → 0 ≤ m → exists_where (λ r. r.id == letters m) no_jobs.jobs ≡ false
unfolding exists_where
all_free m h = refl

abbrev two_branches : List Branch
two_branches =
    record { name = "card"; url = "https://a.example.com"; input = "{}" }
    ∷ record { name = "stock"; url = "https://b.example.com"; input = "{}" }
    ∷ []

fork_run_creates_example :
    let step = step_named "charge" none in
    let (s', a) = fork_run env charge_job charge_job "r1" step two_branches (engine_on no_jobs) in
    let created = branch_jobs env charge_job charge_job "r1" step 0 two_branches in
    (a ≡ done tt)
    × (s'.world.db.jobs ≡ [] ++ created)
    × (length created ≡ 2)
    × (s'.world.db.runs
        ≡ change_run "r1"
            (λ r. record r {
              parallel_step = some "charge";
              parallel_count = 2;
              parallel_completed = 0;
            })
            no_jobs.runs)
fork_run_creates_example =
    fork_run_creates env charge_job charge_job "r1" (step_named "charge" none) two_branches
      (engine_on no_jobs) (λ n. refl) letters_differ all_free

resume_callback_once_example :
    let first = (resume_callback env "j4" "{}" (engine_on tables)).0 in
    let (again, answer) = resume_callback env "j4" "[]" first in
    (answer ≡ done false) × (again.world ≡ first.world)
resume_callback_once_example =
    resume_callback_once env env "j4" "{}" "[]" (engine_on tables) refl refl

abbrev with_child : Database
with_child = record tables { runs = flow ∷ child ∷ [] }

child_behind : IsOrdered with_child.runs
unfolding absent_from
child_behind = (refl, (refl, tt))

resume_parent_workflow_ends_example :
    is_unfinished (resume_parent_workflow 3 env "r2" "e1" "{}" (engine_on with_child)).1 ≡ false
resume_parent_workflow_ends_example =
    resume_parent_workflow_ends env "r2" "e1" "{}" (engine_on with_child) child_behind

-- The tables with a run whose time is over at 50.
abbrev late_tables : Database
late_tables = record flow_tables { runs = record flow { timeout_at = some 50 } ∷ [] }

late_row : get_workflow_job_data "c1" late_tables ≡ some charge_job
unfolding get_workflow_job_data find_where has_id
late_row = refl

over_time : is_over 100 (get_workflow_timeout "r1" late_tables) ≡ true
unfolding get_workflow_timeout get_workflow_run find_where has_run_id
over_time = refl

is_step : is_workflow charge_job ≡ true
unfolding is_workflow
is_step = refl

deliver_workflow_job_over_time_example :
    let (s', answer) = deliver_workflow_job client env charge_job (engine_on late_tables) in
    (answer ≡ done tt)
    × (s'.world.db ≡ record late_tables {
      jobs =
          change_job "c1"
            (λ j. record j {
              status = dead;
              completed_at = some 100;
              last_error = some "workflow timeout";
            })
            late_tables.jobs;
      runs =
          change_run "r1"
            (λ r. record r { status = run_failed; completed_at = some 100 })
            late_tables.runs;
    })
deliver_workflow_job_over_time_example =
    deliver_workflow_job_over_time client env charge_job (engine_on late_tables) (λ n. refl) is_step
      late_row refl over_time

no_items_there : items_at (resolve_path (object no_entries) "$.items") ≡ []
unfolding resolve_path
no_items_there = refl

handle_map_step_stalls_example :
    let step = step_named "charge" (some "$.items") in
    let (s', answer) = handle_map_step env charge_job step (engine_on flow_tables) in
    let saved = save_step_output "c1" "[]" (save_step_output "c1" "[]" flow_tables) in
    (answer ≡ done tt) × (s'.world.db ≡ saved) × (s'.world.metrics ≡ (world_of none).metrics)
handle_map_step_stalls_example =
    handle_map_step_stalls env charge_job (step_named "charge" (some "$.items"))
      (engine_on flow_tables) (λ n. refl) row_found refl refl refl refl no_items_there
