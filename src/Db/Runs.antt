-- ===== src/Db/Runs.antt =====
-- src/db.rs: the statements on `workflow_runs`.
use qhook.Prelude.{
  ℕ, ◌+◌, Bool, true, false, ◌&&◌, Option, none, some, String, [], ◌∷◌, ◌++◌, if◌then◌else◌, ltb,
}
use qhook.Prelude.Classes.{◌==◌, string_eq}
use qhook.Sql.{find_where, update_where, count_where, exists_where}
use qhook.Db.{
  Run, RunStatus, run_running, run_completed, run_failed, Database, unique_violation, row_not_found,
  Result, ok, err, transaction,
}

unfoldable pub has_run_id : String → Run → Bool
has_run_id id r = r.id == id

abbrev pub new_run : String → String → String → String → ℕ → Run
new_run id workflow event_id first_step now = record {
  id = id;
  workflow = workflow;
  event_id = event_id;
  status = run_running;
  current_step = some first_step;
  created_at = now;
  completed_at = none;
  parallel_step = none;
  parallel_count = 0;
  parallel_completed = 0;
  timeout_at = none;
  parent_run_id = none;
  parent_step_index = none;
}

unfoldable pub insert_run : Run → Database → Database × Result (Unit {0})
insert_run r db =
    if exists_where (has_run_id r.id) db.runs
    then (db, err unique_violation)
    else (record db { runs = db.runs ++ r ∷ [] }, ok tt)

unfoldable pub insert_workflow_run :
    String → String → String → String → ℕ → Database → Database × Result (Unit {0})
unfolding insert_run
insert_workflow_run id workflow event_id first_step now =
    insert_run (new_run id workflow event_id first_step now)

unfoldable pub insert_sub_workflow_run :
    String → String → String → String → String → ℕ → ℕ → Database → Database × Result (Unit {0})
unfolding insert_run
insert_sub_workflow_run id workflow event_id first_step parent_run parent_index now =
    let r = new_run id workflow event_id first_step now in
    insert_run (record r { parent_run_id = some parent_run; parent_step_index = some parent_index })

-- UPDATE workflow_runs SET f WHERE id = $1
unfoldable pub update_run : String → (Run → Run) → Database → Database
update_run id f db = record db { runs = update_where (has_run_id id) f db.runs }

unfoldable pub update_workflow_run_step : String → String → Database → Database
update_workflow_run_step id step_name =
    update_run id (λ r. record r { current_step = some step_name })

unfoldable pub complete_workflow_run : ℕ → String → Database → Database
complete_workflow_run now id =
    update_run id (λ r. record r { status = run_completed; completed_at = some now })

unfoldable pub fail_workflow_run : ℕ → String → Database → Database
fail_workflow_run now id =
    update_run id (λ r. record r { status = run_failed; completed_at = some now })

abbrev pub is_failed : RunStatus → Bool
is_failed run_failed = true
is_failed _ = false

abbrev pub is_failed_run : String → Run → Bool
is_failed_run id r = has_run_id id r && is_failed r.status

unfoldable pub redrive_workflow_run : String → Database → Database × Bool
redrive_workflow_run id db = (
  record db {
    runs = update_where (is_failed_run id) (λ r. record r { status = run_running }) db.runs;
  },
  ltb 0 (count_where (is_failed_run id) db.runs),
)

unfoldable pub set_parallel_state : String → String → ℕ → Database → Database
set_parallel_state id step count =
    update_run id
      (λ r. record r { parallel_step = some step; parallel_count = count; parallel_completed = 0 })

unfoldable pub bump : Run → Run
bump r = record r { parallel_completed = r.parallel_completed + 1 }

-- `fetch_one` fails if the run is missing.
unfoldable pub read_counts : Database → Option Run → Result (Database × (ℕ × ℕ))
read_counts t none = err row_not_found
read_counts t (some r) = ok (t, (r.parallel_completed, r.parallel_count))

-- UPDATE ... RETURNING, or an UPDATE and a SELECT in one transaction.
unfoldable pub increment_parallel_completed : String → Database → Database × Result (ℕ × ℕ)
increment_parallel_completed id db =
    transaction db
      λ t. let t' = update_run id bump t in read_counts t' (find_where (has_run_id id) t'.runs)

unfoldable pub clear_parallel_state : String → Database → Database
clear_parallel_state id =
    update_run id
      (λ r. record r { parallel_step = none; parallel_count = 0; parallel_completed = 0 })

unfoldable pub set_workflow_timeout : String → ℕ → Database → Database
set_workflow_timeout id timeout_at = update_run id (λ r. record r { timeout_at = some timeout_at })

unfoldable pub get_workflow_run : String → Database → Option Run
get_workflow_run id db = find_where (has_run_id id) db.runs

unfoldable pub get_workflow_timeout : String → Database → Option ℕ
unfolding get_workflow_run
get_workflow_timeout id db = elim (get_workflow_run id db) [ none ↦ none | some r ↦ r.timeout_at ]

-- `Option::zip`
abbrev pub zip : Option String → Option ℕ → Option (String × ℕ)
zip (some p) (some n) = some (p, n)
zip _ _ = none

unfoldable pub get_parent_workflow_run : String → Database → Option (String × ℕ)
unfolding get_workflow_run
get_parent_workflow_run id db = elim (get_workflow_run id db) [
  | none ↦ none
  | some r ↦ zip r.parent_run_id r.parent_step_index
]
