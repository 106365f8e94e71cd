-- ===== src/Tests/Storage.antt =====
-- Runs of src/db.rs on small tables.
use qhook.Prelude.{ℕ, ◌≤◌, ◌≡◌, refl, true, String, List, [], ◌∷◌, length, All}
use qhook.Sql.{exists_where}
use qhook.Db.{Event, ok}
use qhook.Db.Jobs.{fetch_available_jobs}
use qhook.Db.Events.{
  insert_event_and_jobs, insert_event_row, insert_jobs_if, insert_job_rows, insert_job_row, has_key,
  has_job, has_event,
}
use qhook.Db.Atomic.{Outcome, insert_event_and_jobs-Outcome}
use qhook.Db.Invariant.Rows.{IsValid}
use qhook.Db.Invariant.Sequences.{Statement, execute_all, execute_all-IsValid}
use qhook.Db.Fetch.{IsNewWork, fetch_available_jobs_disjoint}
use qhook.Tests.{tables-IsValid, tables, order}

abbrev jobs : List (String × String × String × ℕ)
jobs = ("n1", "billing", "https://b.example.com", 3) ∷ ("n2", "queue/mail", "queue://mail", 5) ∷ []

insert_event_and_jobs-Outcome_example :
    Outcome order jobs tables (insert_event_and_jobs order jobs tables)
insert_event_and_jobs-Outcome_example = insert_event_and_jobs-Outcome order jobs tables

order_stored : (insert_event_and_jobs order jobs tables).1 ≡ ok true
unfolding insert_event_and_jobs insert_event_row insert_jobs_if insert_job_rows insert_job_row
    has_key has_job has_event exists_where
order_stored = refl

abbrev order_again : Event
order_again = record order { id = "e2"; payload = "[]"; created_at = 9 }

abbrev script : List Statement
script =
    Statement.insert_event_and_jobs order jobs
    ∷ Statement.mark_job_running 7 "n1"
    ∷ Statement.mark_job_dead 8 "n1" "gone"
    ∷ Statement.retry_dead_jobs 9
    ∷ []

execute_all-IsValid_example : IsValid (execute_all script tables)
execute_all-IsValid_example = execute_all-IsValid script tables tables-IsValid

fetch_available_jobs_disjoint_example :
    let (db', taken) = fetch_available_jobs 10 1 tables in
    let next = (fetch_available_jobs 20 5 db').1 in
    (length next ≤ 5) × All (IsNewWork 20 taken) next
fetch_available_jobs_disjoint_example = fetch_available_jobs_disjoint 10 20 1 5 tables refl
