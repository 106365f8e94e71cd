-- ===== src/Tests/Loop.antt =====
-- Runs of the poll, the health flag and the maintenance of src/queue.rs.
use qhook.Prelude.{◌≡◌, refl, false, some, List, [], ◌∷◌, length, All}
use qhook.Prelude.Classes.{◌==◌, string_eq}
use qhook.Sql.{order_limit, select_where, sort_onto, insert_by, count_where, update_where}
use qhook.Db.{Job, running, available}
use qhook.Db.Jobs.{mark_job_running, is_claimable, fetch_available_jobs, is_fetchable, returned}
use qhook.Worker.Exclusive.{IsClaimed, dispatched-IsClaimed, dispatch_exclusive}
use qhook.Worker.Poll.{dispatch}
use qhook.Worker.Maintenance.{Failures, Settings}
use qhook.Worker.Visibility.{Queue}
use qhook.Tests.{mail_of, tables, job_of}

one_taken :
    (fetch_available_jobs 10 1 tables).1
    ≡ record (job_of "j1" running 0) { started_at = some 10 } ∷ []
unfolding fetch_available_jobs order_limit select_where is_fetchable returned sort_onto insert_by
one_taken = refl

abbrev none_fails : Failures
none_fails = record { recover = false; cleanup = false; expire = false }

abbrev hourly : Settings
hourly = record {
  recover_at = 4000000;
  cleanup_at = 4000001;
  expire_at = 4000002;
  stale_secs = 300;
  retention_hours = 1;
  event_ttl_secs = 60;
}

abbrev both_read : List Job
both_read = job_of "j1" available 0 ∷ mail_of "m2" available ∷ []

dispatch_exclusive_example :
    let (db', spawned) = dispatch false 5 2 both_read tables in
    let spawned' = (dispatch false 6 2 both_read db').1 in
    All (λ j. IsClaimed db' j.id) spawned
    × All (λ j. All (λ k. (j.id == k.id) ≡ false) spawned') spawned
dispatch_exclusive_example =
    dispatch_exclusive 5 6 2 2 both_read both_read tables (dispatch false 5 2 both_read tables).0
      (dispatched-IsClaimed 5 2 both_read tables)

-- Two workers that have read the same row: the first one delivers it.
one_winner :
    let jobs = job_of "j1" available 0 ∷ [] in
    let (db', spawned) = dispatch false 5 2 jobs tables in
    (length spawned ≡ 1) × (length (dispatch false 6 2 jobs db').1 ≡ 0)
unfolding dispatch mark_job_running count_where update_where is_claimable
one_winner = (refl, refl)

abbrev mail_queue : Queue
mail_queue = record { name = "mail"; timeout_secs = 30; at = 40000; fault = false }

abbrev other_queue : Queue
other_queue = record { name = "jobs"; timeout_secs = 0; at = 40001; fault = false }
