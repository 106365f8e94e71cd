-- ===== src/Db/Jobs.antt =====
-- src/db.rs: the statements on `jobs` and `job_attempts` that the worker, the maintenance task
-- and the management API run. `now` is the value of `format_now()` or `Utc::now()` in the call.
use qhook.Prelude.{
  ℕ, ◌+◌, ◌*◌, Bool, true, false, not, ◌&&◌, ◌||◌, Option, none, some, String, List, [], ◌∷◌, ◌++◌,
  map, if◌then◌else◌, ltb, leb, starts_with,
}
use qhook.Prelude.Classes.{◌==◌, string_eq}
use qhook.Sql.{update_where, count_where, select_where, delete_where, exists_where, order_limit}
use qhook.Db.{
  Driver, postgres, JobStatus, available, running, completed, retryable, dead, Job, Attempt,
  Database, unique_violation, Result, ok, err, has_status, is_pending, is_finished,
}

-- handler LIKE 'queue/%'
abbrev pub is_queue : String → Bool
is_queue handler = starts_with handler "queue/"

-- column <= cutoff, false of NULL, where the cutoff lies `ms` before `now`
abbrev pub is_older : ℕ → ℕ → Option ℕ → Bool
is_older ms now none = false
is_older ms now (some t) = leb (t + ms) now

unfoldable pub is_due : ℕ → Job → Bool
is_due now j = is_pending j.status && leb j.scheduled_at now

-- SET status = 'running', started_at = now, attempt = attempt + 1
abbrev pub start : ℕ → Job → Job
start now j = record j { status = running; started_at = some now; attempt = j.attempt + 1 }

unfoldable pub is_fetchable : ℕ → Job → Bool
unfolding is_due
is_fetchable now j = is_due now j && not (is_queue j.handler)

-- id IN (the ids of the batch)
unfoldable pub in_batch : List Job → Job → Bool
in_batch batch j = exists_where (λ b. b.id == j.id) batch

-- RETURNING: the row as it is written, but with the count of attempts before.
unfoldable pub returned : ℕ → Job → Job
returned now j = record (start now j) { attempt = j.attempt }

-- On PostgreSQL the batch is marked as running by the statement that selects it; on the others the
-- statement only reads.
unfoldable pub take_batch : Driver → ℕ → List Job → Database → Database × List Job
take_batch postgres now batch db = (
  record db { jobs = update_where (in_batch batch) (start now) db.jobs },
  map (returned now) batch,
)
take_batch _ now batch db = (db, batch)

unfoldable pub fetch_available_jobs : ℕ → ℕ → Database → Database × List Job
unfolding take_batch
fetch_available_jobs now limit db =
    take_batch db.driver now
      (order_limit (λ j. j.scheduled_at) limit (select_where (is_fetchable now) db.jobs)) db

-- id = $2 AND status IN ('available', 'retryable')
unfoldable pub is_claimable : String → Job → Bool
is_claimable id j = j.id == id && is_pending j.status

unfoldable pub mark_job_running : ℕ → String → Database → Database × Bool
mark_job_running now id db = (
  record db { jobs = update_where (is_claimable id) (start now) db.jobs },
  ltb 0 (count_where (is_claimable id) db.jobs),
)

-- SET status = 'completed', completed_at = now
abbrev pub complete : ℕ → Job → Job
complete now j = record j { status = completed; completed_at = some now }

-- SET status = 'retryable', scheduled_at = next_at
abbrev pub reschedule : ℕ → Job → Job
reschedule next_at j = record j { status = retryable; scheduled_at = next_at }

-- SET status = 'dead', completed_at = now, last_error = error
abbrev pub kill : ℕ → String → Job → Job
kill now error j = record j { status = dead; completed_at = some now; last_error = some error }

-- SET status = 'available', scheduled_at = now, last_error = NULL
abbrev pub revive : ℕ → Job → Job
revive now j = record j { status = available; scheduled_at = now; last_error = none }

abbrev pub reset_attempt : Job → Job
reset_attempt j = record j { attempt = 0 }

unfoldable pub has_id : String → Job → Bool
has_id id j = j.id == id

unfoldable pub mark_job_completed : ℕ → String → Database → Database
mark_job_completed now id db = record db { jobs = update_where (has_id id) (complete now) db.jobs }

unfoldable pub fail_at : ℕ → String → Job → Job
fail_at next_at error j = record (reschedule next_at j) { last_error = some error }

unfoldable pub mark_job_retryable : String → ℕ → String → Database → Database
unfolding fail_at
mark_job_retryable id next_at error db = record db {
  jobs = update_where (has_id id) (fail_at next_at error) db.jobs;
}

unfoldable pub mark_job_dead : ℕ → String → String → Database → Database
mark_job_dead now id error db = record db {
  jobs = update_where (has_id id) (kill now error) db.jobs;
}

unfoldable pub insert_attempt : Attempt → Database → Database × Result (Unit {0})
insert_attempt a db =
    if exists_where (λ r. r.id == a.id) db.attempts
    then (db, err unique_violation)
    else (record db { attempts = db.attempts ++ a ∷ [] }, ok tt)

-- UPDATE jobs SET f WHERE p, with the number of the rows that it writes
unfoldable pub update_jobs : (Job → Bool) → (Job → Job) → Database → Database × ℕ
update_jobs p f db = (record db { jobs = update_where p f db.jobs }, count_where p db.jobs)

unfoldable pub retry_dead_jobs : ℕ → Database → Database × ℕ
retry_dead_jobs now = update_jobs (λ j. has_status dead j.status) (revive now)

unfoldable pub is_stale : ℕ → ℕ → Job → Bool
is_stale stale_secs now j =
    has_status running j.status
    && is_older (stale_secs * 1000) now j.started_at
    && not (is_queue j.handler)

unfoldable pub recover_stale_jobs : ℕ → ℕ → Database → Database × ℕ
recover_stale_jobs stale_secs now = update_jobs (is_stale stale_secs now) (reschedule now)

-- completed_at < cutoff
abbrev pub is_before : ℕ → ℕ → Option ℕ → Bool
is_before ms now none = false
is_before ms now (some t) = ltb (t + ms) now

unfoldable pub is_disposable : ℕ → ℕ → Job → Bool
is_disposable retention_hours now j =
    is_finished j.status && is_before (retention_hours * 3600000) now j.completed_at

-- job_id IN (SELECT id FROM jobs WHERE p)
unfoldable pub belongs : (Job → Bool) → List Job → Attempt → Bool
belongs p jobs a = exists_where (λ j. j.id == a.job_id && p j) jobs

-- DELETE of the attempts of the jobs that meet `p`, then of those jobs. The counts are of the
-- jobs and of the attempts.
unfoldable pub delete_jobs : (Job → Bool) → Database → Database × ℕ × ℕ
delete_jobs p db =
    let old = belongs p db.jobs in
    (
      record db { attempts = delete_where old db.attempts; jobs = delete_where p db.jobs },
      count_where p db.jobs,
      count_where old db.attempts,
    )

unfoldable pub cleanup_old_records : ℕ → ℕ → Database → Database × ℕ × ℕ
cleanup_old_records retention_hours now = delete_jobs (is_disposable retention_hours now)

unfoldable pub is_expired : ℕ → ℕ → Job → Bool
is_expired ttl_secs now j = is_pending j.status && leb (j.created_at + ttl_secs * 1000) now

unfoldable pub expire_old_jobs : ℕ → ℕ → Database → Database × ℕ
expire_old_jobs ttl_secs now = update_jobs (is_expired ttl_secs now) (kill now "event TTL expired")

unfoldable pub queue_depth : Database → ℕ
queue_depth db = count_where (λ j. is_pending j.status) db.jobs

unfoldable pub dead_job_count : Database → ℕ
dead_job_count db = count_where (λ j. has_status dead j.status) db.jobs

-- status IN ('dead', 'retryable')
unfoldable pub is_retriable : JobStatus → Bool
is_retriable s = has_status dead s || has_status retryable s

unfoldable pub retry_job : ℕ → String → Database → Database × Bool
retry_job now id db =
    let p = λ (j : Job). j.id == id && is_retriable j.status in
    let (db', n) = update_jobs p (λ j. reset_attempt (revive now j)) db in (db', ltb 0 n)

unfoldable pub retry_dead_jobs_by_handler : ℕ → String → Database → Database × ℕ
retry_dead_jobs_by_handler now handler =
    update_jobs (λ j. j.handler == handler && has_status dead j.status)
      (λ j. reset_attempt (revive now j))

-- AND handler = $3, if a handler is given
abbrev pub on_handler : Option String → Job → Bool
on_handler none j = true
on_handler (some h) j = j.handler == h

unfoldable pub bulk_retry_jobs : ℕ → JobStatus → Option String → Database → Database × ℕ
bulk_retry_jobs now status handler =
    update_jobs (λ j. has_status status j.status && on_handler handler j)
      (λ j. reset_attempt (revive now j))

unfoldable pub delete_jobs_by_handler : String → Database → Database × ℕ
delete_jobs_by_handler handler db =
    let (db', jobs, _) = delete_jobs (λ j. j.handler == handler) db in (db', jobs)
