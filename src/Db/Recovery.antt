-- ===== src/Db/Recovery.antt =====
-- src/db.rs: no job is lost or stuck. What the maintenance statements do to the counts of jobs.
use qhook.Prelude.{ℕ, ◌+◌, ◌*◌, ◌<◌, ◌≡◌, refl, true, false, Option, none, some, String, arith, All}
use qhook.Prelude.Classes.{string_eq}
use qhook.Sql.{count_where}
use qhook.Sql.Counts.{count_where-update_gain, All-update_split}
use qhook.Sql.Laws.{count_where-update_where}
use qhook.Db.{Job, Database, running, dead, has_status, is_pending}
use qhook.Db.Jobs.{
  is_queue, is_due, is_fetchable, is_stale, is_older, reschedule, revive, update_jobs,
  recover_stale_jobs, retry_dead_jobs, queue_depth, dead_job_count,
}
use qhook.Db.Queue.{is_invisible, is_queued, recover_expired_queue_messages, count_queue_depth}
use qhook.Db.Invariant.Rows.{JobIsValid, IsValid, is_some}

-- A worker that is still within its time: the job was started less than `secs` before `now`.
abbrev pub IsRecent : ℕ → ℕ → Option ℕ → Type 0
IsRecent secs now none = ⊥
IsRecent secs now (some t) = now < t + secs * 1000

-- If the job is running and belongs to the workers, it was started recently.
abbrev pub IsLive : ℕ → ℕ → Job → Type 0
IsLive secs now j =
    has_status running j.status ≡ true → is_queue j.handler ≡ false → IsRecent secs now j.started_at

IsRecent-of_not_older :
    (secs now : ℕ) (o : Option ℕ)
    → is_some o ≡ true
    → is_older (secs * 1000) now o ≡ false
    → IsRecent secs now o
IsRecent-of_not_older secs now none s h = cc
IsRecent-of_not_older secs now (some t) s h = ground arith

not_stale-IsLive :
    (secs now : ℕ) (j : Job) → is_stale secs now j ≡ false → JobIsValid j → IsLive secs now j
unfolding is_stale
not_stale-IsLive secs now j h v r w =
    IsRecent-of_not_older secs now j.started_at (v.started r) (ground arith)

rescheduled-IsLive : (secs now : ℕ) (j : Job) → IsLive secs now (reschedule now j)
unfolding has_status
rescheduled-IsLive secs now j r w = cc

stale-gain :
    (secs now : ℕ) (j : Job)
    → is_stale secs now j ≡ true
    → (is_fetchable now j ≡ false) × (is_fetchable now (reschedule now j) ≡ true)
unfolding is_stale is_fetchable has_status
stale-gain secs now j h = ground arith

-- On a valid database the recovery of stale jobs leaves no job of the workers running that was
-- started `secs` ago or longer, and each job that it writes is one more that a fetch at that time
-- can select.
pub recover_stale_jobs_complete :
    (secs now : ℕ) (db : Database)
    → IsValid db
    → All (IsLive secs now) (recover_stale_jobs secs now db).0.jobs
      × (count_where (is_fetchable now) (recover_stale_jobs secs now db).0.jobs
          ≡ count_where (is_fetchable now) db.jobs + (recover_stale_jobs secs now db).1)
unfolding recover_stale_jobs update_jobs
recover_stale_jobs_complete secs now db v = (
  All-update_split JobIsValid (IsLive secs now) (is_stale secs now) (reschedule now)
      (λ j e w. rescheduled-IsLive secs now j) (not_stale-IsLive secs now) db.jobs v.rows,
  count_where-update_gain (is_fetchable now) (is_stale secs now) (reschedule now)
      (stale-gain secs now) db.jobs,
)

invisible-gain :
    (handler : String) (secs now : ℕ) (j : Job)
    → is_invisible handler secs now j ≡ true
    → (is_queued handler now j ≡ false) × (is_queued handler now (reschedule now j) ≡ true)
unfolding is_invisible is_queued is_due has_status
invisible-gain handler secs now j h = ground arith

-- A message whose visibility timeout has passed can be received again: the depth of the queue
-- grows by exactly the number of messages that the recovery reports.
pub recover_expired_queue_messages_depth :
    (handler : String) (secs now : ℕ) (db : Database)
    → count_queue_depth handler now (recover_expired_queue_messages handler secs now db).0
      ≡ count_queue_depth handler now db + (recover_expired_queue_messages handler secs now db).1
unfolding recover_expired_queue_messages count_queue_depth update_jobs
recover_expired_queue_messages_depth handler secs now db =
    count_where-update_gain (is_queued handler now) (is_invisible handler secs now) (reschedule now)
      (invisible-gain handler secs now) db.jobs

revived-gain :
    (now : ℕ) (j : Job)
    → has_status dead j.status ≡ true
    → (is_pending j.status ≡ false) × (is_pending (revive now j).status ≡ true)
unfolding has_status
revived-gain now j h = ground arith

-- The retry of the dead jobs empties the dead letter queue, and every job of it is pending again.
pub retry_dead_jobs_counts :
    (now : ℕ) (db : Database)
    → (dead_job_count (retry_dead_jobs now db).0 ≡ 0)
      × (queue_depth (retry_dead_jobs now db).0 ≡ queue_depth db + dead_job_count db)
      × ((retry_dead_jobs now db).1 ≡ dead_job_count db)
unfolding retry_dead_jobs dead_job_count queue_depth update_jobs
retry_dead_jobs_counts now db = (
  count_where-update_where (λ j. has_status dead j.status) (λ j. has_status dead j.status)
      (revive now) (λ j e. unfold has_status in refl) (λ j e. e) db.jobs,
  count_where-update_gain (λ j. is_pending j.status) (λ j. has_status dead j.status) (revive now)
      (revived-gain now) db.jobs,
  refl,
)
