-- ===== src/Db/Retention.antt =====
-- src/db.rs: what is deleted or given up with age, and what is kept.
use qhook.Prelude.{
  ℕ, ◌+◌, ◌*◌, ◌≤◌, ◌≡◌, refl, Bool, true, false, not, Option, none, some, arith, All,
}
use qhook.Prelude.Classes.{string_eq}
use qhook.Sql.{count_where, exists_where, delete_where}
use qhook.Sql.Counts.{
  All-delete_split, count_where-delete_where, exists_where-delete_where, count_where-update_loss,
}
use qhook.Sql.Laws.{count_where-update_where}
use qhook.Db.{Job, Database, is_pending, is_finished}
use qhook.Db.Jobs.{
  is_before, is_disposable, is_expired, belongs, kill, update_jobs, has_id, cleanup_old_records,
  expire_old_jobs, queue_depth, delete_jobs,
}
use qhook.Db.Invariant.Rows.{JobIsValid, IsValid, is_some}

-- Every attempt is of a job that is there.
abbrev pub NoOrphans : Database → Type 0
NoOrphans db = All (λ a. exists_where (has_id a.job_id) db.jobs ≡ true) db.attempts

abbrev pub IsWithin : ℕ → ℕ → Option ℕ → Type 0
IsWithin hours now none = ⊥
IsWithin hours now (some t) = now ≤ t + hours * 3600000

-- A job that is finished finished within the retention time.
abbrev pub IsKept : ℕ → ℕ → Job → Type 0
IsKept hours now j = is_finished j.status ≡ true → IsWithin hours now j.completed_at

IsWithin-of_not_before :
    (hours now : ℕ) (o : Option ℕ)
    → is_some o ≡ true
    → is_before (hours * 3600000) now o ≡ false
    → IsWithin hours now o
IsWithin-of_not_before hours now none s h = cc
IsWithin-of_not_before hours now (some t) s h = ground arith

IsKept-of_not_disposable :
    (hours now : ℕ) (j : Job)
    → is_disposable hours now j ≡ false
    → JobIsValid j
    → IsKept hours now j
unfolding is_disposable
IsKept-of_not_disposable hours now j h v f =
    IsWithin-of_not_before hours now j.completed_at (v.finished f) (ground arith)

delete_jobs-NoOrphans :
    (p : Job → Bool) (db : Database) → NoOrphans db → NoOrphans (delete_jobs p db).0
unfolding delete_jobs belongs has_id
delete_jobs-NoOrphans p db h =
    All-delete_split (λ a. exists_where (has_id a.job_id) db.jobs ≡ true)
      (λ a. exists_where (has_id a.job_id) (delete_where p db.jobs) ≡ true) (belongs p db.jobs)
      (λ a e k. exists_where-delete_where (has_id a.job_id) p db.jobs k e) db.attempts h

disposable-finished :
    (hours now : ℕ) (j : Job)
    → is_disposable hours now j ≡ true
    → not (is_finished j.status) ≡ false
unfolding is_disposable
disposable-finished hours now j h = ground arith

pub cleanup-IsKept :
    (hours now : ℕ) (db : Database)
    → IsValid db
    → All (IsKept hours now) (cleanup_old_records hours now db).0.jobs
unfolding cleanup_old_records delete_jobs
cleanup-IsKept hours now db v =
    All-delete_split JobIsValid (IsKept hours now) (is_disposable hours now)
      (IsKept-of_not_disposable hours now) db.jobs v.rows

-- On a valid database without an attempt whose job is missing, the cleanup deletes no job that is
-- not finished, leaves no finished job beyond the retention time, and leaves no attempt without its
-- job.
pub cleanup_old_records_exact :
    (hours now : ℕ) (db : Database)
    → IsValid db
    → NoOrphans db
    → (count_where (λ j. not (is_finished j.status)) (cleanup_old_records hours now db).0.jobs
        ≡ count_where (λ j. not (is_finished j.status)) db.jobs)
      × All (IsKept hours now) (cleanup_old_records hours now db).0.jobs
      × NoOrphans (cleanup_old_records hours now db).0
unfolding cleanup_old_records delete_jobs
cleanup_old_records_exact hours now db v h = (
  count_where-delete_where (λ j. not (is_finished j.status)) (is_disposable hours now)
      (disposable-finished hours now) db.jobs,
  cleanup-IsKept hours now db v,
  delete_jobs-NoOrphans (is_disposable hours now) db h,
)

expired-loss :
    (ttl now : ℕ) (j : Job)
    → is_expired ttl now j ≡ true
    → (is_pending j.status ≡ true) × (is_pending (kill now "event TTL expired" j).status ≡ false)
unfolding is_expired
expired-loss ttl now j h = ground arith

killed_not_expired :
    (ttl now : ℕ) (j : Job)
    → is_expired ttl now j ≡ true
    → is_expired ttl now (kill now "event TTL expired" j) ≡ false
unfolding is_expired
killed_not_expired ttl now j h = refl

-- The expiry gives up every pending job that is `ttl` seconds old or older, and no other: none is
-- left, and the depth of the queue falls by the number that it reports.
pub expire_old_jobs_exact :
    (ttl now : ℕ) (db : Database)
    → (count_where (is_expired ttl now) (expire_old_jobs ttl now db).0.jobs ≡ 0)
      × (queue_depth (expire_old_jobs ttl now db).0 + (expire_old_jobs ttl now db).1
          ≡ queue_depth db)
unfolding expire_old_jobs queue_depth update_jobs
expire_old_jobs_exact ttl now db = (
  count_where-update_where (is_expired ttl now) (is_expired ttl now) (kill now "event TTL expired")
      (killed_not_expired ttl now) (λ j e. e) db.jobs,
  count_where-update_loss (λ j. is_pending j.status) (is_expired ttl now)
      (kill now "event TTL expired") (expired-loss ttl now) db.jobs,
)
