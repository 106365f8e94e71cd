-- ===== src/Worker/Failure.antt =====
-- src/queue.rs, `handle_failure`: a delivery that failed is tried again, or the job is given up.
use qhook.Prelude.{
  ℕ, ◌+◌, ◌*◌, ◌^◌, ◌≤◌, ◌<◌, ◌≡◌, refl, Bool, true, false, Option, none, some, String, arith, leb,
  min, if◌then◌else◌, Bool-cases, inl, inr,
}
use qhook.Prelude.Classes.{string_eq}
use qhook.Sql.{find_where}
use qhook.Sql.Laws.{find_where-update_self}
use qhook.Db.{Job, Database, retryable}
use qhook.Db.Jobs.{has_id, mark_job_dead, mark_job_retryable, fail_at, kill}

-- 30 seconds doubled for each attempt, up to the tenth.
unfoldable pub base_backoff : ℕ → ℕ
base_backoff current_attempt = 30 * 2 ^ min current_attempt 10

-- `jitter` is the product with the random factor, as whole seconds.
abbrev pub backoff_secs : (ℕ → ℕ) → ℕ → Option ℕ → ℕ
backoff_secs jitter current_attempt none = jitter (base_backoff current_attempt)
backoff_secs jitter current_attempt (some secs) = secs

-- The flag says whether the job was moved to the dead letter queue.
unfoldable pub handle_failure : ℕ → (ℕ → ℕ) → Job → String → Option ℕ → Database → Database × Bool
handle_failure now jitter job error retry_after db =
    let current_attempt = job.attempt + 1 in
    if leb job.max_attempts current_attempt
    then (mark_job_dead now job.id error db, true)
    else (let next_at = now + backoff_secs jitter current_attempt retry_after * 1000 in
        (mark_job_retryable job.id next_at error db, false))

-- What a failure leaves of the row with the job's id.
abbrev pub Fate : ℕ → (ℕ → ℕ) → Job → String → Option ℕ → Job → Bool → Job → Type 0
Fate now jitter job error retry_after before true after =
    (job.max_attempts ≤ job.attempt + 1) × (after ≡ kill now error before)
Fate now jitter job error retry_after before false after =
    (job.attempt + 1 < job.max_attempts)
    × (after ≡ record before {
      status = retryable;
      scheduled_at = now + backoff_secs jitter (job.attempt + 1) retry_after * 1000;
      last_error = some error;
    })

same_id : (id error : String) (at : ℕ) (j : Job) → has_id id (fail_at at error j) ≡ has_id id j
unfolding has_id fail_at
same_id id error at j = refl

killed_id : (id error : String) (now : ℕ) (j : Job) → has_id id (kill now error j) ≡ has_id id j
unfolding has_id
killed_id id error now j = refl

pub own-Fate :
    (now : ℕ) (jitter : ℕ → ℕ) (job : Job) (error : String) (retry_after : Option ℕ) (db : Database)
    {before : Job}
    → find_where (has_id job.id) db.jobs ≡ some before
    → let (db', gone) = handle_failure now jitter job error retry_after db in
      (after : Job) × (find_where (has_id job.id) db'.jobs ≡ some after)
      × Fate now jitter job error retry_after before gone after
unfolding handle_failure mark_job_dead mark_job_retryable
own-Fate now jitter job error retry_after db {before} h =
    let at = now + backoff_secs jitter (job.attempt + 1) retry_after * 1000 in
    elim (Bool-cases (leb job.max_attempts (job.attempt + 1))) [
      | inl last ↦ rw last (
        kill now error before,
        find_where-update_self (has_id job.id) (kill now error) (killed_id job.id error now) db.jobs
            h,
        (ground arith, refl),
      )
      | inr more ↦ rw more (
        fail_at at error before,
        find_where-update_self (has_id job.id) (fail_at at error) (same_id job.id error at) db.jobs
            h,
        (ground arith, unfold fail_at in refl),
      )
    ]
