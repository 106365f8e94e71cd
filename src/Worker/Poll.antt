-- ===== src/Worker/Poll.antt =====
-- src/queue.rs, the poll of `Worker::run`: how many jobs it takes, and which of them get a task.
use mathlib.Core.Path.{subst}
use qhook.Prelude.{
  ℕ, zero, suc, ◌≤◌, ◌≡◌, refl, Bool, true, false, List, [], ◌∷◌, arith, min, max, length, All,
  if◌then◌else◌,
}
use qhook.Prelude.Classes.{◌==◌, string_eq}
use qhook.Sql.{exists_where}
use qhook.Db.{Driver, postgres, Job, Database, i32_max}
use qhook.Db.Jobs.{in_batch, fetch_available_jobs, mark_job_running}
use qhook.Db.Fetch.{IsNewWork, fetch_available_jobs_disjoint}

-- `batch_size.min(available_permits).max(1)`
unfoldable pub batch_limit : ℕ → ℕ → ℕ
batch_limit batch_size permits = max (min batch_size (min permits i32_max)) 1

abbrev pub is_postgres : Driver → Bool
is_postgres postgres = true
is_postgres _ = false

-- The loop over the jobs of a poll, with the jobs that get a task. It ends where no permit is left;
-- a job that another worker has claimed gives its permit back. No task ends meanwhile.
unfoldable pub dispatch : Bool → ℕ → ℕ → List Job → Database → Database × List Job
dispatch locked now permits [] db = (db, [])
dispatch locked now zero (j ∷ js) db = (db, [])
dispatch true now (suc permits) (j ∷ js) db =
    let (db', spawned) = dispatch true now permits js db in (db', j ∷ spawned)
dispatch false now (suc permits) (j ∷ js) db =
    let (db', won) = mark_job_running now j.id db in
    let (db₁, spawned) = dispatch false now permits js db' in
    let skipped = dispatch false now (suc permits) js db' in
    if won then (db₁, j ∷ spawned) else skipped

unfoldable pub poll : ℕ → ℕ → ℕ → Database → Database × List Job
unfolding batch_limit
poll now batch_size permits db =
    let (db', jobs) = fetch_available_jobs now (batch_limit batch_size permits) db in
    dispatch (is_postgres db.driver) now permits jobs db'

dispatch-length :
    (locked : Bool) (now permits : ℕ) (jobs : List Job) (db : Database)
    → length (dispatch locked now permits jobs db).1 ≤ permits
unfolding dispatch
dispatch-length locked now permits [] db = omega arith
dispatch-length true now zero (j ∷ js) db = omega arith
dispatch-length false now zero (j ∷ js) db = omega arith
dispatch-length true now (suc permits) (j ∷ js) db =
    omega (arith, dispatch-length true now permits js db)
dispatch-length false now (suc permits) (j ∷ js) db =
    let db' = (mark_job_running now j.id db).0 in
    ground (
      arith,
      dispatch-length false now permits js db',
      dispatch-length false now (suc permits) js db',
    )

-- However many jobs are due, a poll starts no more deliveries than there are permits.
pub poll_bounded :
    (now batch_size permits : ℕ) (db : Database)
    → length (poll now batch_size permits db).1 ≤ permits
unfolding poll
poll_bounded now batch_size permits db =
    let (db', jobs) = fetch_available_jobs now (batch_limit batch_size permits) db in
    dispatch-length (is_postgres db.driver) now permits jobs db'

dispatch-zero :
    (locked : Bool) (now : ℕ) (jobs : List Job) (db : Database)
    → dispatch locked now 0 jobs db ≡ (db, [])
unfolding dispatch
dispatch-zero true now [] db = refl
dispatch-zero false now [] db = refl
dispatch-zero true now (j ∷ js) db = refl
dispatch-zero false now (j ∷ js) db = refl

saturated_poll :
    (now batch_size : ℕ) (db : Database)
    → poll now batch_size 0 db ≡ ((fetch_available_jobs now 1 db).0, [])
unfolding poll batch_limit
saturated_poll now batch_size db =
    let one : max (min batch_size (min 0 i32_max)) 1 ≡ 1 = omega arith in
    let (db', jobs) = fetch_available_jobs now 1 db in
    rw one (dispatch-zero (is_postgres db.driver) now jobs db')

other_work :
    (later : ℕ) (j : Job) (next : List Job)
    → All (IsNewWork later (j ∷ [])) next
    → All (λ k. (j.id == k.id) ≡ false) next
unfolding in_batch exists_where
other_work later j [] h = tt
other_work later j (k ∷ next) ((n, _, _), h) = (ground arith, other_work later j next h)

-- On PostgreSQL a poll while the worker has no permit left strands a job: it still takes one job
-- that is due, which it hands to no task, and no later poll gets that job.
pub saturated_poll_strands :
    (now later batch_size limit : ℕ) (db : Database) {j : Job}
    → db.driver ≡ postgres
    → (fetch_available_jobs now 1 db).1 ≡ j ∷ []
    → let (db', spawned) = poll now batch_size 0 db in
      (spawned ≡ []) × All (λ k. (j.id == k.id) ≡ false) (fetch_available_jobs later limit db').1
saturated_poll_strands now later batch_size limit db {j} h taken =
    let (_, fresh) = fetch_available_jobs_disjoint now later 1 limit db h in
    let next = (fetch_available_jobs later limit (fetch_available_jobs now 1 db).0).1 in
    rw (saturated_poll now batch_size db)
      (refl, other_work later j next (subst (λ t. All (IsNewWork later t) next) taken fresh))
