-- ===== src/Db/Callback.antt =====
-- src/db.rs, `resume_callback_job`: requests that answer one callback.
use qhook.Prelude.{
  ℕ, ◌≡◌, refl, false, none, String, List, [], ◌∷◌, ◌++◌, arith, Bool-cases, inl, inr,
}
use qhook.Prelude.Classes.{string_eq}
use qhook.Sql.{count_where, update_where}
use qhook.Sql.Laws.{count_where-update_where, update_where_none}
use qhook.Db.{Job, Database, Result, ok, err, ◌>>=◌, transaction, has_status}
use qhook.Db.Events.{insert_job_row}
use qhook.Db.Atomic.{insert_job_row-eq-ok}
use qhook.Db.Jobs.{update_jobs}
use qhook.Db.Steps.{
  StepSpec, step_job, insert_row, insert_workflow_job, has_token, is_awaiting, resume,
  resume_callback_job,
}

-- No job waits for the token.
abbrev pub NoneWaiting : String → Database → Type 0
NoneWaiting token db = count_where (is_awaiting token) db.jobs ≡ 0

resumed_not_awaiting :
    (now : ℕ) (token payload : String) (j : Job) → is_awaiting token (resume now payload j) ≡ false
unfolding is_awaiting has_status
resumed_not_awaiting now token payload j = ground arith

resume-jobs :
    (now : ℕ) (token payload : String) (db : Database)
    → (resume_callback_job now token payload db).0.jobs
      ≡ update_where (is_awaiting token) (resume now payload) db.jobs
unfolding resume_callback_job update_jobs
resume-jobs now token payload db = ground arith

pub resume-NoneWaiting :
    (now : ℕ) (token payload : String) (db : Database)
    → NoneWaiting token (resume_callback_job now token payload db).0
resume-NoneWaiting now token payload db = rw (resume-jobs now token payload db) (
    count_where-update_where (is_awaiting token) (is_awaiting token) (resume now payload)
      (λ j e. resumed_not_awaiting now token payload j) (λ j e. e) db.jobs)

pub resume_none :
    (now : ℕ) (token payload : String) (db : Database)
    → NoneWaiting token db
    → resume_callback_job now token payload db ≡ (db, ok none)
unfolding resume_callback_job update_jobs
resume_none now token payload db h =
    rw (h, update_where_none (is_awaiting token) (resume now payload) db.jobs h)

count-append :
    (token : String) (rows : List Job) (j : Job)
    → is_awaiting token j ≡ false
    → count_where (is_awaiting token) rows ≡ 0
    → count_where (is_awaiting token) (rows ++ j ∷ []) ≡ 0
unfolding count_where
count-append token [] j h k = rw h refl
count-append token (r ∷ rows) j h k = elim (Bool-cases (is_awaiting token r)) [
  | inl e ↦ ground arith
  | inr e ↦
      (let k' : count_where (is_awaiting token) rows ≡ 0 = ground arith in
        rw e (count-append token rows j h k'))
]

step_not_awaiting :
    (token : String) (s : StepSpec) (now : ℕ) → is_awaiting token (step_job s now) ≡ false
unfolding is_awaiting has_token
step_not_awaiting token s now = refl

stored-NoneWaiting :
    (token : String) (db : Database) (r : Result (List Job))
    → NoneWaiting token db
    → ((jobs : List Job) → r ≡ ok jobs → count_where (is_awaiting token) jobs ≡ 0)
    → NoneWaiting token (transaction {0} db λ t. r >>= λ jobs. ok (record t { jobs = jobs }, tt)).0
stored-NoneWaiting token db (err x) h k = h
stored-NoneWaiting token db (ok jobs) h k = k jobs refl

-- A step's job waits for no token.
pub insert_workflow_job-NoneWaiting :
    (token : String) (s : StepSpec) (now : ℕ) (db : Database)
    → NoneWaiting token db
    → NoneWaiting token (insert_workflow_job s now db).0
unfolding insert_workflow_job insert_row
insert_workflow_job-NoneWaiting token s now db h =
    stored-NoneWaiting token db (insert_job_row (step_job s now) db.jobs) h (λ jobs e.
      rw (insert_job_row-eq-ok (step_job s now) db.jobs e)
        (count-append token db.jobs (step_job s now) (step_not_awaiting token s now) h))

-- A callback is answered once: after a first answer, whether it found a waiting job or not, every
-- further answer for the token, with any payload, finds none and changes nothing, so that the
-- workflow advances and the stored payload is the first one.
pub resume_callback_job_once :
    (now later : ℕ) (token payload payload' : String) (db : Database)
    → let db' = (resume_callback_job now token payload db).0 in
      resume_callback_job later token payload' db' ≡ (db', ok none)
resume_callback_job_once now later token payload payload' db =
    resume_none later token payload' (resume_callback_job now token payload db).0
      (resume-NoneWaiting now token payload db)
