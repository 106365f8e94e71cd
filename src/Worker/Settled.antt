-- ===== src/Worker/Settled.antt =====
-- src/queue.rs, `deliver_job` for a job that is no step of a workflow: the state of the job after a
-- delivery, for every outcome.
use qhook.Prelude.{
  ℕ, ◌+◌, ◌≡◌, refl, ◌∙◌, ap, Bool, true, false, ◌&&◌, Option, none, some, String, arith, leb, ltb,
  if◌then◌else◌, Bool-cases, inl, inr,
}
use qhook.Sql.{find_where}
use qhook.Sql.Laws.{find_where-update_self}
use qhook.Db.{Job, Database, JobStatus, completed, retryable, dead}
use qhook.Db.Jobs.{has_id, mark_job_completed, complete, insert_attempt}
use qhook.Worker.Failure.{handle_failure, own-Fate, Fate}
use qhook.Workflow.Dispatch.{is_workflow}
use qhook.Worker.Deliver.{
  World, AlertEvent, Outcome, Faults, Draws, responded, timed_out, unreachable, attempt_row,
  attempt_refused, record_attempt, trip, send, fail_job, on_success, on_http_failure, on_error,
  on_response, deliver_job,
}

-- The status that an outcome gives a job.
abbrev pub given_up : Job → JobStatus
given_up job = if leb job.max_attempts (job.attempt + 1) then dead else retryable

abbrev pub settled : Outcome → Job → JobStatus
settled (responded status _) job =
    if leb 200 status && ltb status 300 then completed else given_up job
settled _ job = given_up job

-- No call of the database fails.
abbrev pub IsSound : Faults → Draws → Job → Outcome → World → Type 0
IsSound f d job (responded status _) w =
    (attempt_refused f.attempt (attempt_row d job (some status) none) w ≡ false)
    × (f.completed ≡ false)
    × (f.failure ≡ false)
IsSound f d job _ w = (f.completed ≡ false) × (f.failure ≡ false)

trip-db : (d : Draws) (job : Job) (w : World) → (trip d job w).db ≡ w.db
unfolding trip
trip-db d job w = ground arith

send-db : (e : AlertEvent) (w : World) → (send e w).db ≡ w.db
unfolding send
send-db e w = ground arith

record_attempt-jobs :
    (fault : Bool) (a : _) (w : World) → (record_attempt fault a w).db.jobs ≡ w.db.jobs
unfolding record_attempt insert_attempt
record_attempt-jobs fault a w = ground arith

-- What is left of the row with the job's id.
abbrev Leaves : Job → JobStatus → Database → Type 0
Leaves job s db =
    (after : Job) × (find_where (has_id job.id) db.jobs ≡ some after) × (after.status ≡ s)

Fate-status :
    (now : ℕ) (jitter : ℕ → ℕ) (job : Job) (error : String) (r : Option ℕ) (before : Job)
    (gone : Bool) (after : Job)
    → Fate now jitter job error r before gone after
    → after.status ≡ given_up job
Fate-status now jitter job error r before true after (h, e) = ground arith
Fate-status now jitter job error r before false after (h, e) = ground arith

failure-Leaves :
    (now : ℕ) (jitter : ℕ → ℕ) (job : Job) (error : String) (r : Option ℕ) (db : Database)
    {before : Job}
    → find_where (has_id job.id) db.jobs ≡ some before
    → Leaves job (given_up job) (handle_failure now jitter job error r db).0
failure-Leaves now jitter job error r db {before} h =
    let (after, found, fate) = own-Fate now jitter job error r db h in
    (after, found, Fate-status now jitter job error r before _ after fate)

fail_job-db :
    (d : Draws) (job : Job) (error : String) (r : Option ℕ) (w : World)
    → (fail_job false d job error r w).0.db ≡ (handle_failure d.now d.jitter job error r w.db).0
unfolding fail_job
fail_job-db d job error r w = refl

on_http_failure-db :
    (f : Faults) (d : Draws) (job : Job) (s : ℕ) (r : Option ℕ) (w : World)
    → f.failure ≡ false
    → (on_http_failure f d job s r w).db
      ≡ (handle_failure d.now d.jitter job (d.http_error s) r w.db).0
unfolding on_http_failure trip fail_job send
on_http_failure-db f d job s r w h = ground arith

on_error-db :
    (f : Faults) (d : Draws) (job : Job) (kind error : String) (w : World)
    → f.failure ≡ false
    → (on_error f d job kind error w).db
      ≡ (handle_failure d.now d.jitter job error none
          (record_attempt f.attempt (attempt_row d job none (some error)) w).db).0
unfolding on_error trip fail_job record_attempt
on_error-db f d job kind error w h = ground arith

completed-Leaves :
    (now : ℕ) (job : Job) (db : Database) {before : Job}
    → find_where (has_id job.id) db.jobs ≡ some before
    → Leaves job completed (mark_job_completed now job.id db)
unfolding mark_job_completed
completed-Leaves now job db {before} h = (
  complete now before,
  find_where-update_self (has_id job.id) (complete now) (unfold has_id in λ r. refl) db.jobs h,
  refl,
)

on_success-db :
    (f : Faults) (d : Draws) (job : Job) (w : World)
    → f.completed ≡ false
    → (on_success f d job w).db ≡ mark_job_completed d.now job.id w.db
unfolding on_success
on_success-db f d job w h = ground arith

response-Leaves :
    (f : Faults) (d : Draws) (job : Job) (s : ℕ) (r : Option ℕ) (w : World) {before : Job}
    → find_where (has_id job.id) w.db.jobs ≡ some before
    → IsSound f d job (responded s r) w
    → Leaves job (settled (responded s r) job) (on_response f d job s r w).db
unfolding on_response
response-Leaves f d job s r w h (sound, c, x) =
    let a = attempt_row d job (some s) none in
    let w' = record_attempt false a w in
    let h' = ap (find_where (has_id job.id)) (record_attempt-jobs false a w) ∙ h in
    elim (Bool-cases (leb 200 s && ltb s 300)) [
      | inl success ↦
          rw (sound, success, on_success-db f d job w' c) (completed-Leaves d.now job w'.db h')
      | inr failed ↦
          rw (sound, failed, on_http_failure-db f d job s r w' x)
            (failure-Leaves d.now d.jitter job (d.http_error s) r w'.db h')
    ]

error-Leaves :
    (f : Faults) (d : Draws) (job : Job) (kind error : String) (w : World) {before : Job}
    → find_where (has_id job.id) w.db.jobs ≡ some before
    → f.failure ≡ false
    → Leaves job (given_up job) (on_error f d job kind error w).db
error-Leaves f d job kind error w {before} h x = rw (on_error-db f d job kind error w x) (
    failure-Leaves d.now d.jitter job error none
      (record_attempt f.attempt (attempt_row d job none (some error)) w).db
      (ap (find_where (has_id job.id))
          (record_attempt-jobs f.attempt (attempt_row d job none (some error)) w)
        ∙ h))

-- The delivery of a job that is no step of a workflow, so of a handler's or an outbound job, settles
-- it: as long as its row is there and the database answers, whatever came of the request, the job is
-- not left running. It is completed after a status from 200 to 299,
-- and otherwise dead if this was its last attempt and retryable if not.
pub deliver_job_settles :
    (f : Faults) (d : Draws) (job : Job) (o : Outcome) (w : World) {before : Job}
    → is_workflow job ≡ false
    → find_where (has_id job.id) w.db.jobs ≡ some before
    → IsSound f d job o w
    → (after : Job) × (find_where (has_id job.id) (deliver_job f d job o w).db.jobs ≡ some after)
      × (after.status ≡ settled o job)
unfolding deliver_job
deliver_job_settles f d job (responded s r) w plain h sound = response-Leaves f d job s r w h sound
deliver_job_settles f d job (timed_out error) w plain h (_, x) =
    error-Leaves f d job "timeout" error w h x
deliver_job_settles f d job (unreachable error) w plain h (_, x) =
    error-Leaves f d job "network" error w h x
