-- ===== src/Db/Invariant/Sequences.antt =====
-- Every statement of src/db.rs that writes, as data, and the invariant over all their sequences.
use qhook.Prelude.{ℕ, refl, Option, some, List, [], ◌∷◌, String, arith}
use qhook.Db.{Job, JobStatus, Event, Attempt, Database}
use qhook.Db.Events
use qhook.Db.Events.{JobSpec}
use qhook.Db.Jobs
use qhook.Db.Queue
use qhook.Db.Steps
use qhook.Db.Steps.{StepSpec}
use qhook.Db.Invariant.Rows.{JobIsValid, IsValid, update_jobs-IsValid, delete_jobs-IsValid}
use qhook.Db.Invariant.Writes.{
  complete-IsValid, reschedule-IsValid, fail_at-IsValid, kill-IsValid, revive-IsValid,
  reset_attempt-IsValid, resume-IsValid,
}
use qhook.Db.Invariant.Inserts.{
  step_job-IsValid, branch_job-IsValid, delayed_job-IsValid, callback_job-IsValid,
  insert_row-IsValid, insert_job-IsValid, insert_event_and_jobs-IsValid, insert_event-IsValid,
}
use qhook.Db.Invariant.Batches.{
  mark_job_running-IsValid, take_batch-IsValid, take_messages-IsValid, ack-IsValid, nack-IsValid,
}

-- A call of an operation of `Database` on jobs, attempts or events, with its arguments and the
-- time that it reads.
pub data Statement : Type 0 where
  insert_event : Event → Statement
  insert_event_and_jobs : Event → List JobSpec → Statement
  insert_job : String → String → String → String → ℕ → ℕ → Statement
  fetch_available_jobs : ℕ → ℕ → Statement
  mark_job_running : ℕ → String → Statement
  mark_job_completed : ℕ → String → Statement
  mark_job_retryable : String → ℕ → String → Statement
  mark_job_dead : ℕ → String → String → Statement
  insert_attempt : Attempt → Statement
  retry_dead_jobs : ℕ → Statement
  recover_stale_jobs : ℕ → ℕ → Statement
  cleanup_old_records : ℕ → ℕ → Statement
  expire_old_jobs : ℕ → ℕ → Statement
  retry_job : ℕ → String → Statement
  retry_dead_jobs_by_handler : ℕ → String → Statement
  bulk_retry_jobs : ℕ → JobStatus → Option String → Statement
  delete_jobs_by_handler : String → Statement
  fetch_queue_messages : ℕ → String → ℕ → Statement
  ack_queue_messages : ℕ → (String → String) → String → List String → Statement
  nack_queue_messages : ℕ → (ℕ → ℕ) → String → List String → Statement
  recover_expired_queue_messages : String → ℕ → ℕ → Statement
  insert_workflow_job : StepSpec → ℕ → Statement
  insert_branch_job : StepSpec → String → ℕ → Statement
  insert_workflow_job_delayed : StepSpec → ℕ → ℕ → Statement
  insert_callback_job : StepSpec → String → ℕ → ℕ → Statement
  save_step_output : String → String → Statement
  resume_callback_job : ℕ → String → String → Statement
  expire_timed_out_callbacks : ℕ → Statement

-- The database that a call leaves.
abbrev pub execute : Statement → Database → Database
execute (insert_event e) db = (Events.insert_event e db).0
execute (insert_event_and_jobs e specs) db = (Events.insert_event_and_jobs e specs db).0
execute (insert_job id ev h url m now) db = (Events.insert_job id ev h url m now db).0
execute (fetch_available_jobs now limit) db = (Jobs.fetch_available_jobs now limit db).0
execute (mark_job_running now id) db = (Jobs.mark_job_running now id db).0
execute (mark_job_completed now id) db = Jobs.mark_job_completed now id db
execute (mark_job_retryable id at e) db = Jobs.mark_job_retryable id at e db
execute (mark_job_dead now id e) db = Jobs.mark_job_dead now id e db
execute (insert_attempt a) db = (Jobs.insert_attempt a db).0
execute (retry_dead_jobs now) db = (Jobs.retry_dead_jobs now db).0
execute (recover_stale_jobs secs now) db = (Jobs.recover_stale_jobs secs now db).0
execute (cleanup_old_records hours now) db = (Jobs.cleanup_old_records hours now db).0
execute (expire_old_jobs ttl now) db = (Jobs.expire_old_jobs ttl now db).0
execute (retry_job now id) db = (Jobs.retry_job now id db).0
execute (retry_dead_jobs_by_handler now h) db = (Jobs.retry_dead_jobs_by_handler now h db).0
execute (bulk_retry_jobs now s h) db = (Jobs.bulk_retry_jobs now s h db).0
execute (delete_jobs_by_handler h) db = (Jobs.delete_jobs_by_handler h db).0
execute (fetch_queue_messages now h limit) db = (Queue.fetch_queue_messages now h limit db).0
execute (ack_queue_messages now ulid h ids) db = (Queue.ack_queue_messages now ulid h ids db).0
execute (nack_queue_messages now jitter h ids) db =
    (Queue.nack_queue_messages now jitter h ids db).0
execute (recover_expired_queue_messages h secs now) db =
    (Queue.recover_expired_queue_messages h secs now db).0
execute (insert_workflow_job s now) db = (Steps.insert_workflow_job s now db).0
execute (insert_branch_job s branch now) db = (Steps.insert_branch_job s branch now db).0
execute (insert_workflow_job_delayed s at now) db =
    (Steps.insert_workflow_job_delayed s at now db).0
execute (insert_callback_job s token far now) db = (Steps.insert_callback_job s token far now db).0
execute (save_step_output id output) db = Steps.save_step_output id output db
execute (resume_callback_job now token payload) db =
    (Steps.resume_callback_job now token payload db).0
execute (expire_timed_out_callbacks now) db = (Steps.expire_timed_out_callbacks now db).0

save-IsValid :
    (j : Job) (output : String) → JobIsValid j → JobIsValid (record j { step_output = some output })
save-IsValid j output v = record { finished = v.finished; started = v.started; tokened = v.tokened }

resume_callback_job-IsValid :
    (now : ℕ) (token payload : String) (db : Database)
    → IsValid db
    → IsValid (Steps.resume_callback_job now token payload db).0
unfolding Steps.resume_callback_job
resume_callback_job-IsValid now token payload db v =
    let v' =
      update_jobs-IsValid (Steps.is_awaiting token) (Steps.resume now payload)
        (λ j e w. resume-IsValid j w now payload) (λ j. refl) db v in
    ground (arith, v'.rows, v'.ids)

retry_job-IsValid :
    (now : ℕ) (id : String) (db : Database) → IsValid db → IsValid (Jobs.retry_job now id db).0
unfolding Jobs.retry_job
retry_job-IsValid now id =
    update_jobs-IsValid _ _ (λ j e w. reset_attempt-IsValid j w now) (λ j. refl)

insert_attempt-IsValid :
    (a : Attempt) (db : Database) → IsValid db → IsValid (Jobs.insert_attempt a db).0
unfolding Jobs.insert_attempt
insert_attempt-IsValid a db v = ground (arith, v.rows, v.ids)

unfolds : Unit {0}
unfolding Jobs.mark_job_completed Jobs.mark_job_retryable Jobs.mark_job_dead Jobs.retry_dead_jobs
    Jobs.recover_stale_jobs Jobs.cleanup_old_records Jobs.expire_old_jobs
    Jobs.retry_dead_jobs_by_handler Jobs.bulk_retry_jobs Jobs.delete_jobs_by_handler
    Queue.recover_expired_queue_messages Steps.insert_workflow_job Steps.insert_branch_job
    Steps.insert_workflow_job_delayed Steps.insert_callback_job Steps.save_step_output
    Steps.expire_timed_out_callbacks Jobs.fetch_available_jobs Queue.fetch_queue_messages
    Jobs.fail_at
unfolds = tt

pub execute-IsValid : (s : Statement) (db : Database) → IsValid db → IsValid (execute s db)
unfolding unfolds Jobs.update_jobs
execute-IsValid (insert_event e) db v = insert_event-IsValid e db v
execute-IsValid (insert_event_and_jobs e specs) db v = insert_event_and_jobs-IsValid e specs db v
execute-IsValid (insert_job id ev h url m now) db v = insert_job-IsValid id ev h url m now db v
execute-IsValid (fetch_available_jobs now limit) db v = take_batch-IsValid db.driver now _ db v
execute-IsValid (mark_job_running now id) db v = mark_job_running-IsValid now id db v
execute-IsValid (mark_job_completed now id) db v =
    update_jobs-IsValid (Jobs.has_id id) (Jobs.complete now) (λ j e w. complete-IsValid j w now)
      (λ j. refl) db v
execute-IsValid (mark_job_retryable id at error) db v =
    update_jobs-IsValid (Jobs.has_id id) (Jobs.fail_at at error)
      (λ j e w. fail_at-IsValid j w at error) (λ j. refl) db v
execute-IsValid (mark_job_dead now id error) db v =
    update_jobs-IsValid (Jobs.has_id id) (Jobs.kill now error) (λ j e w. kill-IsValid j w now error)
      (λ j. refl) db v
execute-IsValid (insert_attempt a) db v = insert_attempt-IsValid a db v
execute-IsValid (retry_dead_jobs now) db v =
    update_jobs-IsValid _ (Jobs.revive now) (λ j e w. revive-IsValid j w now) (λ j. refl) db v
execute-IsValid (recover_stale_jobs secs now) db v =
    update_jobs-IsValid _ (Jobs.reschedule now) (λ j e w. reschedule-IsValid j w now) (λ j. refl) db
      v
execute-IsValid (cleanup_old_records hours now) db v = delete_jobs-IsValid _ db v
execute-IsValid (expire_old_jobs ttl now) db v =
    update_jobs-IsValid _ (Jobs.kill now _) (λ j e w. kill-IsValid j w now _) (λ j. refl) db v
execute-IsValid (retry_job now id) db v = retry_job-IsValid now id db v
execute-IsValid (retry_dead_jobs_by_handler now h) db v =
    update_jobs-IsValid _ _ (λ j e w. reset_attempt-IsValid j w now) (λ j. refl) db v
execute-IsValid (bulk_retry_jobs now s h) db v =
    update_jobs-IsValid _ _ (λ j e w. reset_attempt-IsValid j w now) (λ j. refl) db v
execute-IsValid (delete_jobs_by_handler h) db v = delete_jobs-IsValid _ db v
execute-IsValid (fetch_queue_messages now h limit) db v = take_messages-IsValid db.driver now _ db v
execute-IsValid (ack_queue_messages now ulid h ids) db v = ack-IsValid now ulid h ids db v
execute-IsValid (nack_queue_messages now jitter h ids) db v = nack-IsValid now jitter h ids db v
execute-IsValid (recover_expired_queue_messages h secs now) db v =
    update_jobs-IsValid _ (Jobs.reschedule now) (λ j e w. reschedule-IsValid j w now) (λ j. refl) db
      v
execute-IsValid (insert_workflow_job s now) db v =
    insert_row-IsValid _ db (step_job-IsValid s now) v
execute-IsValid (insert_branch_job s branch now) db v =
    insert_row-IsValid _ db (branch_job-IsValid s branch now) v
execute-IsValid (insert_workflow_job_delayed s at now) db v =
    insert_row-IsValid _ db (delayed_job-IsValid s at now) v
execute-IsValid (insert_callback_job s token far now) db v =
    insert_row-IsValid _ db (callback_job-IsValid s token far now) v
execute-IsValid (save_step_output id output) db v =
    update_jobs-IsValid (Jobs.has_id id) _ (λ j e w. save-IsValid j output w) (λ j. refl) db v
execute-IsValid (resume_callback_job now token payload) db v =
    resume_callback_job-IsValid now token payload db v
execute-IsValid (expire_timed_out_callbacks now) db v =
    update_jobs-IsValid _ (Jobs.kill now _) (λ j e w. kill-IsValid j w now _) (λ j. refl) db v

unfoldable pub execute_all : List Statement → Database → Database
execute_all [] db = db
execute_all (s ∷ ss) db = execute_all ss (execute s db)

-- After any sequence of calls, from a database where it held, no two jobs have one id, every
-- finished job has the time at which it finished, every running job the time at which it was
-- started, and every job that waits for a callback a token.
pub execute_all-IsValid :
    (ss : List Statement) (db : Database) → IsValid db → IsValid (execute_all ss db)
unfolding execute_all
execute_all-IsValid [] db v = v
execute_all-IsValid (s ∷ ss) db v = execute_all-IsValid ss (execute s db) (execute-IsValid s db v)
