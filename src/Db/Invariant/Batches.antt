-- ===== src/Db/Invariant/Batches.antt =====
-- The statements that claim, acknowledge and give back jobs keep the invariant.
use qhook.Prelude.{
  ℕ, ◌+◌, ◌*◌, ◌++◌, ltb, refl, Option, none, some, List, [], ◌∷◌, String, arith, Bool-cases, inl,
  inr, Option-cases,
}
use qhook.Sql.{find_where}
use qhook.Db.{Driver, postgres, Job, Database}
use qhook.Db.Jobs
use qhook.Db.Queue
use qhook.Db.Queue.{QueueMessage}
use qhook.Db.Invariant.Rows.{IsValid, update_jobs-IsValid}
use qhook.Db.Invariant.Writes.{start-IsValid, complete-IsValid, fail_at-IsValid, kill-IsValid}

pub mark_job_running-IsValid :
    (now : ℕ) (id : String) (db : Database)
    → IsValid db
    → IsValid (Jobs.mark_job_running now id db).0
unfolding Jobs.mark_job_running Jobs.update_jobs
mark_job_running-IsValid now id =
    update_jobs-IsValid (Jobs.is_claimable id) (Jobs.start now) (λ j e v. start-IsValid j v now)
      (λ j. refl)

-- The loop over a batch of queue messages.
claim_messages-IsValid :
    (now : ℕ) (batch : List Job) (db : Database) (msgs : List QueueMessage)
    → IsValid db
    → IsValid (Queue.claim_messages now batch db msgs).0
unfolding Queue.claim_messages
claim_messages-IsValid now [] db msgs v = v
claim_messages-IsValid now (j ∷ js) db msgs v =
    let db' = (Jobs.mark_job_running now j.id db).0 in
    let v' = mark_job_running-IsValid now j.id db v in
    elim (Bool-cases (Jobs.mark_job_running now j.id db).1) [
      | inr lost ↦ rw lost (claim_messages-IsValid now js db' msgs v')
      | inl won ↦ elim (Option-cases (Queue.find_event j.event_id db'.events)) [
        | inl missing ↦ rw (won, missing) v'
        | inr (e, found) ↦
            rw (won, found) (claim_messages-IsValid now js db' (msgs ++ Queue.message j e ∷ []) v')
      ]
    ]

-- A batch that PostgreSQL marks in the statement that selects it.
mark_batch-IsValid :
    (now : ℕ) (batch : List Job) (db : Database)
    → IsValid db
    → IsValid (Jobs.update_jobs (Jobs.in_batch batch) (Jobs.start now) db).0
mark_batch-IsValid now batch =
    update_jobs-IsValid (Jobs.in_batch batch) (Jobs.start now) (λ j e v. start-IsValid j v now)
      (λ j. refl)

pub take_batch-IsValid :
    (d : Driver) (now : ℕ) (batch : List Job) (db : Database)
    → IsValid db
    → IsValid (Jobs.take_batch d now batch db).0
unfolding Jobs.take_batch Jobs.update_jobs
take_batch-IsValid postgres now batch db v = mark_batch-IsValid now batch db v
take_batch-IsValid _ now batch db v = v

pub take_messages-IsValid :
    (d : Driver) (now : ℕ) (batch : List Job) (db : Database)
    → IsValid db
    → IsValid (Queue.take_messages d now batch db).0
unfolding Queue.take_messages Jobs.update_jobs
take_messages-IsValid postgres now batch db v = mark_batch-IsValid now batch db v
take_messages-IsValid _ now batch db v = claim_messages-IsValid now batch db [] v

ack_one-IsValid :
    (now : ℕ) (attempt_id : String → String) (handler id : String) (db : Database)
    → IsValid db
    → IsValid (Queue.ack_one now attempt_id handler id db).0
unfolding Queue.ack_one Jobs.insert_attempt
ack_one-IsValid now attempt_id handler id db v =
    let v' =
      update_jobs-IsValid (Queue.is_held handler id) (Jobs.complete now)
        (λ j e w. complete-IsValid j w now) (λ j. refl) db v in
    ground (arith, v'.rows, v'.ids)

pub ack-IsValid :
    (now : ℕ) (attempt_id : String → String) (handler : String) (ids : List String) (db : Database)
    → IsValid db
    → IsValid (Queue.ack_queue_messages now attempt_id handler ids db).0
unfolding Queue.ack_queue_messages
ack-IsValid now attempt_id handler [] db v = v
ack-IsValid now attempt_id handler (id ∷ ids) db v =
    ack-IsValid now attempt_id handler ids (Queue.ack_one now attempt_id handler id db).0
      (ack_one-IsValid now attempt_id handler id db v)

nack_row-IsValid :
    (now : ℕ) (jitter : ℕ → ℕ) (id : String) (o : Option Job) (db : Database)
    → IsValid db
    → IsValid (Queue.nack_row now jitter id o db).0
unfolding Queue.nack_row
nack_row-IsValid now jitter id none db v = v
nack_row-IsValid now jitter id (some j) db v = elim (Bool-cases (ltb j.attempt j.max_attempts)) [
  | inl again ↦ rw again (
      update_jobs-IsValid (Queue.is_running_id id)
        (Jobs.fail_at (now + jitter (Queue.nack_backoff j.attempt) * 1000) "nack")
        (λ j e w. fail_at-IsValid j w _ _) (unfold Jobs.fail_at in λ j. refl) db v)
  | inr exhausted ↦ rw exhausted (
      update_jobs-IsValid (Queue.is_running_id id) (Jobs.kill now "nack: max attempts exceeded")
        (λ j e w. kill-IsValid j w now _) (λ j. refl) db v)
]

pub nack-IsValid :
    (now : ℕ) (jitter : ℕ → ℕ) (handler : String) (ids : List String) (db : Database)
    → IsValid db
    → IsValid (Queue.nack_queue_messages now jitter handler ids db).0
unfolding Queue.nack_queue_messages
nack-IsValid now jitter handler [] db v = v
nack-IsValid now jitter handler (id ∷ ids) db v =
    nack-IsValid now jitter handler ids (Queue.nack_one now jitter handler id db).0 (
      unfold Queue.nack_one in
      nack_row-IsValid now jitter id (find_where (Queue.is_held handler id) db.jobs) db v)
