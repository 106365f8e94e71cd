-- ===== src/Db/Queue.antt =====
-- src/db.rs: the statements on the messages of pull-mode queues.
use qhook.Prelude.{
  ℕ, ◌+◌, ◌*◌, ◌^◌, Bool, not, ◌&&◌, Option, none, some, String, List, [], ◌∷◌, ◌++◌, map,
  if◌then◌else◌, ltb, min,
}
use qhook.Prelude.Classes.{◌==◌, string_eq}
use qhook.Sql.{find_where, update_where, count_where, select_where, order_limit}
use qhook.Db.{
  Driver, postgres, running, Job, Event, Attempt, Database, row_not_found, unexpected_null, Result,
  ok, err, has_status,
}
use qhook.Db.Jobs.{
  is_due, start, returned, in_batch, is_older, complete, reschedule, kill, fail_at,
  mark_job_running, insert_attempt, update_jobs,
}

-- `QueueMessageRow`
pub record QueueMessage : Type 0 where
  pub id : String
  pub event_id : String
  pub event_type : String
  pub payload : String
  pub headers : Option String
  pub attempt : ℕ
  pub created_at : ℕ

unfoldable pub is_queued : String → ℕ → Job → Bool
is_queued handler now j = j.handler == handler && is_due now j

unfoldable pub find_event : String → List Event → Option Event
find_event id = find_where (λ e. e.id == id)

abbrev pub message : Job → Event → QueueMessage
message j e = record {
  id = j.id;
  event_id = j.event_id;
  event_type = e.event_type;
  payload = e.payload;
  headers = e.headers;
  attempt = j.attempt;
  created_at = j.created_at;
}

-- The rows that PostgreSQL returns: the columns of an event that is missing are NULL.
unfoldable pub decode_messages : List Event → List Job → Result (List QueueMessage)
decode_messages events [] = ok []
decode_messages events (j ∷ js) =
    let rest = decode_messages events js in
    elim (find_event j.event_id events) [
      | none ↦ err unexpected_null
      | some e ↦ elim rest [ ok ms ↦ ok (message j e ∷ ms) | err x ↦ err x ]
    ]

-- The loop of the other drivers. A row that another consumer took is skipped; a missing event
-- ends the call, with the marks that are made so far.
unfoldable pub claim_messages :
    ℕ → List Job → Database → List QueueMessage → Database × Result (List QueueMessage)
claim_messages now [] db msgs = (db, ok msgs)
claim_messages now (j ∷ js) db msgs =
    let (db', won) = mark_job_running now j.id db in
    let skip = claim_messages now js db' msgs in
    let push = λ (e : Event). claim_messages now js db' (msgs ++ message j e ∷ []) in
    if not won then skip else (elim (find_event j.event_id db'.events) [
      | none ↦ (db', err row_not_found)
      | some e ↦ push e
    ])

unfoldable pub take_messages :
    Driver → ℕ → List Job → Database → Database × Result (List QueueMessage)
take_messages postgres now batch db = (
  record db { jobs = update_where (in_batch batch) (start now) db.jobs },
  decode_messages db.events (map (returned now) batch),
)
take_messages _ now batch db = claim_messages now batch db []

unfoldable pub fetch_queue_messages :
    ℕ → String → ℕ → Database → Database × Result (List QueueMessage)
unfolding take_messages
fetch_queue_messages now handler limit db =
    take_messages db.driver now
      (order_limit (λ j. j.scheduled_at) limit (select_where (is_queued handler now) db.jobs)) db

-- id = $1 AND handler = $2 AND status = 'running'
unfoldable pub is_held : String → String → Job → Bool
is_held handler id j = j.id == id && j.handler == handler && has_status running j.status

abbrev pub ack_attempt : ℕ → String → String → Attempt
ack_attempt now attempt_id job_id = record {
  id = attempt_id;
  job_id = job_id;
  attempt = 1;
  status_code = some 200;
  response_body = none;
  error = none;
  duration_ms = 0;
  created_at = now;
}

-- `attempt_id` gives the ULID that the call draws for a job. A failure to record the attempt is
-- dropped.
unfoldable pub ack_one : ℕ → (String → String) → String → String → Database → Database × ℕ
ack_one now attempt_id handler id db =
    let (db', n) = update_jobs (is_held handler id) (complete now) db in
    if ltb 0 n then ((insert_attempt (ack_attempt now (attempt_id id) id) db').0, 1) else (db', 0)

unfoldable pub ack_queue_messages :
    ℕ → (String → String) → String → List String → Database → Database × ℕ
ack_queue_messages now attempt_id handler [] db = (db, 0)
ack_queue_messages now attempt_id handler (id ∷ ids) db =
    let (db', n) = ack_one now attempt_id handler id db in
    let (db'', total) = ack_queue_messages now attempt_id handler ids db' in (db'', n + total)

-- 30 s doubled for each attempt, capped at an hour.
unfoldable pub nack_backoff : ℕ → ℕ
nack_backoff attempt = min (30 * 2 ^ min attempt 20) 3600

-- id = $2 AND status = 'running'
unfoldable pub is_running_id : String → Job → Bool
is_running_id id j = j.id == id && has_status running j.status

-- What is done with the row that the SELECT finds. `jitter` is the product of the backoff with the
-- random factor, as whole seconds.
unfoldable pub nack_row : ℕ → (ℕ → ℕ) → String → Option Job → Database → Database × ℕ × ℕ
nack_row now jitter id none db = (db, 0, 0)
nack_row now jitter id (some j) db =
    let next_at = now + jitter (nack_backoff j.attempt) * 1000 in
    if ltb j.attempt j.max_attempts
    then ((update_jobs (is_running_id id) (fail_at next_at "nack") db).0, 1, 0)
    else ((update_jobs (is_running_id id) (kill now "nack: max attempts exceeded") db).0, 0, 1)

unfoldable pub nack_one : ℕ → (ℕ → ℕ) → String → String → Database → Database × ℕ × ℕ
unfolding nack_row
nack_one now jitter handler id db =
    nack_row now jitter id (find_where (is_held handler id) db.jobs) db

unfoldable pub nack_queue_messages :
    ℕ → (ℕ → ℕ) → String → List String → Database → Database × ℕ × ℕ
nack_queue_messages now jitter handler [] db = (db, 0, 0)
nack_queue_messages now jitter handler (id ∷ ids) db =
    let (db', r, d) = nack_one now jitter handler id db in
    let (db'', retried, dead_count) = nack_queue_messages now jitter handler ids db' in
    (db'', r + retried, d + dead_count)

abbrev pub i64_max : ℕ
i64_max = 9223372036854775807

unfoldable pub is_invisible : String → ℕ → ℕ → Job → Bool
is_invisible handler secs now j =
    j.handler == handler
    && has_status running j.status
    && is_older (min secs i64_max * 1000) now j.started_at

unfoldable pub recover_expired_queue_messages : String → ℕ → ℕ → Database → Database × ℕ
recover_expired_queue_messages handler secs now =
    update_jobs (is_invisible handler secs now) (reschedule now)

unfoldable pub count_queue_depth : String → ℕ → Database → ℕ
count_queue_depth handler now db = count_where (is_queued handler now) db.jobs
