-- ===== src/Db/Events.antt =====
-- src/db.rs: the statements that store events and the jobs of an event.
use qhook.Prelude.{
  ℕ, Bool, true, false, ◌&&◌, ◌||◌, Option, none, some, String, List, [], ◌∷◌, ◌++◌, if◌then◌else◌,
}
use qhook.Prelude.Classes.{◌==◌, string_eq}
use qhook.Sql.{exists_where}
use qhook.Db.{
  Driver, mysql, available, Job, Event, Database, unique_violation, Result, ok, err, ◌>>=◌,
  transaction, is_value, clamp_i32,
}

abbrev pub same_token : Option String → Option String → Bool
same_token none token = false
same_token (some t) token = is_value t token

-- Whether a row holds the primary key or the callback token of a new one.
unfoldable pub has_job : Job → List Job → Bool
has_job j = exists_where (λ r. r.id == j.id || same_token j.callback_token r.callback_token)

unfoldable pub insert_job_row : Job → List Job → Result (List Job)
insert_job_row j rows = if has_job j rows then err unique_violation else ok (rows ++ j ∷ [])

abbrev pub new_job : String → String → String → String → ℕ → ℕ → Job
new_job id event_id handler url max_attempts now = record {
  id = id;
  event_id = event_id;
  handler = handler;
  url = url;
  status = available;
  attempt = 0;
  max_attempts = clamp_i32 max_attempts;
  scheduled_at = now;
  started_at = none;
  completed_at = none;
  created_at = now;
  last_error = none;
  workflow_run_id = none;
  step_name = none;
  step_index = none;
  step_input = none;
  step_output = none;
  branch_name = none;
  callback_token = none;
}

-- Whether another event of the source holds the key.
unfoldable pub has_key : String → String → List Event → Bool
has_key source key = exists_where (λ r. r.source == source && is_value key r.unique_key)

unfoldable pub has_event : String → List Event → Bool
has_event id = exists_where (λ r. r.id == id)

-- A primary key that is taken: INSERT IGNORE skips the row too.
abbrev pub id_conflict : Driver → List Event → Result (List Event × Bool)
id_conflict mysql rows = ok (rows, false)
id_conflict _ rows = err unique_violation

-- The INSERT of an event: INSERT IGNORE on MySQL, ON CONFLICT (source, unique_key) DO NOTHING on
-- the others, and a plain INSERT without a key. The flag is `rows_affected() > 0`.
unfoldable pub insert_event_row : Driver → Event → List Event → Result (List Event × Bool)
insert_event_row driver e rows = elim e.unique_key [
  | none ↦ if has_event e.id rows then err unique_violation else ok (rows ++ e ∷ [], true)
  | some key ↦
      if has_key e.source key rows
      then ok (rows, false)
      else if has_event e.id rows
      then id_conflict driver rows
      else ok (rows ++ e ∷ [], true)
]

unfoldable pub insert_event : Event → Database → Database × Result Bool
insert_event e db = transaction db λ t. do
  (events, created) ← insert_event_row t.driver e t.events
  ok (record t { events = events }, created)

-- What `jobs` of `insert_event_and_jobs` lists: id, handler, url, max_attempts.
abbrev pub JobSpec : Type 0
JobSpec = String × String × String × ℕ

unfoldable pub insert_job_rows : String → ℕ → List JobSpec → List Job → Result (List Job)
insert_job_rows event_id now [] rows = ok rows
insert_job_rows event_id now ((id, handler, url, max_attempts) ∷ specs) rows = do
  rows' ← insert_job_row (new_job id event_id handler url max_attempts now) rows
  insert_job_rows event_id now specs rows'

-- A duplicate is rolled back with no jobs; else the jobs follow in the same transaction.
unfoldable pub insert_jobs_if :
    Bool → Event → List JobSpec → List Event → Database → Result (Database × Bool)
insert_jobs_if false e specs events t = ok (t, false)
insert_jobs_if true e specs events t = do
  jobs ← insert_job_rows e.id e.created_at specs t.jobs
  ok (record t { events = events; jobs = jobs }, true)

unfoldable pub insert_event_and_jobs : Event → List JobSpec → Database → Database × Result Bool
insert_event_and_jobs e specs db = transaction db λ t. do
  (events, created) ← insert_event_row t.driver e t.events
  insert_jobs_if created e specs events t

unfoldable pub insert_job :
    String → String → String → String → ℕ → ℕ → Database → Database × Result (Unit {0})
insert_job id event_id handler url max_attempts now db = transaction db λ t. do
  jobs ← insert_job_row (new_job id event_id handler url max_attempts now) t.jobs
  ok (record t { jobs = jobs }, tt)
