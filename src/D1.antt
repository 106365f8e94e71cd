-- ===== src/D1.antt =====
-- src/d1_db.rs: an event and its jobs on the D1 backend, where each statement is a request of its
-- own, which can fail, and the tables are those of SQLite.
use qhook.Prelude.{ℕ, Bool, true, false, Option, none, some, String, List, [], ◌∷◌}
use qhook.Db.{Event, Database, sqlite, Result, ok, transaction, ◌>>=◌ as ◌>>=ʳ◌}
use qhook.Db.Events.{JobSpec, insert_event_row, insert_job}
use qhook.Sql.{find_where}
use qhook.Db.Runs.{has_run_id, update_run, bump, read_counts}
use qhook.Workflow.Engine.{Env, Task, pure, call, write, ◌>>=◌, ◌>>◌}
pub mod Partial
pub mod Lost
pub mod Join

-- The row that a call stores.
abbrev pub row_of : Env → String → String → String → String → Option String → Option String → Event
row_of env id source event_type payload headers unique_key = record {
  id = id;
  source = source;
  event_type = event_type;
  payload = payload;
  headers = headers;
  unique_key = unique_key;
  created_at = env.now;
}

-- The statement: ON CONFLICT (source, unique_key) DO NOTHING with a key, and without one a plain
-- INSERT.
unfoldable pub insert_statement : Event → Database → Database × Result Bool
insert_statement e db =
    transaction db
      λ t. insert_event_row sqlite e t.events >>=ʳ λ x. ok (record t { events = x.0 }, x.1)

unfoldable pub d1_insert_event : Env → Event → Task Bool
unfolding insert_statement
d1_insert_event env e = call env (insert_statement e)

unfoldable pub d1_insert_job : Env → String → String → String → String → ℕ → Task (Unit {0})
d1_insert_job env id event_id handler url max_attempts =
    call env (insert_job id event_id handler url max_attempts env.now)

-- `for (job_id, handler, url, max_attempts) in jobs { .. }`
unfoldable pub d1_insert_jobs : Env → String → List JobSpec → Task (Unit {0})
unfolding d1_insert_job
d1_insert_jobs env event_id [] = pure tt
d1_insert_jobs env event_id ((id, handler, url, max_attempts) ∷ jobs) =
    d1_insert_job env id event_id handler url max_attempts >> d1_insert_jobs env event_id jobs

abbrev jobs_if : Env → String → List JobSpec → Bool → Task Bool
jobs_if env event_id jobs false = pure false
jobs_if env event_id jobs true = d1_insert_jobs env event_id jobs >> pure true

unfoldable pub d1_insert_event_and_jobs :
    Env
    → String
    → String
    → String
    → String
    → Option String
    → Option String
    → List JobSpec
    → Task Bool
unfolding d1_insert_event d1_insert_jobs
d1_insert_event_and_jobs env id source event_type payload headers unique_key jobs =
    d1_insert_event env (row_of env id source event_type payload headers unique_key)
    >>= jobs_if env id jobs

-- The two requests of `d1_increment_parallel_completed`: an UPDATE, and a SELECT of the counts.
unfoldable pub d1_bump : Env → String → Task (Unit {0})
d1_bump env run_id = write env (update_run run_id bump)

unfoldable pub d1_read_counts : Env → String → Task (ℕ × ℕ)
d1_read_counts env run_id =
    call env λ db. transaction db λ t. read_counts t (find_where (has_run_id run_id) t.runs)

unfoldable pub d1_increment_parallel_completed : Env → String → Task (ℕ × ℕ)
unfolding d1_bump d1_read_counts
d1_increment_parallel_completed env run_id = d1_bump env run_id >> d1_read_counts env run_id
