-- ===== src/Db/Steps.antt =====
-- src/db.rs: the statements on the jobs of a workflow: steps, branches and callbacks.
use qhook.Prelude.{
  ℕ, Bool, true, false, ◌&&◌, Option, none, some, String, List, if◌then◌else◌, leb, ltb,
}
use qhook.Prelude.Classes.{◌==◌, string_eq}
use qhook.Sql.{find_where, exists_where}
use qhook.Db.{
  waiting, Job, Run, RunStatus, run_running, Database, row_not_found, Result, ok, err, ◌>>=◌,
  transaction, has_status, is_value,
}
use qhook.Db.Events.{insert_job_row, new_job}
use qhook.Db.Jobs.{complete, kill, has_id, update_jobs}

-- What the inserts of workflow jobs share.
pub record StepSpec : Type 0 where
  pub id : String
  pub event_id : String
  pub handler : String
  pub url : String
  pub max_attempts : ℕ
  pub workflow_run_id : String
  pub step_name : String
  pub step_index : ℕ
  pub step_input : Option String

abbrev pub step_job : StepSpec → ℕ → Job
step_job s now =
    let j = new_job s.id s.event_id s.handler s.url s.max_attempts now in
    record j {
      workflow_run_id = some s.workflow_run_id;
      step_name = some s.step_name;
      step_index = some s.step_index;
      step_input = s.step_input;
    }

unfoldable pub insert_row : Job → Database → Database × Result (Unit {0})
insert_row j db =
    transaction db λ t. do jobs ← insert_job_row j t.jobs; ok (record t { jobs = jobs }, tt)

unfoldable pub insert_workflow_job : StepSpec → ℕ → Database → Database × Result (Unit {0})
unfolding insert_row
insert_workflow_job s now = insert_row (step_job s now)

unfoldable pub insert_branch_job : StepSpec → String → ℕ → Database → Database × Result (Unit {0})
unfolding insert_row
insert_branch_job s branch now = insert_row (record (step_job s now) { branch_name = some branch })

unfoldable pub insert_workflow_job_delayed :
    StepSpec → ℕ → ℕ → Database → Database × Result (Unit {0})
unfolding insert_row
insert_workflow_job_delayed s at now = insert_row (record (step_job s now) { scheduled_at = at })

-- 9999-12-31T23:59:59.999 as a time: a parameter of the origin, later than any `now`.
abbrev pub callback_job : StepSpec → String → ℕ → ℕ → Job
callback_job s token far_future now = record (step_job s now) {
  url = "callback";
  status = waiting;
  scheduled_at = far_future;
  callback_token = some token;
}

unfoldable pub insert_callback_job :
    StepSpec → String → ℕ → ℕ → Database → Database × Result (Unit {0})
unfolding insert_row
insert_callback_job s token far_future now = insert_row (callback_job s token far_future now)

unfoldable pub save_step_output : String → String → Database → Database
save_step_output id output db =
    (update_jobs (has_id id) (λ j. record j { step_output = some output }) db).0

unfoldable pub get_workflow_job_data : String → Database → Option Job
get_workflow_job_data id db = find_where (has_id id) db.jobs

-- callback_token = $3
unfoldable pub has_token : String → Job → Bool
has_token token j = is_value token j.callback_token

unfoldable pub is_awaiting : String → Job → Bool
unfolding has_token
is_awaiting token j = has_token token j && has_status waiting j.status

abbrev pub resume : ℕ → String → Job → Job
resume now payload j = record (complete now j) { step_output = some payload }

unfoldable pub get_callback_job : String → Database → Option Job
get_callback_job token db = find_where (has_token token) db.jobs

unfoldable pub resume_callback_job :
    ℕ → String → String → Database → Database × Result (Option String)
resume_callback_job now token payload db =
    let (db', n) = update_jobs (is_awaiting token) (resume now payload) db in
    if ltb 0 n
    then (elim (get_callback_job token db') [
      | none ↦ (db', err row_not_found)
      | some j ↦ (db', ok (some j.id))
    ])
    else (db', ok none)

abbrev pub is_active : RunStatus → Bool
is_active run_running = true
is_active _ = false

-- timeout_at IS NOT NULL AND timeout_at <= now
abbrev pub is_past : ℕ → Option ℕ → Bool
is_past now none = false
is_past now (some t) = leb t now

unfoldable pub is_timed_out : ℕ → Run → Bool
is_timed_out now r = is_past now r.timeout_at && is_active r.status

abbrev pub is_set : Option String → Bool
is_set none = false
is_set (some _) = true

-- workflow_run_id IN (the runs that have timed out)
abbrev pub in_timed_out : ℕ → List Run → Option String → Bool
in_timed_out now runs none = false
in_timed_out now runs (some id) = exists_where (λ r. r.id == id && is_timed_out now r) runs

unfoldable pub is_lapsed : ℕ → List Run → Job → Bool
is_lapsed now runs j =
    has_status waiting j.status
    && is_set j.callback_token
    && in_timed_out now runs j.workflow_run_id

unfoldable pub expire_timed_out_callbacks : ℕ → Database → Database × ℕ
expire_timed_out_callbacks now db =
    update_jobs (is_lapsed now db.runs) (kill now "callback timeout") db
