-- ===== src/Workflow/Deliver.antt =====
-- src/queue.rs: the delivery of a workflow's step, `deliver_workflow_step` and the part of
-- `deliver_job` on jobs of workflows that are delivered.
use Prim.Native.String.{◌++◌ as ◌++ᵗ◌}
use qhook.Prelude.{
  ℕ, ◌+◌, ◌&&◌, Option, none, some, String, List, [], ◌∷◌, ◌++◌, leb, ltb, if◌then◌else◌,
}
use qhook.Prelude.Classes.{◌==◌, string_eq}
use qhook.Db.{Job, Attempt}
use qhook.Db.Jobs.{insert_attempt, mark_job_completed}
use qhook.Db.Steps.{get_workflow_job_data}
use qhook.Metrics.{
  inc_db_errors, inc_delivery_success_for, inc_delivery_failure_for, inc_delivery_error_type,
}
use qhook.Worker.Deliver.{breaker_success, error_class}
use qhook.Workflow.{StepConfig, BranchConfig}
use qhook.Workflow.Engine.{
  Env, Task, pure, ◌>>=◌, ◌>>◌, call, write, read, tally, draw, done, attempt, succeeds, ok_or_none,
  matched,
}
use qhook.Workflow.Advance.{text_or}
use qhook.Workflow.Success.{handle_workflow_step_success}
use qhook.Workflow.Failure.{handle_workflow_step_failure}
use qhook.Workflow.Dispatch.{step_of, before_delivery}

-- An HTTP request.
pub record Request : Type 0 where
  pub method : String
  pub url : String
  pub headers : List (String × String)
  pub body : Option String

-- A response with its status and its body, or an error with its text.
pub data Reply : Type 0 where
  answered : ℕ → Option String → Reply
  timed_out : String → Reply
  unreachable : String → Reply

-- The HTTP client, the first 16 bytes of a text's SHA-256 in hex, the texts of the errors of a
-- failed query and of a status, and the milliseconds that a delivery takes.
pub record Client : Type 0 where
  pub send : Request → Reply
  pub digest : String → String
  pub query_error : String
  pub http_error : ℕ → String
  pub duration_ms : ℕ

-- Any other method is sent as POST.
unfoldable pub reqwest_method : String → String
reqwest_method method =
    if method == "GET"
    then "GET"
    else (if method == "PUT"
        then "PUT"
        else (if method == "PATCH"
            then "PATCH"
            else (if method == "DELETE" then "DELETE" else "POST")))

abbrev job_headers : Client → Env → Job → List (String × String)
job_headers client env job =
    ("Content-Type", "application/json")
    ∷ ("X-Qhook-Job-ID", job.id)
    ∷ ("X-Qhook-Event-ID", job.event_id)
    ∷ ("X-Qhook-Handler", job.handler)
    ∷ ("X-Qhook-Attempt", env.decimal (job.attempt + 1))
    ∷ ("X-Qhook-Delivery-ID", client.digest (job.event_id ++ᵗ ":" ++ᵗ job.handler))
    ∷ []

-- A GET has no body.
unfoldable pub request_of : Client → Env → Job → List (String × String) → String → String → Request
unfolding reqwest_method
request_of client env job custom_headers method payload = record {
  method = reqwest_method method;
  url = job.url;
  headers = job_headers client env job ++ custom_headers;
  body = if reqwest_method method == "GET" then none else some payload;
}

abbrev input_of : Option Job → String
input_of none = "{}"
input_of (some row) = text_or "{}" row.step_input

-- A failed query counts as an error of the delivery.
unfoldable pub deliver_workflow_step :
    Client → Env → Job → List (String × String) → String → Task Reply
unfolding request_of
deliver_workflow_step client env job custom_headers method =
    matched (read env (get_workflow_job_data job.id)) (pure (unreachable client.query_error))
      λ row. pure (client.send (request_of client env job custom_headers method (input_of row)))

unfoldable pub find_branch : String → List BranchConfig → Option BranchConfig
find_branch name [] = none
find_branch name (b ∷ bs) = if b.name == name then some b else find_branch name bs

abbrev of_branch : Option BranchConfig → List (String × String) × String
of_branch none = ([], "POST")
of_branch (some b) = (b.headers, b.method)

abbrev of_branches : String → Option (List BranchConfig) → List (String × String) × String
of_branches name none = ([], "POST")
of_branches name (some bs) = of_branch (find_branch name bs)

abbrev of_step : Option String → Option StepConfig → List (String × String) × String
of_step branch none = ([], "POST")
of_step none (some step) = (step.headers, step.method)
of_step (some name) (some step) = of_branches name step.branches

abbrev branch_name_of : Option Job → Option String
branch_name_of none = none
branch_name_of (some row) = row.branch_name

-- The headers and the method: those of the branch for the job of a branch, else those of the step.
unfoldable pub delivery_config : Env → Job → Option Job → List (String × String) × String
unfolding find_branch
delivery_config env job row = of_step (branch_name_of row) (step_of env job)

abbrev step_attempt :
    Client → Env → Job → String → Option ℕ → Option String → Option String → Attempt
step_attempt client env job id status body error = record {
  id = id;
  job_id = job.id;
  attempt = job.attempt + 1;
  status_code = status;
  response_body = body;
  error = error;
  duration_ms = client.duration_ms;
  created_at = env.now;
}

-- `cb.record_success()`
unfoldable pub close_breaker : Task (Unit {0})
close_breaker s =
    let w = s.world in
    (record s { world = record w { breaker = breaker_success w.breaker } }, done tt)

unfoldable pub on_step_success : Client → Env → Job → Option String → Task (Unit {0})
unfolding close_breaker
on_step_success client env job body = do
  tally (inc_delivery_success_for job.handler client.duration_ms)
  close_breaker
  completed ← succeeds (write env (mark_job_completed env.now job.id))
  if completed then pure tt else tally inc_db_errors
  attempt (handle_workflow_step_success env job body)

unfoldable pub on_step_failure : Client → Env → Job → String → String → Task (Unit {0})
on_step_failure client env job error kind = do
  tally (inc_delivery_failure_for job.handler client.duration_ms)
  tally (inc_delivery_error_type kind)
  handle_workflow_step_failure env job error kind

-- An attempt that cannot be stored ends the delivery.
unfoldable pub on_answer : Client → Env → Job → ℕ → Option String → Task (Unit {0})
unfolding on_step_success on_step_failure
on_answer client env job status body = do
  id ← draw env
  recorded ←
      succeeds (call env (insert_attempt (step_attempt client env job id (some status) body none)))
  if recorded
      then (if leb 200 status && ltb status 300
          then on_step_success client env job body
          else on_step_failure client env job (client.http_error status) (error_class status))
      else tally inc_db_errors

unfoldable pub on_no_answer : Client → Env → Job → String → String → Task (Unit {0})
on_no_answer client env job error kind = do
  id ← draw env
  tally (inc_delivery_failure_for job.handler client.duration_ms)
  tally (inc_delivery_error_type kind)
  attempt (call env (insert_attempt (step_attempt client env job id none none (some error))))
  handle_workflow_step_failure env job error kind

abbrev pub on_reply : Client → Env → Job → Reply → Task (Unit {0})
on_reply client env job (answered status body) = on_answer client env job status body
on_reply client env job (timed_out error) = on_no_answer client env job error "timeout"
on_reply client env job (unreachable error) = on_no_answer client env job error "network"

-- `deliver_job` for a job of a workflow that is not handled locally.
unfoldable pub deliver_step : Client → Env → Job → Task (Unit {0})
unfolding delivery_config deliver_workflow_step on_answer on_no_answer
deliver_step client env job = do
  row ← ok_or_none (read env (get_workflow_job_data job.id))
  let (headers, method) = delivery_config env job row
  reply ← deliver_workflow_step client env job headers method
  on_reply client env job reply

-- `deliver_job` for a job of a workflow.
unfoldable pub deliver_workflow_job : Client → Env → Job → Task (Unit {0})
unfolding before_delivery deliver_step
deliver_workflow_job client env job = do
  handled ← before_delivery env job
  if handled then pure tt else deliver_step client env job
