-- ===== src/Worker/Deliver.antt =====
-- src/queue.rs, `deliver_job` for a job that is no step of a workflow, with the task that
-- `Worker::run` spawns for it. The delivery itself is HTTP: what came of it is an argument.
use qhook.Prelude.{
  ℕ, ◌+◌, Bool, true, false, ◌&&◌, Option, none, some, String, List, [], ◌∷◌, ◌++◌, leb, ltb,
  if◌then◌else◌,
}
use qhook.Db.{Job, Attempt, Database, Result, ok, err}
use qhook.Db.Jobs.{insert_attempt, mark_job_completed, mark_job_retryable}
use qhook.Metrics
use qhook.Metrics.{Metrics}
use qhook.Worker.Circuit.{CircuitBreaker, allow_request, record_success, record_failure}
use qhook.Worker.Failure.{handle_failure}

-- The events of src/alert.rs. A delivery sends the first two.
pub data AlertEvent : Type 0 where
  dlq : String → String → ℕ → AlertEvent
  circuit_opened : String → AlertEvent
  verification_failure : String → AlertEvent
  custom : String → AlertEvent
  workflow_failed : String → String → AlertEvent
  db_unhealthy : AlertEvent
  event_ttl_expired : ℕ → AlertEvent

-- What a task shares with the others: the tables, the breaker of the handler, the counters, and
-- the alerts that were sent, in order. `alerting` says whether alerts are configured.
pub record World : Type 0 where
  pub db : Database
  pub breaker : Option CircuitBreaker
  pub metrics : Metrics
  pub alerting : Bool
  pub alerts : List AlertEvent

-- An HTTP response with its status and its `Retry-After`, or an error with its text.
pub data Outcome : Type 0 where
  responded : ℕ → Option ℕ → Outcome
  timed_out : String → Outcome
  unreachable : String → Outcome

-- Which calls of the database fail, with no effect.
pub record Faults : Type 0 where
  pub attempt : Bool
  pub completed : Bool
  pub failure : Bool
  pub put_off : Bool

-- What a call draws or measures: the time, the duration, the ULID, the random factor, the text of
-- the error for a status, and the body of the response, if there is one.
pub record Draws : Type 0 where
  pub now : ℕ
  pub duration_ms : ℕ
  pub attempt_id : String
  pub jitter : ℕ → ℕ
  pub http_error : ℕ → String
  pub response_body : Option String

abbrev pub count : (Metrics → Metrics) → World → World
count f w = record w { metrics = f w.metrics }

unfoldable pub send : AlertEvent → World → World
send e w = if w.alerting then record w { alerts = w.alerts ++ e ∷ [] } else w

abbrev body_of : Option ℕ → Option String → Option String
body_of none body = none
body_of (some status) body = body

abbrev pub attempt_row : Draws → Job → Option ℕ → Option String → Attempt
attempt_row d job status error = record {
  id = d.attempt_id;
  job_id = job.id;
  attempt = job.attempt + 1;
  status_code = status;
  response_body = body_of status d.response_body;
  error = error;
  duration_ms = d.duration_ms;
  created_at = d.now;
}

unfoldable pub record_attempt : Bool → Attempt → World → World
record_attempt fault a w = if fault then w else record w { db = (insert_attempt a w.db).0 }

-- Whether the insert of an attempt fails, by a fault or because its id is taken.
abbrev pub is_err : Result (Unit {0}) → Bool
is_err (ok _) = false
is_err (err _) = true

unfoldable pub attempt_refused : Bool → Attempt → World → Bool
attempt_refused fault a w = if fault then true else is_err (insert_attempt a w.db).1

abbrev pub breaker_success : Option CircuitBreaker → Option CircuitBreaker
breaker_success none = none
breaker_success (some c) = some (record_success c)

-- The breaker after a failure, and whether it opened.
abbrev pub breaker_failure : ℕ → Option CircuitBreaker → Option CircuitBreaker × Bool
breaker_failure now none = (none, false)
breaker_failure now (some c) = let (c', opened) = record_failure now c in (some c', opened)

unfoldable pub trip : Draws → Job → World → World
unfolding send
trip d job w =
    let (breaker, opened) = breaker_failure d.now w.breaker in
    let w' = record w { breaker = breaker } in
    if opened
    then send (circuit_opened job.handler) (count (Metrics.inc_circuit_opened job.handler) w')
    else w'

-- `handle_failure`, and whether the job was given up.
unfoldable pub fail_job : Bool → Draws → Job → String → Option ℕ → World → World × Bool
fail_job fault d job error retry_after w =
    if fault
    then (w, false)
    else (let (db, gone) = handle_failure d.now d.jitter job error retry_after w.db in
        (record w { db = db }, gone))

unfoldable pub on_success : Faults → Draws → Job → World → World
on_success f d job w =
    let w' = count (Metrics.inc_delivery_success_for job.handler d.duration_ms) w in
    let w'' = record w' { breaker = breaker_success w'.breaker } in
    if f.completed
    then count Metrics.inc_db_errors w''
    else record w'' { db = mark_job_completed d.now job.id w''.db }

unfoldable pub error_class : ℕ → String
error_class status = if leb 400 status && ltb status 500 then "4xx" else "5xx"

-- A response that is no success: the job that is given up is counted and reported.
unfoldable pub on_http_failure : Faults → Draws → Job → ℕ → Option ℕ → World → World
unfolding trip fail_job send error_class
on_http_failure f d job status retry_after w =
    let w' =
      count (Metrics.inc_delivery_error_type (error_class status))
        (count (Metrics.inc_delivery_failure_for job.handler d.duration_ms) w) in
    let (w'', gone) = fail_job f.failure d job (d.http_error status) retry_after (trip d job w') in
    if gone
    then send (dlq job.id job.handler (job.attempt + 1)) (count (Metrics.inc_dlq job.handler) w'')
    else w''

-- An error of the transport: the job that is given up is counted.
unfoldable pub on_error : Faults → Draws → Job → String → String → World → World
unfolding trip fail_job record_attempt
on_error f d job kind error w =
    let w' =
      count (Metrics.inc_delivery_error_type kind)
        (count (Metrics.inc_delivery_failure_for job.handler d.duration_ms) w) in
    let w'' = record_attempt f.attempt (attempt_row d job none (some error)) w' in
    let (w''', gone) = fail_job f.failure d job error none (trip d job w'') in
    if gone then count (Metrics.inc_dlq job.handler) w''' else w'''

unfoldable pub on_response : Faults → Draws → Job → ℕ → Option ℕ → World → World
unfolding on_success on_http_failure record_attempt
on_response f d job status retry_after w =
    let a = attempt_row d job (some status) none in
    if attempt_refused f.attempt a w
    then count Metrics.inc_db_errors w
    else (let w' = record_attempt false a w in
        if leb 200 status && ltb status 300
        then on_success f d job w'
        else on_http_failure f d job status retry_after w')

-- For a job of which `is_workflow` is false; Workflow/Deliver has the rest of the function.
unfoldable pub deliver_job : Faults → Draws → Job → Outcome → World → World
unfolding on_response on_error
deliver_job f d job (responded status retry_after) w = on_response f d job status retry_after w
deliver_job f d job (timed_out error) w = on_error f d job "timeout" error w
deliver_job f d job (unreachable error) w = on_error f d job "network" error w

-- The breaker after the check of the task, and whether the delivery goes on.
abbrev pub admit : ℕ → Option CircuitBreaker → Option CircuitBreaker × Bool
admit now none = (none, true)
admit now (some c) = let (c', allowed) = allow_request now c in (some c', allowed)

-- `let _ = db.mark_job_retryable(..)`: a failure of the call is ignored.
unfoldable pub put_off : Bool → ℕ → Job → World → World
put_off fault now job w =
    if fault
    then w
    else record w { db = mark_job_retryable job.id (now + 10000) "circuit breaker open" w.db }

-- The task: a job whose circuit is open is put off by ten seconds; else it is delivered.
unfoldable pub run_task : Faults → Draws → Job → Outcome → World → World
unfolding deliver_job put_off
run_task f d job outcome w =
    let (breaker, allowed) = admit d.now w.breaker in
    let w' = record w { breaker = breaker } in
    if allowed
    then deliver_job f d job outcome w'
    else count (Metrics.inc_circuit_rejected job.handler) (put_off f.put_off d.now job w')
