-- ===== src/Tests.antt =====
-- Tables and shared states on which the tests of the children run.
use qhook.Prelude.{◌≡◌, refl, All, ℕ, Bool, false, true, Option, none, some, String, List, [], ◌∷◌}
use qhook.Db.{
  Driver, postgres, Job, JobStatus, available, running, dead, waiting, completed, Event, Attempt,
  Run, run_running, Database,
}
use qhook.Db.Invariant.Rows.{IsValid, JobIsValid, is_some}
use qhook.Metrics
use qhook.Worker.Circuit.{CircuitBreaker}
use qhook.Worker.Deliver.{World, Faults, Draws}
pub mod Storage
pub mod Queues
pub mod Delivery
pub mod Service
pub mod Loop
pub mod Flow
pub mod Route
pub mod Template
pub mod Start
pub mod Ingest
pub mod Config
pub mod Stranded
pub mod Http
pub mod Verify
pub mod D1
pub mod Cron

-- A job of the handler "billing" with the given id, status and attempts out of three.
abbrev pub job_of : String → JobStatus → ℕ → Job
job_of id status attempt = record {
  id = id;
  event_id = "e1";
  handler = "billing";
  url = "https://billing.example.com";
  status = status;
  attempt = attempt;
  max_attempts = 3;
  scheduled_at = 0;
  started_at = some 0;
  completed_at = some 0;
  created_at = 0;
  last_error = none;
  workflow_run_id = none;
  step_name = none;
  step_index = none;
  step_input = none;
  step_output = none;
  branch_name = none;
  callback_token = some id;
}

-- A message of the pull-mode queue "queue/mail".
abbrev pub mail_of : String → JobStatus → Job
mail_of id status = record (job_of id status 0) { handler = "queue/mail"; url = "queue://mail" }

abbrev pub order : Event
order = record {
  id = "e1";
  source = "shop";
  event_type = "order.created";
  payload = "{}";
  headers = none;
  unique_key = some "k1";
  created_at = 5;
}

abbrev pub flow : Run
flow = record {
  id = "r1";
  workflow = "checkout";
  event_id = "e1";
  status = run_running;
  current_step = none;
  created_at = 0;
  completed_at = none;
  parallel_step = none;
  parallel_count = 0;
  parallel_completed = 0;
  timeout_at = none;
  parent_run_id = none;
  parent_step_index = none;
}

-- A job in each of the states, two messages of a queue, and a run.
abbrev pub tables : Database
tables = record {
  driver = postgres;
  events = [];
  jobs =
      job_of "j1" available 0
      ∷ job_of "j2" running 1
      ∷ job_of "j3" dead 3
      ∷ job_of "j4" waiting 0
      ∷ job_of "j5" completed 1
      ∷ mail_of "m1" running
      ∷ mail_of "m2" available
      ∷ [];
  attempts = [];
  runs = flow ∷ [];
}

-- A circuit that opened at 0 after three failures and cools for a second.
abbrev pub open_circuit : CircuitBreaker
open_circuit = record {
  failures = 3;
  threshold = 3;
  opened_at = some 0;
  cooldown = 1000;
  half_open_in_progress = false;
}

abbrev pub world_of : Option CircuitBreaker → World
world_of breaker = record {
  db = tables;
  breaker = breaker;
  metrics = Metrics.new;
  alerting = true;
  alerts = [];
}

abbrev pub sound : Faults
sound = record { attempt = false; completed = false; failure = false; put_off = false }

abbrev pub draws_at : ℕ → Draws
draws_at now = record {
  now = now;
  duration_ms = 20;
  attempt_id = "a1";
  jitter = λ n. n;
  http_error = λ s. "HTTP error";
  response_body = some "ok";
}

row-IsValid :
    (j : Job)
    → is_some j.started_at ≡ true
    → is_some j.completed_at ≡ true
    → is_some j.callback_token ≡ true
    → JobIsValid j
row-IsValid j s c t = record { finished = λ h. c; started = λ h. s; tokened = λ h. t }

All-IsValid :
    (rows : List Job)
    → All
        (λ j.
          (is_some j.started_at ≡ true)
          × (is_some j.completed_at ≡ true)
          × (is_some j.callback_token ≡ true))
        rows
    → All JobIsValid rows
All-IsValid [] h = tt
All-IsValid (j ∷ rows) ((s, c, t), h) = (row-IsValid j s c t, All-IsValid rows h)

pub tables-IsValid : IsValid tables
tables-IsValid = record {
  rows = All-IsValid tables.jobs (
    (refl, refl, refl),
    (
      (refl, refl, refl),
      (
        (refl, refl, refl),
        ((refl, refl, refl), ((refl, refl, refl), ((refl, refl, refl), ((refl, refl, refl), tt)))),
      ),
    ),
  );
  ids = (refl, (refl, (refl, (refl, (refl, (refl, (refl, tt)))))));
}
