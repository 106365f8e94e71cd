-- ===== src/Lib.antt =====
-- qhook: a webhook gateway and queue. A request becomes an event with its jobs, a worker delivers
-- the jobs over HTTP with retries, circuit breakers and alerts, and consumers pull the messages of
-- queues. This library models the storage, the delivery, the workflows, the counters, the rate
-- limiter, the signatures and the checks of the configuration.
--
-- The parts and where they are modelled:
--   src/db.rs       Db: the tables of migrations 1 to 3 as records (`Job`, `Event`, `Attempt`,
--                   `Run`, `Database`). Each SQL statement is a function on the tables, written
--                   with the clauses of Sql (UPDATE, SELECT, DELETE with WHERE, ORDER BY, LIMIT):
--                   Db/Events (inserts), Db/Jobs (the worker, maintenance and management),
--                   Db/Queue (pull-mode queues), Db/Runs and Db/Steps (workflows),
--                   Db/Endpoints (outbound endpoints and their subscriptions).
--   src/queue.rs    Worker/Circuit is `CircuitBreaker`; Worker/Failure is `handle_failure`;
--                   Worker/Deliver is `deliver_job` for a job outside of workflows, with the
--                   task that `Worker::run` spawns; Worker/Retry and Worker/Stuck follow one job
--                   through the turns of `Worker::run`; Worker/Poll is one poll of it,
--                   Worker/Health its count of failed polls, Worker/Maintenance is
--                   `run_maintenance` and Worker/Visibility `recover_expired_queue_messages`.
--                   Workflow is the engine of workflows: Workflow/Engine holds its state and its
--                   tasks, Workflow/Handler the names in a job's handler, Workflow/Advance the ends
--                   that the handlers share with `resume_parent_workflow`, Workflow/Success
--                   `handle_workflow_step_success` and `handle_branch_completion`,
--                   Workflow/Failure `handle_workflow_step_failure` and `route_to_catch_step`,
--                   Workflow/Fanout parallel and map steps, Workflow/Route choice, wait and
--                   sub-workflow steps, Workflow/Callback callback steps and `resume_callback`,
--                   Workflow/Dispatch and Workflow/Deliver the parts of `deliver_job` on jobs of
--                   workflows with `deliver_workflow_step`. Workflow/Sound, Workflow/Progress,
--                   Workflow/Fate, Workflow/Failed, Workflow/Forked, Workflow/Once,
--                   Workflow/Parents, Workflow/Choice, Workflow/Halted, Workflow/Stranded and
--                   Workflow/Started are theorems. They describe the rows that are left by
--                   Workflow/Rows, what a step hands on by Workflow/Output, and which errors a
--                   step retries or catches by Workflow/Rules, none of which uses the statements
--                   and tests of the model.
--                   Json/Merge is `merge_result_path`.
--   src/metrics.rs  Metrics (`Metrics` and its `inc_` functions), Metrics/Counter
--                   (`LabeledCounter`) and Metrics/Totals.
--   src/api.rs      Api/RateLimit is `IpRateLimiter`; Json/Path is `resolve_path`;
--                   Api/Filter is `evaluate_filter` and Api/Transform
--                   `apply_transform`, over Text; Workflow/Params is
--                   `validate_workflow_params` and Workflow/Start `start_workflow`;
--                   Api/Ingest is `process_event`, with the theorems in its children;
--                   Api/Http has `handle_webhook` and `handle_event`, with theorems in
--                   Api/Http/Admission and Api/Http/Events; Api/Http/Sns has `handle_sns` and
--                   `handle_callback`, with a theorem in Api/Http/Sns/Events.
--   src/verify.rs   Verify is `verify_signature` with every provider, with theorems in Verify/Tags and
--                   Verify/Fresh; Verify/Outbound is `sign_outbound_payload`; Verify/Sns has
--                   `is_valid_sns_url` and `build_sns_string_to_sign`; `verify_sns_message` is in
--                   Api/Http/Sns.
--   src/d1_db.rs    D1 has the inserts of events and jobs and the counter of branches, with
--                   theorems in D1/Partial, D1/Lost and D1/Join.
--   src/cron.rs     Cron is `fire_cron_event` and the part of `run` that says which sources fire;
--                   Cron/Fired and Cron/Minutes are theorems.
--   src/config.rs   Config and Workflow have the records; Config/Validate is `validate`, Config/Urls
--                   `validate_handler_url` and Config/Network `is_private_ipv4`; Config/Targets is
--                   a theorem on validated workflows.
-- Tests holds small tables, and runs of each part on them.
--
-- How they interact: a delivery claims a row of `jobs` through Db/Jobs, asks the circuit of the
-- handler, records the attempt and the outcome in the tables, counts in Metrics and sends alerts.
-- `World` of Worker/Deliver holds what these share. A function of the program keeps its name; a
-- `&self` that is changed is passed and returned, and a result that can fail is `Result`. The
-- workflow engine works on an `Engine`: a `World` with the number of ULIDs drawn and of calls of
-- the database made; `Env` holds the configuration and the libraries, and says which calls fail.
--
-- Conventions: a statement is one step, as the database serializes them, and several workers are
-- a sequence of such steps. A transaction is all or nothing. A time is a number of milliseconds
-- that the caller hands over, ULIDs and random factors are arguments, and so is what came of an
-- HTTP request. Counters wrap at 2^64 and the breaker's failures at 2^32 as the machine words do;
-- `max_attempts` is cut at 2^31 - 1 as `i32::try_from` does. Every loop recurs on the list that
-- the program iterates, so that no fuel is needed, but for `resume_parent_workflow`, which recurs
-- along the parents of a run: `depth` bounds it, and one more than there are runs is enough if
-- each run is stored behind its parent; and `evaluate_filter`, which recurs on what follows a `not`
-- and is bounded by the length of the filter, and `apply_transform`, whose rounds are bounded by an
-- argument since the loop need not end: the engine takes it as an argument, for templates on
-- which it returns. A wait, a timeout and a backoff are sums of milliseconds that stay in the range
-- of the time library, but for the times of signatures and of the cache of certificates, which are
-- in seconds; an index of a step stays below 2^31 - 1.
--
-- Not modelled: the handlers of src/api.rs for the management and the queues, and the layers around
-- its router, which read and write single rows by statements of Db; the notification of a callback's
-- `url`, whose outcome is only logged; the loading and merging of src/config.rs, which is the YAML
-- library's; the waits of src/cron.rs, which are the runtime's; the rest of the D1 backend
-- (src/d1.rs, src/d1_db.rs), which repeats the statements of src/db.rs over an HTTP API; the
-- formatting of alerts and metrics, which is text; src/cli.rs and src/main.rs, which only read input
-- and wire the parts.
pub mod Api
pub mod Config
pub mod Cron
pub mod D1
pub mod Db
pub mod Json
pub mod Metrics
pub mod Prelude
pub mod Sql
pub mod Tests
pub mod Text
pub mod Verify
pub mod Worker
pub mod Workflow
