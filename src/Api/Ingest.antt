-- ===== src/Api/Ingest.antt =====
-- src/api.rs, `process_event`: an event is stored with its jobs, and starts workflows.
pub mod Kept
pub mod Collected
pub mod Stored
use Prim.Native.String.{◌++◌ as ◌++ᵗ◌}
use qhook.Prelude.{
  ℕ, suc, ◌+◌, Bool, true, false, not, ◌&&◌, ◌||◌, Option, none, some, String, List, [], ◌∷◌, ◌++◌,
  length, starts_with, if◌then◌else◌,
}
use qhook.Prelude.Classes.{◌==◌, string_eq}
use qhook.Text.{strip_suffix}
use qhook.Json.{Value, text, object, Entries, no_entries, set_field, Serde}
use qhook.Json.Path.{extract_json_path_value}
use qhook.Sql.{exists_where}
use qhook.Config.{SourceConfig, RetryConfig, HandlerConfig, QueueConfig, Config}
use qhook.Db.{Event}
use qhook.Db.Events.{JobSpec, insert_event_and_jobs, insert_job}
use qhook.Db.Endpoints.{Outbound, SubscribedEndpoint, find_subscribed_endpoints}
use qhook.Metrics.{inc_events_received_for, inc_events_duplicated, inc_jobs_created}
use qhook.Api.Filter.{evaluate_filter}
use qhook.Workflow.{WorkflowConfig}
use qhook.Workflow.Engine.{
  Env, Engine, Task, pure, ◌>>=◌, ◌>>◌, call, read, tally, draw, succeeds, matched,
}
use qhook.Workflow.Advance.{nat_or}
use qhook.Workflow.Start.{start_workflow}

abbrev matches_prefix : String → String → Option String → Bool
matches_prefix pattern event_type none = pattern == event_type
matches_prefix pattern event_type (some prefix) = starts_with event_type prefix

unfoldable pub event_matches : String → String → Bool
unfolding strip_suffix
event_matches pattern event_type =
    if pattern == "*" then true else matches_prefix pattern event_type (strip_suffix ".*" pattern)

-- `h.source == source && (h.events.is_empty() || h.events.iter().any(..))`
unfoldable pub selects : String → String → String → List String → Bool
unfolding event_matches
selects source event_type own [] = own == source
selects source event_type own (e ∷ es) =
    own == source && exists_where (λ pattern. event_matches pattern event_type) (e ∷ es)

-- The entries of a map that select an event, by its source and its types.
unfoldable pub matching :
    {A : Type 0}
    → (A → String)
    → (A → List String)
    → String
    → String
    → List (String × A)
    → List (String × A)
unfolding selects
matching own events source event_type [] = []
matching own events source event_type ((name, c) ∷ cs) =
    let rest = matching own events source event_type cs in
    if selects source event_type (own c) (events c) then (name, c) ∷ rest else rest

abbrev pub matching_handlers : Config → String → String → List (String × HandlerConfig)
matching_handlers config source event_type =
    matching (λ h. h.source) (λ h. h.events) source event_type config.handlers

abbrev pub matching_workflows : Config → String → String → List (String × WorkflowConfig)
matching_workflows config source event_type =
    matching (λ w. w.source) (λ w. w.events) source event_type config.workflows

abbrev pub matching_queues : Config → String → String → List (String × QueueConfig)
matching_queues config source event_type =
    matching (λ q. q.source) (λ q. q.events) source event_type config.queues

-- `sources.get(source).is_some_and(|s| s.source_type == "outbound")`
unfoldable pub is_outbound : String → List (String × SourceConfig) → Bool
is_outbound source [] = false
is_outbound source ((name, s) ∷ ss) =
    if name == source then s.source_type == "outbound" else is_outbound source ss

abbrev text_of : Option Value → Option String
text_of (some (text s)) = some s
text_of _ = none

unfoldable pub extract_json_path : Serde → String → String → Option String
unfolding extract_json_path_value
extract_json_path serde payload path = text_of (extract_json_path_value serde payload path)

abbrev handler_key : List (String × HandlerConfig) → Option String
handler_key [] = none
handler_key ((name, h) ∷ hs) = h.idempotency_key

abbrev queue_key : List (String × QueueConfig) → Option String
queue_key [] = none
queue_key ((name, q) ∷ qs) = q.idempotency_key

abbrev key_path : Option String → Option String → Option String
key_path none path = path
key_path (some path) other = some path

abbrev key_at : Serde → String → Option String → Option String
key_at serde payload none = none
key_at serde payload (some path) = extract_json_path serde payload path

-- The path of the first handler, or else of the first queue.
unfoldable pub unique_key :
    Serde → String → List (String × HandlerConfig) → List (String × QueueConfig) → Option String
unfolding extract_json_path
unique_key serde payload hs qs = key_at serde payload (key_path (handler_key hs) (queue_key qs))

-- A header is its name, in lower case, and its value, if that is a text.
abbrev pub Headers : Type 0
Headers = List (String × Option String)

abbrev keep_header : String → Option String → Entries → Entries
keep_header name none fs = fs
keep_header name (some v) fs =
    if starts_with name "ce-" || name == "content-type" then set_field name (text v) fs else fs

unfoldable pub kept_headers : Headers → Entries → Entries
kept_headers [] fs = fs
kept_headers ((name, v) ∷ hs) fs = kept_headers hs (keep_header name v fs)

unfoldable pub serialize_headers : Serde → Headers → String
unfolding kept_headers
serialize_headers serde headers = serde.to_string (object (kept_headers headers no_entries))

-- An event that the filter lets through, if there is one.
abbrev pub passes : Env → String → Option String → Bool
passes env payload none = true
passes env payload (some filter) = evaluate_filter env.serde env.matchers payload filter

abbrev pub retry_max : ℕ → Option RetryConfig → ℕ
retry_max n none = n
retry_max n (some r) = r.max

-- One more job with a new id, unless the event is filtered out.
abbrev pub collect :
    Env
    → Bool
    → String × String × ℕ
    → (List JobSpec → Task (List JobSpec))
    → List JobSpec
    → Task (List JobSpec)
collect env false target next jobs = next jobs
collect env true (handler, url, max) next jobs = do
  id ← draw env
  next (jobs ++ (id, handler, url, max) ∷ [])

unfoldable pub handler_jobs :
    Env → String → List (String × HandlerConfig) → List JobSpec → Task (List JobSpec)
handler_jobs env payload [] jobs = pure jobs
handler_jobs env payload ((name, h) ∷ hs) jobs =
    collect env (passes env payload h.filter) (name, h.url, retry_max env.default_retry_max h.retry)
      (handler_jobs env payload hs) jobs

unfoldable pub queue_jobs :
    Env → String → List (String × QueueConfig) → List JobSpec → Task (List JobSpec)
queue_jobs env payload [] jobs = pure jobs
queue_jobs env payload ((name, q) ∷ qs) jobs =
    collect env (passes env payload q.filter)
      ("queue/" ++ᵗ name, "_pull", nat_or env.default_retry_max q.max_attempts)
      (queue_jobs env payload qs) jobs

-- One count for each job.
unfoldable pub count_created : List JobSpec → Task (Unit {0})
count_created [] = pure tt
count_created (j ∷ js) = tally inc_jobs_created >> count_created js

abbrev pub count_if : Bool → Task (Unit {0})
count_if false = pure tt
count_if true = tally inc_jobs_created

-- The jobs of the endpoints, one at a time; one that fails is left out.
unfoldable pub outbound_jobs : Env → String → List SubscribedEndpoint → ℕ → Task ℕ
outbound_jobs env event_id [] n = pure n
outbound_jobs env event_id (ep ∷ eps) n = do
  id ← draw env
  created ← succeeds (
      call env
        (insert_job id event_id ("outbound/" ++ᵗ ep.id) ep.url env.default_retry_max env.now))
  count_if created
  outbound_jobs env event_id eps (if created then n + 1 else n)

unfoldable pub create_outbound : Env → Outbound → Bool → String → String → String → ℕ → Task ℕ
unfolding outbound_jobs
create_outbound env outbound false event_id source event_type n = pure n
create_outbound env outbound true event_id source event_type n =
    matched (read env (λ db. find_subscribed_endpoints source event_type outbound)) (pure n)
      λ eps. outbound_jobs env event_id eps n

unfoldable pub start_workflows :
    Env → List (String × WorkflowConfig) → String → String → Task (Unit {0})
start_workflows env [] event_id payload = pure tt
start_workflows env ((name, w) ∷ ws) event_id payload =
    start_workflow env name w event_id payload >> start_workflows env ws event_id payload

pub record EventResult : Type 0 where
  pub event_id : String
  pub created : Bool
  pub jobs_created : ℕ

-- What follows the insert of the event.
unfoldable pub after_insert :
    Env
    → Config
    → Outbound
    → String
    → String
    → String
    → String
    → List JobSpec
    → Bool
    → Task EventResult
unfolding count_created create_outbound start_workflows
after_insert env config outbound event_id source event_type payload jobs false = do
  tally inc_events_duplicated
  pure (record { event_id = event_id; created = false; jobs_created = 0 })
after_insert env config outbound event_id source event_type payload jobs true = do
  count_created jobs
  n ←
      create_outbound env outbound (is_outbound source config.sources) event_id source event_type
        (length jobs)
  start_workflows env (matching_workflows config source event_type) event_id payload
  pure (record { event_id = event_id; created = true; jobs_created = n })

abbrev is_empty : {A : Type 0} → List A → Bool
is_empty [] = true
is_empty (a ∷ as') = false

-- No handler, workflow, queue or endpoint is asked.
unfoldable pub is_unwanted : Config → String → String → Bool
unfolding matching is_outbound
is_unwanted config source event_type =
    not (is_outbound source config.sources)
    && is_empty (matching_handlers config source event_type)
    && is_empty (matching_workflows config source event_type)
    && is_empty (matching_queues config source event_type)

-- The row of the event.
abbrev pub event_of : Env → Config → String → String → String → String → Headers → Event
event_of env config event_id source event_type payload headers = record {
  id = event_id;
  source = source;
  event_type = event_type;
  payload = payload;
  headers = some (serialize_headers env.serde headers);
  unique_key =
      unique_key env.serde payload (matching_handlers config source event_type)
        (matching_queues config source event_type);
  created_at = env.now;
}

unfoldable pub store_event :
    Env → Config → Outbound → String → String → String → String → Headers → Task EventResult
unfolding handler_jobs queue_jobs after_insert
store_event env config outbound event_id source event_type payload headers = do
  of_handlers ← handler_jobs env payload (matching_handlers config source event_type) []
  jobs ← queue_jobs env payload (matching_queues config source event_type) of_handlers
  created ←
      call env (
        insert_event_and_jobs (event_of env config event_id source event_type payload headers) jobs)
  tally (inc_events_received_for source)
  after_insert env config outbound event_id source event_type payload jobs created

-- An event that nothing asks for is not stored, and counts as created.
unfoldable pub process_event :
    Env → Config → Outbound → String → String → String → Headers → Task EventResult
unfolding is_unwanted store_event
process_event env config outbound source event_type payload headers = do
  event_id ← draw env
  (if is_unwanted config source event_type
      then pure (record { event_id = event_id; created = true; jobs_created = 0 })
      else store_event env config outbound event_id source event_type payload headers)
