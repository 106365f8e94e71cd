-- ===== src/Cron.antt =====
-- src/cron.rs: when a source with a schedule fires, and what it stores.
use qhook.Prelude.{
  ℕ, ◌+◌, ◌-◌, ◌/◌, Bool, true, false, not, ◌&&◌, Option, none, some, String, List, [], ◌∷◌, leb,
  nat_beq, if◌then◌else◌,
}
use qhook.Prelude.Classes.{◌==◌, string_eq}
use qhook.Json.{text, object, no_entries, set_field}
use qhook.Config.{HandlerConfig, Config}
use qhook.Db.{Event}
use qhook.Db.Events.{insert_event, insert_job}
use qhook.Metrics.{inc_events_received_for, inc_jobs_created}
use qhook.Workflow.Engine.{Env, Task, pure, ◌>>=◌, ◌>>◌, call, tally, draw, attempt}
use qhook.Api.Ingest.{passes, retry_max, matching_handlers, matching_workflows, start_workflows}
pub mod Fired
pub mod Minutes

-- How a time is written, and the event of a tick.
abbrev pub TimeFormat : Type 0
TimeFormat = ℕ → String

abbrev pub payload_of : Env → TimeFormat → String → String
payload_of env format source = env.serde.to_string (
    object
      (set_field "fired_at" (text (format env.now)) (set_field "source" (text source) no_entries)))

abbrev pub tick : Env → String → String → String → Event
tick env event_id source payload = record {
  id = event_id;
  source = source;
  event_type = "cron.tick";
  payload = payload;
  headers = none;
  unique_key = none;
  created_at = env.now;
}

abbrev job_if : Env → String → Bool → String × String × ℕ → Task (Unit {0}) → Task (Unit {0})
job_if env event_id false target next = next
job_if env event_id true (handler, url, max) next = do
  id ← draw env
  call env (insert_job id event_id handler url max env.now)
  tally inc_jobs_created
  next

-- The jobs of the handlers, one insert after the other.
unfoldable pub fire_jobs : Env → String → String → List (String × HandlerConfig) → Task (Unit {0})
fire_jobs env event_id payload [] = pure tt
fire_jobs env event_id payload ((name, h) ∷ hs) =
    job_if env event_id (passes env payload h.filter)
      (name, h.url, retry_max env.default_retry_max h.retry) (fire_jobs env event_id payload hs)

-- What follows the insert of the event.
unfoldable pub after_tick : Env → Config → String → String → String → Bool → Task (Unit {0})
unfolding fire_jobs
after_tick env config event_id source payload false = pure tt
after_tick env config event_id source payload true = do
  tally (inc_events_received_for source)
  fire_jobs env event_id payload (matching_handlers config source "cron.tick")
  start_workflows env (matching_workflows config source "cron.tick") event_id payload

unfoldable pub fire_cron_event : Env → Config → TimeFormat → String → Task (Unit {0})
unfolding after_tick
fire_cron_event env config format source = do
  event_id ← draw env
  created ← call env (insert_event (tick env event_id source (payload_of env format source)))
  after_tick env config event_id source (payload_of env format source) created

-- `find_next_occurrence` of a schedule: the first time behind a given one.
abbrev pub Schedule : Type 0
Schedule = ℕ → Option ℕ

-- The time with its seconds cut off, counted in minutes.
abbrev pub minute : ℕ → ℕ
minute t = t / 60000

abbrev since : ℕ → Option ℕ → ℕ
since now none = now - 1000
since now (some last) = last

abbrev same_minute : ℕ → Option ℕ → Bool
same_minute now none = false
same_minute now (some last) = nat_beq (minute last) (minute now)

abbrev occurred : ℕ → Option ℕ → Bool
occurred now none = false
occurred now (some at) = leb at now

-- Whether a source that last fired at a time fires now.
unfoldable pub is_due : Schedule → ℕ → Option ℕ → Bool
is_due next now last = occurred now (next (since now last)) && not (same_minute now last)

-- `last_fired`
abbrev pub LastFired : Type 0
LastFired = String → Option ℕ

unfoldable pub insert_fired : String → ℕ → LastFired → LastFired
insert_fired name now last n = if n == name then some now else last n

-- One source and those behind it, when the loop wakes; an error of a tick is only logged.
abbrev fire_if :
    Env
    → Config
    → TimeFormat
    → String
    → (LastFired → Task LastFired)
    → LastFired
    → Bool
    → Task LastFired
fire_if env config format name next last false = next last
fire_if env config format name next last true =
    attempt (fire_cron_event env config format name) >> next (insert_fired name env.now last)

unfoldable pub fire_sources :
    Env → Config → TimeFormat → List (String × Schedule) → LastFired → Task LastFired
unfolding is_due insert_fired fire_cron_event
fire_sources env config format [] last = pure last
fire_sources env config format ((name, next) ∷ sources) last =
    fire_if env config format name (fire_sources env config format sources) last
      (is_due next env.now (last name))

-- The times at which one source fires, of those at which the loop wakes.
unfoldable pub firings : Schedule → List ℕ → Option ℕ → List ℕ
unfolding is_due
firings next [] last = []
firings next (now ∷ wakes) last =
    let later = firings next wakes (some now) in
    let rest = firings next wakes last in if is_due next now last then now ∷ later else rest
