-- ===== src/Cron/Fired.antt =====
-- src/cron.rs, `fire_cron_event`: what is left of a tick, whichever calls of the database fail.
use mathlib.Core.List.{append-nil, append_assoc}
use qhook.Prelude.{
  ℕ, suc, ◌≡◌, refl, sym, ◌∙◌, ap, ◌⊎◌, inl, inr, Bool, true, false, none, String, List, [], ◌∷◌,
  ◌++◌, map, arith, All, All-append, Bool-cases, if◌then◌else◌,
}
use qhook.Sql.{select_where, exists_where}
use qhook.Config.{HandlerConfig, Config}
use qhook.Db.{Job, Database, Event, Result, ok, err, transaction, ◌>>=◌ as ◌>>=ʳ◌}
use qhook.Db.Events.{JobSpec, insert_event, insert_event_row, insert_job_row}
use qhook.Db.Atomic.{spec_job, insert_job_row-eq-ok}
use qhook.Db.Runs.{has_run_id, insert_run, insert_workflow_run, set_workflow_timeout, update_run}
use qhook.Db.Steps.{StepSpec, step_job, is_set, insert_row, insert_workflow_job}
use qhook.Workflow.{WorkflowConfig}
use qhook.Workflow.Engine.{
  Env, Engine, Answer, failed, done, Task, ◌>>=◌, ◌>>◌, call, draw, tally, resume_with, stored,
}
use qhook.Workflow.Sound.{Keeps}
use qhook.Metrics.{inc_jobs_created}
use qhook.Api.Ingest.{passes, retry_max, matching_handlers, matching_workflows, start_workflows}
use qhook.Api.Ingest.Collected.{Target, handler_targets, numbered, map-if}
use qhook.Api.Ingest.Kept.{start_workflows-Keeps}
use qhook.D1.Partial.{ended, Prefix, then-Prefix, insert_job-Added}
use qhook.Cron.{TimeFormat, payload_of, tick, job_if, fire_jobs, after_tick, fire_cron_event}

-- The events are these, and behind these jobs stand only jobs that belong to a run of a workflow.
abbrev pub Followed : List Event → List Job → Database → Type 0
Followed events jobs db =
    (more : List Job) × (db.events ≡ events)
    × (db.jobs ≡ jobs ++ more)
    × All (λ j. is_set j.workflow_run_id ≡ true) more

module _ (events : List Event) (jobs : List Job) where
  run-Followed :
      (id workflow event_id step : String) (now : ℕ) (db : Database)
      → Followed events jobs db
      → Followed events jobs (insert_workflow_run id workflow event_id step now db).0
  unfolding insert_workflow_run insert_run
  run-Followed id workflow event_id step now db h =
      elim (Bool-cases (exists_where (has_run_id id) db.runs)) [
        | inl taken ↦ rw taken h
        | inr fresh ↦ rw fresh h
      ]

  timeout-Followed :
      (id : String) (at : ℕ) (db : Database)
      → Followed events jobs db
      → Followed events jobs (set_workflow_timeout id at db)
  unfolding set_workflow_timeout update_run
  timeout-Followed id at db h = h

  added-Followed :
      (j : Job) (db : Database) (r : Result (List Job))
      → insert_job_row j db.jobs ≡ r
      → is_set j.workflow_run_id ≡ true
      → Followed events jobs db
      → Followed events jobs
          (transaction {0} db λ t. r >>=ʳ λ rows. ok (record t { jobs = rows }, tt {0})).0
  added-Followed j db (err x) p w h = h
  added-Followed j db (ok rows) p w (more, e, h, all) = (
    more ++ j ∷ [],
    e,
    insert_job_row-eq-ok j db.jobs p ∙ rw h (append_assoc jobs more (j ∷ [])),
    All-append (λ k. is_set k.workflow_run_id ≡ true) more (j ∷ []) all (w, tt),
  )

  step-Followed :
      (s : StepSpec) (now : ℕ) (db : Database)
      → Followed events jobs db
      → Followed events jobs (insert_workflow_job s now db).0
  unfolding insert_workflow_job insert_row
  step-Followed s now db h =
      added-Followed (step_job s now) db (insert_job_row (step_job s now) db.jobs) refl refl h

-- The event of a tick.
abbrev pub cron_event : Env → String → String → String → Event
cron_event env id source payload = record {
  id = id;
  source = source;
  event_type = "cron.tick";
  payload = payload;
  headers = none;
  unique_key = none;
  created_at = env.now;
}

-- What a tick leaves: nothing, and an error; or the event with the first of its jobs, ahead of those
-- of workflows, and with all of them if there is no error.
abbrev pub Fate : Event → List JobSpec → Database → Engine × Answer (Unit {0}) → Type 0
Fate e specs db (s', a) =
    ((s'.world.db ≡ db) × (ended a ≡ false))
    ⊎ ((before : List JobSpec) × (after : List JobSpec) × (before ++ after ≡ specs)
        × Followed (db.events ++ e ∷ []) (db.jobs ++ map (spec_job e) before) s'.world.db
        × (ended a ≡ true → after ≡ []))

module _ (env : Env) (e : Event) (now : e.created_at ≡ env.now) where
  job-Prefix :
      (wanted : Bool) (t : Target) (ts : List Target) (next : Task (Unit {0})) (s : Engine)
      → ((s' : Engine) → Prefix e (numbered env s'.drawn ts) s'.world.db (next s'))
      → Prefix e
          (numbered env s.drawn (if wanted then t ∷ ts else ts))
          s.world.db
          (job_if env e.id wanted t next s)
  unfolding numbered draw tally ◌>>=◌ ◌>>◌ call
  job-Prefix false t ts next s h = h s
  job-Prefix true (handler, url, max) ts next s h =
      let drawn = record s { drawn = suc s.drawn } in
      then-Prefix env e now (env.ulid s.drawn) handler url max (numbered env (suc s.drawn) ts)
        s.world.db (tally inc_jobs_created >> next) _
        (insert_job-Added env (env.ulid s.drawn) e.id handler url max drawn) (h _)

  fire_jobs-Prefix :
      (payload : String) (hs : List (String × HandlerConfig)) (s : Engine)
      → Prefix e
          (numbered env s.drawn (handler_targets env payload hs))
          s.world.db
          (fire_jobs env e.id payload hs s)
  unfolding fire_jobs handler_targets select_where numbered
  fire_jobs-Prefix payload [] s = ([], [], refl, rw (append-nil s.world.db.jobs) refl, λ k. refl)
  fire_jobs-Prefix payload ((name, h) ∷ hs) s =
      rw
        (map-if {A = String × HandlerConfig} {B = Target} _ (passes env payload h.filter) (name, h)
          _)
        (job-Prefix (passes env payload h.filter)
          (name, h.url, retry_max env.default_retry_max h.retry) _ (fire_jobs env e.id payload hs) s
          (fire_jobs-Prefix payload hs))

  workflows-Fate :
      (payload : String) (specs : List JobSpec) (ws : List (String × WorkflowConfig))
      (db db₁ : Database) (r : Engine × Answer (Unit {0}))
      → db₁ ≡ record db { events = db.events ++ e ∷ [] }
      → Prefix e specs db₁ r
      → Fate e specs db (resume_with (λ a. start_workflows env ws e.id payload) r)
  workflows-Fate payload specs ws db db₁ (s', failed x) first (before, after, all, same, whole) =
      inr (
        before,
        after,
        all,
        (
          [],
          ap (λ d. d.events) same ∙ ap (λ d. d.events) first,
          ap (λ d. d.jobs) same
              ∙ ap (λ d. d.jobs ++ map (spec_job e) before) first
              ∙ sym (append-nil _),
          tt,
        ),
        λ k. cc,
      )
  workflows-Fate payload specs ws db db₁ (s', done a) first (before, after, all, same, whole) =
      let events = db.events ++ e ∷ [] in
      let jobs = db.jobs ++ map (spec_job e) before in
      let stored : Followed events jobs s'.world.db = (
        [],
        ap (λ d. d.events) same ∙ ap (λ d. d.events) first,
        ap (λ d. d.jobs) same
            ∙ ap (λ d. d.jobs ++ map (spec_job e) before) first
            ∙ sym (append-nil _),
        tt,
      ) in
      let kept : Keeps (Followed events jobs) (start_workflows env ws e.id payload) =
        start_workflows-Keeps (Followed events jobs) (run-Followed events jobs)
          (timeout-Followed events jobs) (step-Followed events jobs) env ws e.id payload in
      inr (before, after, all, unfold Keeps in kept s' stored, λ k. whole refl)

  insert_event_row-added :
      (db : Database) {rows : List Event} {created : Bool}
      → e.unique_key ≡ none
      → insert_event_row db.driver e db.events ≡ ok (rows, created)
      → (rows ≡ db.events ++ e ∷ []) × (created ≡ true)
  unfolding insert_event_row
  insert_event_row-added db unkeyed h = ground arith

  module _ (config : Config) (payload : String) (unkeyed : e.unique_key ≡ none) where
    abbrev wanted : ℕ → List JobSpec
    wanted n =
        numbered env n (handler_targets env payload (matching_handlers config e.source "cron.tick"))

    created-Fate :
        (s : Engine) (db : Database) (created : Bool)
        → created ≡ true
        → s.world.db ≡ record db { events = db.events ++ e ∷ [] }
        → Fate e (wanted s.drawn) db (after_tick env config e.id e.source payload created s)
    unfolding after_tick ◌>>◌ tally
    created-Fate s db false c first = cc
    created-Fate s db true c first =
        workflows-Fate payload (wanted s.drawn) (matching_workflows config e.source "cron.tick") db
          _ _ first (fire_jobs-Prefix payload (matching_handlers config e.source "cron.tick") _)

    stored-Fate :
        (s : Engine) (r : Result (List Event × Bool))
        → insert_event_row s.world.db.driver e s.world.db.events ≡ r
        → Fate e (wanted s.drawn) s.world.db (
            let w =
              stored s.world
                (transaction {0} s.world.db λ t. r >>=ʳ λ x. ok (record t { events = x.0 }, x.1)) in
            resume_with
              (after_tick env config e.id e.source payload)
              (record s { world = w.0; calls = suc s.calls }, w.1))
    stored-Fate s (err x) p = inl (refl, refl)
    stored-Fate s (ok (rows, created)) p =
        let (same, made) = insert_event_row-added s.world.db unkeyed p in
        created-Fate _ s.world.db created made (ap (λ l. record s.world.db { events = l }) same)

    tick-Fate :
        (s : Engine)
        → Fate e
            (wanted s.drawn)
            s.world.db
            ((call env (insert_event e) >>= after_tick env config e.id e.source payload) s)
    unfolding call insert_event ◌>>=◌
    tick-Fate s = elim (Bool-cases (env.fault s.calls)) [
      | inl lost ↦ rw lost (inl (refl, refl))
      | inr made ↦
          rw made (stored-Fate s (insert_event_row s.world.db.driver e s.world.db.events) refl)
    ]

-- The jobs that a tick is to have: one for each handler of the source that takes `cron.tick` and
-- whose filter lets the payload through.
unfoldable pub due_jobs : Env → Config → TimeFormat → String → ℕ → List JobSpec
due_jobs env config format source n = numbered env n (
    handler_targets env (payload_of env format source)
      (matching_handlers config source "cron.tick"))

-- A tick stores nothing and returns an error, or it stores the event with the first of the jobs that
-- its handlers are to have, and with all of them if it returns no error, whichever calls of the
-- database fail; whatever stands behind these jobs belongs to a run of a workflow.
pub fire_cron_event-Fate :
    (env : Env) (config : Config) (format : TimeFormat) (source : String) (s : Engine)
    → Fate
        (cron_event env (env.ulid s.drawn) source (payload_of env format source))
        (due_jobs env config format source (suc s.drawn))
        s.world.db
        (fire_cron_event env config format source s)
unfolding fire_cron_event due_jobs ◌>>=◌ draw
fire_cron_event-Fate env config format source s =
    tick-Fate env (tick env (env.ulid s.drawn) source (payload_of env format source)) refl config
      (payload_of env format source) refl (record s { drawn = suc s.drawn })
