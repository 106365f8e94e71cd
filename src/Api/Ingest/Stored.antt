-- ===== src/Api/Ingest/Stored.antt =====
-- src/api.rs, `process_event`: what is left of an event, whichever calls of the database fail.
use mathlib.Core.List.{append-nil, append_assoc}
use qhook.Prelude.{
  ℕ, suc, ◌+◌, ◌≡◌, refl, sym, ◌∙◌, ap, ◌⊎◌, inl, inr, Bool, true, false, not, some, String, List,
  [], ◌∷◌, ◌++◌, length, map, Bool-cases,
}
use qhook.Config.{Config}
use qhook.Sql.{exists_where}
use qhook.Db.{Database, Event, Job, Result, ok, err, transaction, ◌>>=◌ as ◌>>=ʳ◌}
use qhook.Db.Events.{JobSpec, insert_job_row, insert_job, insert_event_and_jobs, new_job, has_key}
use qhook.Db.Atomic.{
  Outcome, spec_job, insert_job_row-eq-ok, insert_event_and_jobs-Outcome, insert_duplicate,
}
use qhook.Db.Endpoints.{Outbound}
use qhook.Db.Runs.{has_run_id, insert_run, insert_workflow_run, set_workflow_timeout, update_run}
use qhook.Db.Steps.{StepSpec, insert_row, step_job, insert_workflow_job}
use qhook.Metrics.{inc_events_received_for}
use qhook.Workflow.Engine.{
  Env, Engine, Answer, failed, done, Task, pure, ◌>>=◌, ◌>>◌, call, draw, tally, resume_with,
  stored,
}
use qhook.Workflow.Sound.{Keeps}
use qhook.Api.Ingest.{
  Headers, EventResult, event_of, after_insert, is_unwanted, store_event, process_event,
  matching_handlers, matching_queues,
}
use qhook.Api.Ingest.Kept.{after_insert-Keeps}
use qhook.Api.Ingest.Collected.{
  targets, handler_targets, queue_targets, numbered, numbered-append, handler_jobs_lem,
  queue_jobs_lem,
}

-- The tables hold the given events, and the given jobs with others behind them.
abbrev pub Extends : List Event → List Job → Database → Type 0
Extends events jobs db = (more : List Job) × (db.events ≡ events) × (db.jobs ≡ jobs ++ more)

module _ (events : List Event) (jobs : List Job) where
  pub run-Extends :
      (id workflow event_id step : String) (now : ℕ) (db : Database)
      → Extends events jobs db
      → Extends events jobs (insert_workflow_run id workflow event_id step now db).0
  unfolding insert_workflow_run insert_run
  run-Extends id workflow event_id step now db h =
      elim (Bool-cases (exists_where (has_run_id id) db.runs)) [
        | inl taken ↦ rw taken h
        | inr fresh ↦ rw fresh h
      ]

  pub timeout-Extends :
      (id : String) (at : ℕ) (db : Database)
      → Extends events jobs db
      → Extends events jobs (set_workflow_timeout id at db)
  unfolding set_workflow_timeout update_run
  timeout-Extends id at db h = h

  added-Extends :
      (j : Job) (db : Database) (r : Result (List Job))
      → insert_job_row j db.jobs ≡ r
      → Extends events jobs db
      → Extends events jobs
          (transaction {0} db λ t. r >>=ʳ λ rows. ok (record t { jobs = rows }, tt {0})).0
  added-Extends j db (err x) p h = h
  added-Extends j db (ok rows) p (more, e, h) =
      (more ++ j ∷ [], e, insert_job_row-eq-ok j db.jobs p ∙ rw h (append_assoc jobs more (j ∷ [])))

  row-Extends :
      (j : Job) (db : Database) → Extends events jobs db → Extends events jobs (insert_row j db).0
  unfolding insert_row
  row-Extends j db h = added-Extends j db (insert_job_row j db.jobs) refl h

  pub step-Extends :
      (s : StepSpec) (now : ℕ) (db : Database)
      → Extends events jobs db
      → Extends events jobs (insert_workflow_job s now db).0
  unfolding insert_workflow_job
  step-Extends s now db h = row-Extends (step_job s now) db h

  pub job-Extends :
      (id event_id handler url : String) (max now : ℕ) (db : Database)
      → Extends events jobs db
      → Extends events jobs (insert_job id event_id handler url max now db).0
  unfolding insert_job insert_row
  job-Extends id event_id handler url max now db h =
      unfold insert_row in row-Extends (new_job id event_id handler url max now) db h

  after_insert-Extends :
      (env : Env) (config : Config) (outbound : Outbound)
      (event_id source event_type payload : String) (specs : List JobSpec) (created : Bool)
      → Keeps
          (Extends events jobs)
          (after_insert env config outbound event_id source event_type payload specs created)
  after_insert-Extends =
      after_insert-Keeps (Extends events jobs) run-Extends timeout-Extends step-Extends job-Extends

-- Whether the answer says that the event was created, and that it was a duplicate.
abbrev pub was_created : Answer EventResult → Bool
was_created (failed x) = false
was_created (done r) = r.created

abbrev pub was_duplicate : Answer EventResult → Bool
was_duplicate (failed x) = false
was_duplicate (done r) = not r.created

-- Nothing is stored, or the event with all its jobs.
abbrev pub Fate : Bool → Event → List JobSpec → Database → Engine × Answer EventResult → Type 0
Fate unwanted e specs db (s', a) =
    ((s'.world.db ≡ db) × (was_created a ≡ unwanted))
    ⊎ (Extends (db.events ++ e ∷ []) (db.jobs ++ map (spec_job e) specs) s'.world.db
        × (was_duplicate a ≡ false))

-- The task does not report a duplicate.
unfoldable NoDuplicate : Task EventResult → Type 0
NoDuplicate task = (s : Engine) → was_duplicate (task s).1 ≡ false

resumed-NoDuplicate :
    {A : Type 0} (next : A → Task EventResult) (r : Engine × Answer A)
    → ((a : A) → NoDuplicate (next a))
    → was_duplicate (resume_with next r).1 ≡ false
unfolding NoDuplicate
resumed-NoDuplicate next (s, failed x) h = refl
resumed-NoDuplicate next (s, done a) h = h a s

bind-NoDuplicate :
    {A : Type 0} (first : Task A) (next : A → Task EventResult)
    → ((a : A) → NoDuplicate (next a))
    → NoDuplicate (first >>= next)
unfolding NoDuplicate ◌>>=◌
bind-NoDuplicate first next h s = resumed-NoDuplicate next (first s) h

then-NoDuplicate :
    {A : Type 0} (first : Task A) (next : Task EventResult)
    → NoDuplicate next
    → NoDuplicate (first >> next)
unfolding NoDuplicate ◌>>◌
then-NoDuplicate first next h s = resumed-NoDuplicate (λ a. next) (first s) (λ a. h)

pure-NoDuplicate :
    (event_id : String) (n : ℕ)
    → NoDuplicate (pure (record { event_id = event_id; created = true; jobs_created = n }))
unfolding NoDuplicate
pure-NoDuplicate event_id n s = refl

after_insert-NoDuplicate :
    (env : Env) (config : Config) (outbound : Outbound)
    (event_id source event_type payload : String) (specs : List JobSpec)
    → NoDuplicate (after_insert env config outbound event_id source event_type payload specs true)
unfolding after_insert
after_insert-NoDuplicate env config outbound event_id source event_type payload specs =
    search (bind-NoDuplicate, then-NoDuplicate, pure-NoDuplicate) depth 12

module _ (env : Env) (config : Config) (outbound : Outbound) (source event_type payload : String)
    (headers : Headers) where
  -- What follows the statement that inserts the event.
  abbrev finish : String → List JobSpec → Bool → Task EventResult
  finish event_id specs created =
      tally (inc_events_received_for source)
      >> after_insert env config outbound event_id source event_type payload specs created

  abbrev row : String → Event
  row event_id = event_of env config event_id source event_type payload headers

  abbrev wanted : ℕ → List JobSpec
  wanted n = numbered env n (targets env config source event_type payload)

  finished-Fate :
      (event_id : String) (specs : List JobSpec) (db : Database) (s : Engine)
      (w : Database × Result Bool)
      → Outcome (row event_id) specs db w
      → Fate false (row event_id) specs db (
          resume_with
            (finish event_id specs)
            (record s { world = (stored s.world w).0; calls = suc s.calls }, (stored s.world w).1))
  unfolding Keeps NoDuplicate tally ◌>>◌ after_insert
  finished-Fate event_id specs db s (db', err x) o = inl (o, refl)
  finished-Fate event_id specs db s (db', ok false) o = inl (o, refl)
  finished-Fate event_id specs db s (db', ok true) o = inr (
    after_insert-Extends (db.events ++ row event_id ∷ [])
        (db.jobs ++ map (spec_job (row event_id)) specs) env config outbound event_id source
        event_type payload specs true _
        ([], ap (λ d. d.events) o, ap (λ d. d.jobs) o ∙ sym (append-nil _)),
    after_insert-NoDuplicate env config outbound event_id source event_type payload specs _,
  )

  abbrev collected_from : Engine → Engine
  collected_from s =
      let hs = handler_targets env payload (matching_handlers config source event_type) in
      let qs = queue_targets env payload (matching_queues config source event_type) in
      record s { drawn = s.drawn + length hs + length qs }

  store_event_lem :
      (event_id : String) (s : Engine)
      → store_event env config outbound event_id source event_type payload headers s
        ≡ resume_with
            (finish event_id (wanted s.drawn))
            (call env (insert_event_and_jobs (row event_id) (wanted s.drawn)) (collected_from s))
  unfolding store_event ◌>>=◌ targets
  store_event_lem event_id s =
      let hs = handler_targets env payload (matching_handlers config source event_type) in
      let qs = queue_targets env payload (matching_queues config source event_type) in
      rw
        (
          handler_jobs_lem env payload (matching_handlers config source event_type) [] s,
          queue_jobs_lem env payload (matching_queues config source event_type)
              (numbered env s.drawn hs) (record s { drawn = s.drawn + length hs }),
          numbered-append env s.drawn hs qs,
        )
        refl

  called-Fate :
      (event_id : String) (specs : List JobSpec) (s : Engine)
      → Fate false (row event_id) specs s.world.db (
          resume_with
            (finish event_id specs)
            (call env (insert_event_and_jobs (row event_id) specs) s))
  unfolding call
  called-Fate event_id specs s = elim (Bool-cases (env.fault s.calls)) [
    | inl lost_call ↦ rw lost_call (inl (refl, refl))
    | inr made ↦ rw made (
        finished-Fate event_id specs s.world.db s
          (insert_event_and_jobs (row event_id) specs s.world.db)
          (insert_event_and_jobs-Outcome (row event_id) specs s.world.db))
  ]

  store_event-Fate :
      (event_id : String) (s : Engine)
      → Fate false
          (row event_id)
          (wanted s.drawn)
          s.world.db
          (store_event env config outbound event_id source event_type payload headers s)
  store_event-Fate event_id s =
      rw (store_event_lem event_id s) (called-Fate event_id (wanted s.drawn) (collected_from s))

  -- Whichever calls of the database fail, an event leaves the database as it was, and is reported
  -- as created only if nothing asks for it; or it is stored behind the others with one available
  -- job for each handler and each queue that its source, its type and the filter select, in order
  -- and with new ULIDs, other jobs only behind them, and it is not reported as a duplicate.
  pub process_event-Fate :
      (s : Engine)
      → Fate
          (is_unwanted config source event_type)
          (event_of env config (env.ulid s.drawn) source event_type payload headers)
          (numbered env (suc s.drawn) (targets env config source event_type payload))
          s.world.db
          (process_event env config outbound source event_type payload headers s)
  unfolding process_event draw ◌>>=◌
  process_event-Fate s = elim (Bool-cases (is_unwanted config source event_type)) [
    | inl unwanted ↦ rw unwanted (inl (refl, refl))
    | inr asked ↦ rw asked (store_event-Fate (env.ulid s.drawn) (record s { drawn = suc s.drawn }))
  ]

  duplicate-kept :
      (event_id key : String) (specs : List JobSpec) (s : Engine)
      → (row event_id).unique_key ≡ some key
      → has_key source key s.world.db.events ≡ true
      → (resume_with
          (finish event_id specs)
          (call env (insert_event_and_jobs (row event_id) specs) s)).0.world.db
        ≡ s.world.db
  unfolding call tally ◌>>◌ after_insert
  duplicate-kept event_id key specs s k h = elim (Bool-cases (env.fault s.calls)) [
    | inl lost_call ↦ rw lost_call refl
    | inr made ↦ rw (made, insert_duplicate (row event_id) specs s.world.db key k h) refl
  ]

  -- Whichever calls of the database fail: an event whose unique key is that of a stored event of the
  -- same source changes no table, and so starts no run and creates no job.
  pub process_event_once :
      (key : String) (s : Engine)
      → (event_of env config (env.ulid s.drawn) source event_type payload headers).unique_key
        ≡ some key
      → has_key source key s.world.db.events ≡ true
      → (process_event env config outbound source event_type payload headers s).0.world.db
        ≡ s.world.db
  unfolding process_event draw ◌>>=◌
  process_event_once key s k h = elim (Bool-cases (is_unwanted config source event_type)) [
    | inl unwanted ↦ rw unwanted refl
    | inr asked ↦
        (let s₁ = record s { drawn = suc s.drawn } in
          rw (asked, store_event_lem (env.ulid s.drawn) s₁)
            (duplicate-kept (env.ulid s.drawn) key (wanted s₁.drawn) (collected_from s₁) k h))
  ]
