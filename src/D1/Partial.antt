-- ===== src/D1/Partial.antt =====
-- src/d1_db.rs, `d1_insert_event_and_jobs`: what is left after each of its requests.
use mathlib.Core.List.{append-nil, append_assoc}
use qhook.Prelude.{
  ℕ, suc, ◌≡◌, refl, sym, ◌∙◌, ap, ◌⊎◌, inl, inr, Bool, true, false, Option, String, List, [], ◌∷◌,
  ◌++◌, map, arith, Bool-cases,
}
use qhook.Prelude.Classes.{string_eq}
use qhook.Db.{Database, Event, Job, Result, ok, err, sqlite, transaction, ◌>>=◌ as ◌>>=ʳ◌}
use qhook.Db.Events.{JobSpec, new_job, insert_job_row, insert_job, insert_event_row}
use qhook.Db.Atomic.{spec_job, insert_job_row-eq-ok}
use qhook.Workflow.Engine.{
  Env, Engine, Answer, failed, done, Task, pure, ◌>>=◌, ◌>>◌, call, resume_with, stored,
}
use qhook.D1.{
  row_of, insert_statement, d1_insert_event, d1_insert_job, d1_insert_jobs, jobs_if,
  d1_insert_event_and_jobs,
}

abbrev with_jobs : List Job → Database → Database
with_jobs js db = record db { jobs = db.jobs ++ js }

-- One more job, or an error and nothing.
abbrev pub Added : Job → Database → Engine × Answer (Unit {0}) → Type 0
Added j db (s', done a) = s'.world.db ≡ record db { jobs = db.jobs ++ j ∷ [] }
Added j db (s', failed x) = s'.world.db ≡ db

stored-Added :
    (j : Job) (s : Engine) (r : Result (List Job))
    → insert_job_row j s.world.db.jobs ≡ r
    → Added j s.world.db (
        let w =
          stored s.world (
            transaction {0} s.world.db λ t. r >>=ʳ λ rows. ok (record t { jobs = rows }, tt {0})) in
        (record s { world = w.0; calls = suc s.calls }, w.1))
stored-Added j s (err x) p = refl
stored-Added j s (ok rows) p = rw (insert_job_row-eq-ok j s.world.db.jobs p) refl

pub insert_job-Added :
    (env : Env) (id event_id handler url : String) (max : ℕ) (s : Engine)
    → Added
        (new_job id event_id handler url max env.now)
        s.world.db
        (call env (insert_job id event_id handler url max env.now) s)
unfolding call insert_job
insert_job-Added env id event_id handler url max s = elim (Bool-cases (env.fault s.calls)) [
  | inl lost ↦ rw lost refl
  | inr made ↦ rw made (
      stored-Added (new_job id event_id handler url max env.now) s
        (insert_job_row (new_job id event_id handler url max env.now) s.world.db.jobs) refl)
]

abbrev pub ended : Answer (Unit {0}) → Bool
ended (failed x) = false
ended (done a) = true

-- The first of the jobs are stored, and all of them if there is no error.
abbrev pub Prefix : Event → List JobSpec → Database → Engine × Answer (Unit {0}) → Type 0
Prefix e specs db (s', a) =
    (before : List JobSpec) × (after : List JobSpec) × (before ++ after ≡ specs)
    × (s'.world.db ≡ record db { jobs = db.jobs ++ map (spec_job e) before })
    × (ended a ≡ true → after ≡ [])

module _ (env : Env) (e : Event) (now : e.created_at ≡ env.now) where
  pub then-Prefix :
      (id handler url : String) (max : ℕ) (specs : List JobSpec) (db : Database)
      (rest : Task (Unit {0})) (r : Engine × Answer (Unit {0}))
      → Added (new_job id e.id handler url max env.now) db r
      → Prefix e specs r.0.world.db (rest r.0)
      → Prefix e ((id, handler, url, max) ∷ specs) db (resume_with (λ a. rest) r)
  unfolding spec_job
  then-Prefix id handler url max specs db rest (s', failed x) added h =
      ([], (id, handler, url, max) ∷ specs, refl, added ∙ rw (append-nil db.jobs) refl, λ k. cc)
  then-Prefix id handler url max specs db rest (s', done a) added h =
      let (before, after, all, same, whole) = h in
      let job = new_job id e.id handler url max env.now in
      let kept : (rest s').0.world.db
          ≡ record db { jobs = (db.jobs ++ job ∷ []) ++ map (spec_job e) before } =
        same ∙ ap (with_jobs (map (spec_job e) before)) added in
      (
        (id, handler, url, max) ∷ before,
        after,
        ap (λ js. (id, handler, url, max) ∷ js) all,
        kept
            ∙ ap (λ js. record db { jobs = js })
                (append_assoc db.jobs (job ∷ []) (map (spec_job e) before))
            ∙ ap (λ n. with_jobs (new_job id e.id handler url max n ∷ map (spec_job e) before) db)
                (sym now),
        whole,
      )

  pub d1_insert_jobs-Prefix :
      (specs : List JobSpec) (s : Engine)
      → Prefix e specs s.world.db (d1_insert_jobs env e.id specs s)
  unfolding d1_insert_jobs d1_insert_job ◌>>◌
  d1_insert_jobs-Prefix [] s = ([], [], refl, rw (append-nil s.world.db.jobs) refl, λ k. refl)
  d1_insert_jobs-Prefix ((id, handler, url, max) ∷ specs) s =
      then-Prefix id handler url max specs s.world.db (d1_insert_jobs env e.id specs) _
        (insert_job-Added env id e.id handler url max s) (d1_insert_jobs-Prefix specs _)

-- What is left of an event: all of it, nothing, or after an error the row with the first of its jobs.
abbrev pub Stored : Event → List JobSpec → Database → Database → Type 0
Stored e before db db' =
    db' ≡ record db { events = db.events ++ e ∷ []; jobs = db.jobs ++ map (spec_job e) before }

abbrev pub Outcome : Event → List JobSpec → Database → Engine × Answer Bool → Type 0
Outcome e specs db (s', done true) = Stored e specs db s'.world.db
Outcome e specs db (s', done false) = s'.world.db ≡ db
Outcome e specs db (s', failed x) =
    (s'.world.db ≡ db)
    ⊎ ((before : List JobSpec) × (after : List JobSpec) × (before ++ after ≡ specs)
        × Stored e before db s'.world.db)

-- The row of the event is stored, and its jobs follow.
jobs-Outcome :
    (e : Event) (specs : List JobSpec) (db₀ db : Database) (r : Engine × Answer (Unit {0}))
    → db ≡ record db₀ { events = db₀.events ++ e ∷ [] }
    → Prefix e specs db r
    → Outcome e specs db₀ (resume_with (λ a. pure true) r)
jobs-Outcome e specs db₀ db (s', failed x) first (before, after, all, same, whole) =
    inr (before, after, all, same ∙ ap (with_jobs (map (spec_job e) before)) first)
jobs-Outcome e specs db₀ db (s', done a) first (before, after, all, same, whole) =
    let everything : before ≡ specs =
      sym (append-nil before) ∙ ap (λ x. before ++ x) (sym (whole refl)) ∙ all in
    same
    ∙ ap (with_jobs (map (spec_job e) before)) first
    ∙ ap (λ b. record db₀ { events = db₀.events ++ e ∷ []; jobs = db₀.jobs ++ map (spec_job e) b })
        everything

insert_event_row-added :
    (e : Event) (rows : List Event) {rows' : List Event}
    → insert_event_row sqlite e rows ≡ ok (rows', true)
    → rows' ≡ rows ++ e ∷ []
unfolding insert_event_row
insert_event_row-added e rows h = ground arith

insert_event_row-kept :
    (e : Event) (rows : List Event) {rows' : List Event}
    → insert_event_row sqlite e rows ≡ ok (rows', false)
    → rows' ≡ rows
unfolding insert_event_row
insert_event_row-kept e rows h = ground arith

module _ (env : Env) (e : Event) (now : e.created_at ≡ env.now) where
  inserted-Outcome :
      (specs : List JobSpec) (s : Engine) (r : Result (List Event × Bool))
      → insert_event_row sqlite e s.world.db.events ≡ r
      → Outcome e specs s.world.db (
          let w =
            stored s.world
              (transaction {0} s.world.db λ t. r >>=ʳ λ x. ok (record t { events = x.0 }, x.1)) in
          resume_with (jobs_if env e.id specs) (record s { world = w.0; calls = suc s.calls }, w.1))
  unfolding ◌>>◌
  inserted-Outcome specs s (err x) p = inl refl
  inserted-Outcome specs s (ok (rows, false)) p =
      ap (λ l. record s.world.db { events = l }) (insert_event_row-kept e s.world.db.events p)
  inserted-Outcome specs s (ok (rows, true)) p =
      jobs-Outcome e specs s.world.db _ _
        (ap (λ l. record s.world.db { events = l }) (insert_event_row-added e s.world.db.events p))
        (d1_insert_jobs-Prefix env e now specs _)

  row-Outcome :
      (specs : List JobSpec) (s : Engine)
      → Outcome e specs s.world.db ((d1_insert_event env e >>= jobs_if env e.id specs) s)
  unfolding ◌>>=◌ d1_insert_event insert_statement call
  row-Outcome specs s = elim (Bool-cases (env.fault s.calls)) [
    | inl lost ↦ rw lost (inl refl)
    | inr made ↦
        rw made (inserted-Outcome specs s (insert_event_row sqlite e s.world.db.events) refl)
  ]

-- On D1, whichever requests fail: a call that answers true has stored the event with all its jobs,
-- one that answers false has changed nothing, and one that fails has changed nothing or has stored
-- the event with the first of its jobs only.
pub d1_insert_event_and_jobs-Outcome :
    (env : Env) (id source event_type payload : String) (headers unique_key : Option String)
    (specs : List JobSpec) (s : Engine)
    → Outcome
        (row_of env id source event_type payload headers unique_key)
        specs
        s.world.db
        (d1_insert_event_and_jobs env id source event_type payload headers unique_key specs s)
unfolding d1_insert_event_and_jobs
d1_insert_event_and_jobs-Outcome env id source event_type payload headers unique_key specs s =
    row-Outcome env (row_of env id source event_type payload headers unique_key) refl specs s
