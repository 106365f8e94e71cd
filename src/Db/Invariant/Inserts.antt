-- ===== src/Db/Invariant/Inserts.antt =====
-- The inserts keep the invariant, with the jobs that they add.
use qhook.Prelude.{ℕ, ◌≡◌, refl, Bool, true, false, some, List, [], ◌∷◌, map, String, arith, All}
use qhook.Db.{Job, Event, Database, Result, ok, err, >>=-eq-ok, ◌>>=◌, transaction, has_status}
use qhook.Db.Events
use qhook.Db.Events.{JobSpec}
use qhook.Db.Steps
use qhook.Db.Steps.{StepSpec}
use qhook.Db.Invariant.Rows.{JobIsValid, IsValid, IsDistinct, insert_job_row-IsValid}

pub new_job-IsValid :
    (id event_id handler url : String) (m now : ℕ)
    → JobIsValid (Events.new_job id event_id handler url m now)
unfolding has_status
new_job-IsValid id event_id handler url m now = ground arith

pub step_job-IsValid : (s : StepSpec) (now : ℕ) → JobIsValid (Steps.step_job s now)
unfolding has_status
step_job-IsValid s now = ground arith

pub branch_job-IsValid :
    (s : StepSpec) (branch : String) (now : ℕ)
    → JobIsValid (record (Steps.step_job s now) { branch_name = some branch })
unfolding has_status
branch_job-IsValid s branch now = ground arith

pub delayed_job-IsValid :
    (s : StepSpec) (at now : ℕ) → JobIsValid (record (Steps.step_job s now) { scheduled_at = at })
unfolding has_status
delayed_job-IsValid s at now = ground arith

pub callback_job-IsValid :
    (s : StepSpec) (token : String) (far now : ℕ) → JobIsValid (Steps.callback_job s token far now)
unfolding has_status
callback_job-IsValid s token far now = ground arith

-- A transaction that stores rows keeps the invariant, if the rows that it stores do.
store-IsValid :
    {A : Type 0} (db : Database) (events : List Event) (a : A) (r : Result (List Job))
    → ((jobs : List Job) → r ≡ ok jobs → All JobIsValid jobs × IsDistinct (map (λ j. j.id) jobs))
    → IsValid db
    → IsValid
        (transaction {0} db λ t. r >>= λ jobs. ok (record t { events = events; jobs = jobs }, a)).0
store-IsValid db events a (err x) h v = v
store-IsValid db events a (ok jobs) h v = record { rows = (h jobs refl).0; ids = (h jobs refl).1 }

pub insert_row-IsValid :
    (j : Job) (db : Database) → JobIsValid j → IsValid db → IsValid (Steps.insert_row j db).0
unfolding Steps.insert_row
insert_row-IsValid j db vj v =
    store-IsValid db db.events tt (Events.insert_job_row j db.jobs)
      (λ jobs e. insert_job_row-IsValid j db.jobs e vj v.rows v.ids) v

pub insert_job-IsValid :
    (id event_id handler url : String) (m now : ℕ) (db : Database)
    → IsValid db
    → IsValid (Events.insert_job id event_id handler url m now db).0
unfolding Events.insert_job
insert_job-IsValid id event_id handler url m now db v =
    let j = Events.new_job id event_id handler url m now in
    store-IsValid db db.events tt (Events.insert_job_row j db.jobs)
      (λ jobs e.
        insert_job_row-IsValid j db.jobs e (new_job-IsValid id event_id handler url m now) v.rows
          v.ids)
      v

insert_job_rows-IsValid :
    (event_id : String) (now : ℕ) (specs : List JobSpec) (rows : List Job) {rows' : List Job}
    → Events.insert_job_rows event_id now specs rows ≡ ok rows'
    → All JobIsValid rows
    → IsDistinct (map (λ r. r.id) rows)
    → All JobIsValid rows' × IsDistinct (map (λ r. r.id) rows')
unfolding Events.insert_job_rows
insert_job_rows-IsValid event_id now [] rows {rows'} h all d =
    let e : rows ≡ rows' = cc in rw (← e) (all, d)
insert_job_rows-IsValid event_id now ((id, handler, url, m) ∷ specs) rows h all d =
    let j = Events.new_job id event_id handler url m now in
    let (rows₁, stored, rest) =
      >>=-eq-ok (Events.insert_job_row j rows) (Events.insert_job_rows event_id now specs) h in
    let (all', d') =
      insert_job_row-IsValid j rows stored (new_job-IsValid id event_id handler url m now) all d in
    insert_job_rows-IsValid event_id now specs rows₁ rest all' d'

insert_event_result-IsValid :
    (e : Event) (specs : List JobSpec) (db : Database) (r : Result (List Event × Bool))
    → IsValid db
    → IsValid (transaction {0} db λ t. r >>= λ x. Events.insert_jobs_if x.1 e specs x.0 t).0
unfolding Events.insert_jobs_if
insert_event_result-IsValid e specs db (err x) v = v
insert_event_result-IsValid e specs db (ok (events, false)) v = v
insert_event_result-IsValid e specs db (ok (events, true)) v =
    store-IsValid db events true (Events.insert_job_rows e.id e.created_at specs db.jobs)
      (λ jobs h. insert_job_rows-IsValid e.id e.created_at specs db.jobs h v.rows v.ids) v

pub insert_event_and_jobs-IsValid :
    (e : Event) (specs : List JobSpec) (db : Database)
    → IsValid db
    → IsValid (Events.insert_event_and_jobs e specs db).0
unfolding Events.insert_event_and_jobs
insert_event_and_jobs-IsValid e specs db =
    insert_event_result-IsValid e specs db (Events.insert_event_row db.driver e db.events)

event_only-IsValid :
    (db : Database) (r : Result (List Event × Bool))
    → IsValid db
    → IsValid (transaction {0} db λ t. r >>= λ x. ok (record t { events = x.0 }, x.1)).0
event_only-IsValid db (err x) v = v
event_only-IsValid db (ok (events, created)) v = record { rows = v.rows; ids = v.ids }

pub insert_event-IsValid :
    (e : Event) (db : Database) → IsValid db → IsValid (Events.insert_event e db).0
unfolding Events.insert_event
insert_event-IsValid e db = event_only-IsValid db (Events.insert_event_row db.driver e db.events)
