-- ===== src/Db/Atomic.antt =====
-- src/db.rs, `insert_event_and_jobs`: all or nothing, and once for each key.
use qhook.Prelude.{
  ◌≡◌, refl, ◌∙◌, Bool, true, false, some, List, [], ◌∷◌, ◌++◌, map, String, arith, if◌then◌else◌,
}
use mathlib.Core.List.{append-nil, append_assoc}
use qhook.Prelude.Classes.{string_eq, eq_refl}
use qhook.Sql.{exists_where}
use qhook.Db.{Job, Event, Database, Result, ok, err, ◌>>=◌, transaction, >>=-eq-ok}
use qhook.Db.Events.{
  JobSpec, new_job, insert_job_row, insert_job_rows, insert_event_row, insert_jobs_if, has_key,
  insert_event_and_jobs,
}

-- The job that a specification stands for.
unfoldable pub spec_job : Event → JobSpec → Job
spec_job e (id, handler, url, max_attempts) = new_job id e.id handler url max_attempts e.created_at

pub insert_job_row-eq-ok :
    (j : Job) (rows : List Job) {rows' : List Job}
    → insert_job_row j rows ≡ ok rows'
    → rows' ≡ rows ++ j ∷ []
unfolding insert_job_row
insert_job_row-eq-ok j rows h = ground arith

insert_job_rows-eq-ok :
    (e : Event) (specs : List JobSpec) (rows : List Job) {rows' : List Job}
    → insert_job_rows e.id e.created_at specs rows ≡ ok rows'
    → rows' ≡ rows ++ map (spec_job e) specs
unfolding insert_job_rows spec_job
insert_job_rows-eq-ok e [] rows h = ground (arith, append-nil rows)
insert_job_rows-eq-ok e ((id, handler, url, m) ∷ specs) rows h =
    let j = new_job id e.id handler url m e.created_at in
    let (rows₁, stored, rest) =
      >>=-eq-ok (insert_job_row j rows) (insert_job_rows e.id e.created_at specs) h in
    insert_job_rows-eq-ok e specs rows₁ rest
    ∙ rw (insert_job_row-eq-ok j rows stored) (append_assoc rows (j ∷ []) (map (spec_job e) specs))

insert_event_row-eq-ok :
    (e : Event) (db : Database) {rows : List Event} {created : Bool}
    → insert_event_row db.driver e db.events ≡ ok (rows, created)
    → (created ≡ true → rows ≡ db.events ++ e ∷ [])
unfolding insert_event_row
insert_event_row-eq-ok e db h = ground arith

-- What a call may leave behind, for each result.
abbrev pub Outcome : Event → List JobSpec → Database → Database × Result Bool → Type 0
Outcome e specs db (db', ok true) =
    db' ≡ record db { events = db.events ++ e ∷ []; jobs = db.jobs ++ map (spec_job e) specs }
Outcome e specs db (db', ok false) = db' ≡ db
Outcome e specs db (db', err x) = db' ≡ db

stored_outcome :
    (e : Event) (specs : List JobSpec) (db : Database) {rows : List Event} (r : Result (List Job))
    → rows ≡ db.events ++ e ∷ []
    → insert_job_rows e.id e.created_at specs db.jobs ≡ r
    → Outcome e specs db
        (transaction db λ t. r >>= λ jobs. ok (record t { events = rows; jobs = jobs }, true))
stored_outcome e specs db (err x) q p = refl
stored_outcome e specs db (ok jobs) q p = rw (q, insert_job_rows-eq-ok e specs db.jobs p)

outcome_of :
    (e : Event) (specs : List JobSpec) (db : Database) (r : Result (List Event × Bool))
    → insert_event_row db.driver e db.events ≡ r
    → Outcome e specs db (transaction db λ t. r >>= λ x. insert_jobs_if x.1 e specs x.0 t)
unfolding insert_jobs_if
outcome_of e specs db (err x) p = refl
outcome_of e specs db (ok (rows, false)) p = refl
outcome_of e specs db (ok (rows, true)) p =
    stored_outcome e specs db (insert_job_rows e.id e.created_at specs db.jobs)
      (insert_event_row-eq-ok e db p refl) refl

-- An event is stored with all its jobs, each available at once, or nothing is: after an error and
-- after a duplicate the database is as it was.
pub insert_event_and_jobs-Outcome :
    (e : Event) (specs : List JobSpec) (db : Database)
    → Outcome e specs db (insert_event_and_jobs e specs db)
unfolding insert_event_and_jobs
insert_event_and_jobs-Outcome e specs db =
    outcome_of e specs db (insert_event_row db.driver e db.events) refl

exists_where-append :
    {A : Type 0} (p : A → Bool) (xs ys : List A)
    → exists_where p (xs ++ ys) ≡ (if exists_where p xs then true else exists_where p ys)
unfolding exists_where
exists_where-append p [] ys = refl
exists_where-append p (x ∷ xs) ys = ground (arith, exists_where-append p xs ys)

abbrev with_event : Event → List JobSpec → Database → Database
with_event e specs db = record db {
  events = db.events ++ e ∷ [];
  jobs = db.jobs ++ map (spec_job e) specs;
}

Outcome-stored :
    (e : Event) (specs : List JobSpec) (db : Database) (r : Database × Result Bool)
    → Outcome e specs db r
    → r.1 ≡ ok true
    → r.0 ≡ with_event e specs db
Outcome-stored e specs db (db', ok true) o h = o
Outcome-stored e specs db (db', ok false) o h = cc
Outcome-stored e specs db (db', err x) o h = cc

pub has_key-append :
    (e : Event) (key : String) (events : List Event)
    → e.unique_key ≡ some key
    → has_key e.source key (events ++ e ∷ []) ≡ true
unfolding has_key exists_where
has_key-append e key events k =
    rw exists_where-append (ground (arith, eq_refl e.source, eq_refl key))

pub insert_duplicate :
    (e : Event) (specs : List JobSpec) (db : Database) (key : String)
    → e.unique_key ≡ some key
    → has_key e.source key db.events ≡ true
    → insert_event_and_jobs e specs db ≡ (db, ok false)
unfolding insert_event_and_jobs insert_event_row insert_jobs_if
insert_duplicate e specs db key k h = ground arith

-- An event is stored once for each key: once a call has stored an event with a key, every later
-- call with the same source and key, whatever else it carries, reports a duplicate and leaves the
-- database as it is.
pub insert_event_and_jobs_once :
    (e e' : Event) (specs specs' : List JobSpec) (db : Database) (key : String)
    → e.unique_key ≡ some key
    → e'.unique_key ≡ some key
    → e'.source ≡ e.source
    → (insert_event_and_jobs e specs db).1 ≡ ok true
    → insert_event_and_jobs e' specs' (insert_event_and_jobs e specs db).0
      ≡ ((insert_event_and_jobs e specs db).0, ok false)
insert_event_and_jobs_once e e' specs specs' db key k k' same h =
    let stored =
      Outcome-stored e specs db (insert_event_and_jobs e specs db)
        (insert_event_and_jobs-Outcome e specs db) h in
    insert_duplicate e' specs' (insert_event_and_jobs e specs db).0 key k'
      (rw (same, stored) (has_key-append e key db.events k))
