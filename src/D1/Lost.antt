-- ===== src/D1/Lost.antt =====
-- src/d1_db.rs, `d1_insert_event_and_jobs`: an event whose jobs are lost.
use qhook.Prelude.{suc, ◌≡◌, refl, ap, Bool, true, false, Option, some, String, List, [], ◌∷◌, ◌++◌}
use qhook.Prelude.Classes.{string_eq}
use qhook.Db.{Database, Event, ok, sqlite, transaction, ◌>>=◌ as ◌>>=ʳ◌}
use qhook.Db.Events.{JobSpec, insert_event_row, has_key, has_event}
use qhook.Db.Atomic.{has_key-append}
use qhook.Workflow.Engine.{Env, Engine, failed, done, ◌>>=◌, ◌>>◌, call, connection_lost}
use qhook.D1.{
  row_of, insert_statement, d1_insert_event, d1_insert_job, d1_insert_jobs,
  d1_insert_event_and_jobs,
}

abbrev with_events : List Event → Engine → Engine
with_events rows s = record s {
  world = record s.world { db = record s.world.db { events = rows } };
  calls = suc s.calls;
}

event_row :
    (e : Event) (key : String) (rows : List Event)
    → e.unique_key ≡ some key
    → has_key e.source key rows ≡ false
    → has_event e.id rows ≡ false
    → insert_event_row sqlite e rows ≡ ok (rows ++ e ∷ [], true)
unfolding insert_event_row
event_row e key rows keyed fresh unused = rw (keyed, fresh, unused) refl

duplicate_row :
    (e : Event) (key : String) (rows : List Event)
    → e.unique_key ≡ some key
    → has_key e.source key rows ≡ true
    → insert_event_row sqlite e rows ≡ ok (rows, false)
unfolding insert_event_row
duplicate_row e key rows keyed taken = rw (keyed, taken) refl

statement_lem :
    (e : Event) (db : Database) {rows : List Event} {created : Bool}
    → insert_event_row sqlite e db.events ≡ ok (rows, created)
    → insert_statement e db ≡ (record db { events = rows }, ok created)
unfolding insert_statement
statement_lem e db h =
    ap (λ r. transaction db λ t. r >>=ʳ λ x. ok (record t { events = x.0 }, x.1)) h

event_stored :
    (env : Env) (e : Event) (key : String) (s : Engine)
    → e.unique_key ≡ some key
    → env.fault s.calls ≡ false
    → has_key e.source key s.world.db.events ≡ false
    → has_event e.id s.world.db.events ≡ false
    → d1_insert_event env e s ≡ (with_events (s.world.db.events ++ e ∷ []) s, done true)
unfolding d1_insert_event call
event_stored env e key s keyed made fresh unused =
    rw (made, statement_lem e s.world.db (event_row e key s.world.db.events keyed fresh unused))
      refl

event_refused :
    (env : Env) (e : Event) (key : String) (s : Engine)
    → e.unique_key ≡ some key
    → env.fault s.calls ≡ false
    → has_key e.source key s.world.db.events ≡ true
    → d1_insert_event env e s ≡ (with_events s.world.db.events s, done false)
unfolding d1_insert_event call
event_refused env e key s keyed made taken =
    rw (made, statement_lem e s.world.db (duplicate_row e key s.world.db.events keyed taken)) refl

jobs_fail :
    (env : Env) (event_id : String) (spec : JobSpec) (specs : List JobSpec) (s : Engine)
    → env.fault s.calls ≡ true
    → d1_insert_jobs env event_id (spec ∷ specs) s
      ≡ (record s { calls = suc s.calls }, failed connection_lost)
unfolding d1_insert_jobs d1_insert_job call ◌>>◌
jobs_fail env event_id (id, handler, url, max) specs s lost = rw lost refl

-- On D1, if the request of an event's first job fails after that of the event, which has a key that
-- was free, the call fails, and the event stands in the table without a job. The repetition of the
-- call with the same source and key, whatever else it carries, is answered as a duplicate, and the
-- tables stay as they are, so that no job of the event is ever created by it.
pub d1_insert_event_and_jobs_loses :
    (env again : Env) (id id' source event_type event_type' payload payload' key : String)
    (headers headers' : Option String) (spec : JobSpec) (specs specs' : List JobSpec) (s : Engine)
    → env.fault s.calls ≡ false
    → env.fault (suc s.calls) ≡ true
    → again.fault (suc (suc s.calls)) ≡ false
    → has_key source key s.world.db.events ≡ false
    → has_event id s.world.db.events ≡ false
    → let e = row_of env id source event_type payload headers (some key) in
      let first =
        d1_insert_event_and_jobs env id source event_type payload headers
          (some key)
          (spec ∷ specs)
          s in
      let second =
        d1_insert_event_and_jobs again id' source event_type' payload' headers'
          (some key)
          specs'
          first.0 in
      (first.1 ≡ failed connection_lost)
      × (first.0.world.db ≡ record s.world.db { events = s.world.db.events ++ e ∷ [] })
      × (second.1 ≡ done false)
      × (second.0.world.db ≡ first.0.world.db)
unfolding d1_insert_event_and_jobs ◌>>=◌ ◌>>◌
d1_insert_event_and_jobs_loses env again id id' source event_type event_type' payload payload' key
      headers headers' spec specs specs' s made lost made' fresh unused =
    let e = row_of env id source event_type payload headers (some key) in
    let e' = row_of again id' source event_type' payload' headers' (some key) in
    let s₁ = with_events (s.world.db.events ++ e ∷ []) s in
    let s₂ = record s₁ { calls = suc (suc s.calls) } in
    let first : d1_insert_event_and_jobs env id source event_type payload headers (some key)
          (spec ∷ specs) s
        ≡ (s₂, failed connection_lost) =
      rw (event_stored env e key s refl made fresh unused, jobs_fail env id spec specs s₁ lost)
        refl in
    let taken : has_key source key s₂.world.db.events ≡ true =
      has_key-append e key s.world.db.events refl in
    rw (first, event_refused again e' key s₂ refl made' taken) (refl, refl, refl, refl)
