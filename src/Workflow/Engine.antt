-- ===== src/Workflow/Engine.antt =====
-- src/queue.rs: what the functions that run workflows share. Each is a task: it changes the tables,
-- the counters and the alerts, and it returns a value or an error, which the operator `?` hands on.
use qhook.Prelude.{ℕ, suc, Bool, true, false, Option, none, some, String, List, if◌then◌else◌}
use qhook.Db.{Database, DbError, Result, ok, err}
use qhook.Metrics.{Metrics}
use qhook.Json.{Serde}
use qhook.Api.Filter.{Matchers}
use qhook.Workflow.{WorkflowConfig}
use qhook.Workflow.Params.{ParamError}
use qhook.Worker.Deliver.{World, AlertEvent, count, send}

-- The configuration, and what the functions take from elsewhere: the ULIDs in the order in which
-- they are drawn, the time, the random factor of a backoff, the far future of a callback's row,
-- which of the calls of the database fail with no effect, how many parents of a run are followed at
-- most, the JSON library, the time library, how a number is printed, what filters use of numbers
-- and patterns, and `apply_transform` of src/api.rs, for templates on which it returns.
pub record Env : Type 0 where
  pub workflows : List (String × WorkflowConfig)
  pub default_retry_max : ℕ
  pub ulid : ℕ → String
  pub now : ℕ
  pub jitter : ℕ → ℕ
  pub far_future : ℕ
  pub fault : ℕ → Bool
  pub depth : ℕ
  pub serde : Serde
  pub parse_timestamp : String → Option ℕ
  pub from_timestamp : String → Option ℕ
  pub decimal : ℕ → String
  pub apply_transform : String → String → String
  pub matchers : Matchers

-- The state, with the number of ULIDs drawn and of calls of the database made.
pub record Engine : Type 0 where
  pub world : World
  pub drawn : ℕ
  pub calls : ℕ

-- Why a function returns early with an error. The last is the model's: more parents than `depth`.
pub data Error : Type 0 where
  refused : DbError → Error
  connection_lost : Error
  not_json : Error
  workflow_not_found : String → Error
  step_not_found : String → Error
  run_not_found : String → Error
  callback_job_not_found : Error
  no_workflow_name : Error
  no_steps : String → Error
  invalid_params : String → ParamError → Error
  unfinished : Error

pub data Answer (A : Type 0) : Type 0 where
  failed : Error → Answer A
  done : A → Answer A

abbrev pub Task : Type 0 → Type 0
Task A = Engine → Engine × Answer A

abbrev pub pure : {A : Type 0} → A → Task A
pure a s = (s, done a)

abbrev pub fail : {A : Type 0} → Error → Task A
fail e s = (s, failed e)

abbrev pub resume_with : {A B : Type 0} → (A → Task B) → Engine × Answer A → Engine × Answer B
resume_with next (s, failed e) = (s, failed e)
resume_with next (s, done a) = next a s

infixl 5 ◌>>=◌
unfoldable pub ◌>>=◌ : {A B : Type 0} → Task A → (A → Task B) → Task B
(first >>= next) s = resume_with next (first s)

infixl 5 ◌>>◌
unfoldable pub ◌>>◌ : {A B : Type 0} → Task A → Task B → Task B
(first >> next) s = resume_with (λ a. next) (first s)

-- `if let Err(e) = .. { tracing::error!(..) }` and `let _ = ..`: an error is not handed on.
abbrev pub forgive : Engine × Answer (Unit {0}) → Engine × Answer (Unit {0})
forgive (s, a) = (s, done tt)

unfoldable pub attempt : Task (Unit {0}) → Task (Unit {0})
attempt task s = forgive (task s)

-- `match` on an Option: the value, or what is done without.
abbrev pub given : {A B : Type 0} → Option A → Task B → (A → Task B) → Task B
given none absent present = absent
given (some a) absent present = present a

abbrev pub stored : {A : Type 0} → World → Database × Result A → World × Answer A
stored w (db, ok a) = (record w { db = db }, done a)
stored w (db, err e) = (record w { db = db }, failed (refused e))

abbrev pub lost : {A : Type 0} → World → World × Answer A
lost w = (w, failed connection_lost)

-- A call of the database, which can fail.
unfoldable pub call : {A : Type 0} → Env → (Database → Database × Result A) → Task A
call env op s =
    let (w, a) = if env.fault s.calls then lost s.world else stored s.world (op s.world.db) in
    (record s { world = w; calls = suc s.calls }, a)

-- A statement with no result to refuse, and a query.
abbrev pub write : Env → (Database → Database) → Task (Unit {0})
write env f = call env (λ db. (f db, ok tt))

abbrev pub read : {A : Type 0} → Env → (Database → A) → Task A
read env f = call env (λ db. (db, ok (f db)))

unfoldable pub tally : (Metrics → Metrics) → Task (Unit {0})
tally f s = (record s { world = count f s.world }, done tt)

unfoldable pub alert : AlertEvent → Task (Unit {0})
alert e s = (record s { world = send e s.world }, done tt)

unfoldable pub draw : Env → Task String
draw env s = (record s { drawn = suc s.drawn }, done (env.ulid s.drawn))

-- `if let Ok(Some(..))`: an error counts as a missing value.
abbrev pub unless_failed : {A : Type 0} → Engine × Answer (Option A) → Engine × Answer (Option A)
unless_failed (s, failed e) = (s, done none)
unless_failed (s, done a) = (s, done a)

unfoldable pub ok_or_none : {A : Type 0} → Task (Option A) → Task (Option A)
ok_or_none task s = unless_failed (task s)

abbrev pub succeeded : Engine × Answer (Unit {0}) → Engine × Answer Bool
succeeded (s, failed e) = (s, done false)
succeeded (s, done a) = (s, done true)

-- `if let Err(e) = .. { .. }`: whether the task returned no error.
unfoldable pub succeeds : Task (Unit {0}) → Task Bool
succeeds task s = succeeded (task s)

abbrev pub handled : {A B : Type 0} → Task B → (A → Task B) → Engine × Answer A → Engine × Answer B
handled otherwise next (s, failed e) = otherwise s
handled otherwise next (s, done a) = next a s

-- `match` on a Result: what is done after an error, and with a value.
unfoldable pub matched : {A B : Type 0} → Task A → Task B → (A → Task B) → Task B
matched task otherwise next s = handled otherwise next (task s)
