-- ===== src/Workflow/Sound.antt =====
-- What the tasks that run workflows keep true of the tables: the rules.
use qhook.Prelude.{
  ℕ, ◌≡◌, refl, Bool, true, false, Option, none, some, String, arith, if◌then◌else◌, Bool-cases,
  inl, inr,
}
use qhook.Db.{Database, Result, ok, err}
use qhook.Metrics.{Metrics}
use qhook.Worker.Deliver.{World, AlertEvent, send}
use qhook.Workflow.Engine.{
  Env, Engine, Error, Answer, failed, done, Task, pure, fail, given, ◌>>=◌, ◌>>◌, resume_with, call,
  write, read, tally, alert, draw, attempt, ok_or_none, succeeds, matched, handled, stored,
  unless_failed, succeeded,
}
pub mod Runs
pub mod Answered
pub mod Steps
pub mod Handlers
pub mod Deliver

module _ (P : Database → Type 0) where
  -- The task keeps what holds of the tables, whatever it returns.
  unfoldable pub Keeps : {A : Type 0} → Task A → Type 0
  Keeps task = (s : Engine) → P s.world.db → P (task s).0.world.db

  pub resume-kept :
      {A B : Type 0} (next : A → Task B) (r : Engine × Answer A)
      → P r.0.world.db
      → ((a : A) (s : Engine) → P s.world.db → P (next a s).0.world.db)
      → P (resume_with next r).0.world.db
  resume-kept next (s, failed e) v k = v
  resume-kept next (s, done a) v k = k a s v

  handled-kept :
      {A B : Type 0} (otherwise : Task B) (next : A → Task B) (r : Engine × Answer A)
      → P r.0.world.db
      → ((s : Engine) → P s.world.db → P (otherwise s).0.world.db)
      → ((a : A) (s : Engine) → P s.world.db → P (next a s).0.world.db)
      → P (handled otherwise next r).0.world.db
  handled-kept otherwise next (s, failed e) v k h = k s v
  handled-kept otherwise next (s, done a) v k h = h a s v

  pub bind-Keeps :
      {A B : Type 0} (first : Task A) (next : A → Task B)
      → Keeps first
      → ((a : A) → Keeps (next a))
      → Keeps (first >>= next)
  unfolding Keeps ◌>>=◌
  bind-Keeps first next h k s v = resume-kept next (first s) (h s v) k

  pub then-Keeps :
      {A B : Type 0} (first : Task A) (next : Task B)
      → Keeps first
      → Keeps next
      → Keeps (first >> next)
  unfolding Keeps ◌>>◌
  then-Keeps first next h k s v = resume-kept (λ a. next) (first s) (h s v) (λ a. k)

  pub matched-Keeps :
      {A B : Type 0} (task : Task A) (otherwise : Task B) (next : A → Task B)
      → Keeps task
      → Keeps otherwise
      → ((a : A) → Keeps (next a))
      → Keeps (matched task otherwise next)
  unfolding Keeps matched
  matched-Keeps task otherwise next h k l s v = handled-kept otherwise next (task s) (h s v) k l

  pub pure-Keeps : {A : Type 0} (a : A) → Keeps (pure a)
  unfolding Keeps
  pure-Keeps a s v = v

  pub fail-Keeps : (A : Type 0) (e : Error) → Keeps {A = A} (fail e)
  unfolding Keeps
  fail-Keeps A e s v = v

  pub given-Keeps :
      {A B : Type 0} (o : Option A) (absent : Task B) (present : A → Task B)
      → Keeps absent
      → ((a : A) → Keeps (present a))
      → Keeps (given o absent present)
  given-Keeps none absent present h k = h
  given-Keeps (some a) absent present h k = k a

  pub if-Keeps :
      {A : Type 0} (b : Bool) (t e : Task A) → Keeps t → Keeps e → Keeps (if b then t else e)
  if-Keeps true t e h k = h
  if-Keeps false t e h k = k

  pub attempt-Keeps : (task : Task (Unit {0})) → Keeps task → Keeps (attempt task)
  unfolding Keeps attempt
  attempt-Keeps task h s v = h s v

  unless_failed-kept :
      {A : Type 0} (r : Engine × Answer (Option A))
      → P r.0.world.db
      → P (unless_failed r).0.world.db
  unless_failed-kept (s, failed e) v = v
  unless_failed-kept (s, done a) v = v

  succeeded-kept : (r : Engine × Answer (Unit {0})) → P r.0.world.db → P (succeeded r).0.world.db
  succeeded-kept (s, failed e) v = v
  succeeded-kept (s, done a) v = v

  pub succeeds-Keeps : (task : Task (Unit {0})) → Keeps task → Keeps (succeeds task)
  unfolding Keeps succeeds
  succeeds-Keeps task h s v = succeeded-kept (task s) (h s v)

  pub ok_or_none-Keeps :
      {A : Type 0} (task : Task (Option A)) → Keeps task → Keeps (ok_or_none task)
  unfolding Keeps ok_or_none
  ok_or_none-Keeps task h s v = unless_failed-kept (task s) (h s v)

  pub tally-Keeps : (f : Metrics → Metrics) → Keeps (tally f)
  unfolding Keeps tally
  tally-Keeps f s v = v

  pub alert-Keeps : (e : AlertEvent) → Keeps (alert e)
  unfolding Keeps alert send
  alert-Keeps e s v = elim (Bool-cases s.world.alerting) [ inl on ↦ rw on v | inr off ↦ rw off v ]

  pub draw-Keeps : (env : Env) → Keeps (draw env)
  unfolding Keeps draw
  draw-Keeps env s v = v

  pub stored-kept : {A : Type 0} (w : World) (r : Database × Result A) → P r.0 → P (stored w r).0.db
  stored-kept w (db, ok a) v = v
  stored-kept w (db, err e) v = v

  pub call-Keeps :
      {A : Type 0} (env : Env) (op : Database → Database × Result A)
      → ((db : Database) → P db → P (op db).0)
      → Keeps (call env op)
  unfolding Keeps call
  call-Keeps env op h s v = elim (Bool-cases (env.fault s.calls)) [
    | inl lost_call ↦ rw lost_call v
    | inr made ↦ rw made (stored-kept s.world (op s.world.db) (h s.world.db v))
  ]

  pub read-Keeps : {A : Type 0} (env : Env) (f : Database → A) → Keeps (read env f)
  read-Keeps env f = call-Keeps env _ (λ db v. v)

  pub write-Keeps :
      (env : Env) (f : Database → Database)
      → ((db : Database) → P db → P (f db))
      → Keeps (write env f)
  write-Keeps env f h = call-Keeps env _ h

pub ruleset keeps = (
  pure-Keeps, fail-Keeps, bind-Keeps, then-Keeps, matched-Keeps, given-Keeps, if-Keeps,
  attempt-Keeps, ok_or_none-Keeps, succeeds-Keeps, tally-Keeps, alert-Keeps, draw-Keeps, read-Keeps,
)
