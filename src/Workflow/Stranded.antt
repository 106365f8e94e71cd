-- ===== src/Workflow/Stranded.antt =====
-- src/queue.rs: a run that stays where it is, for a call of the database fails behind the completion
-- of its job.
use qhook.Prelude.{ℕ, suc, sym, ◌≡◌, refl, ◌∙◌, ap, true, false, some, Option, String, arith}
use qhook.Prelude.Classes.{string_eq}
use qhook.Db.{Job, Database, ok}
use qhook.Sql.Laws.{count_where-update_where}
use qhook.Db.Jobs.{
  mark_job_completed, update_jobs, complete, has_id, is_claimable, mark_job_running,
}
use qhook.Db.Steps.{resume_callback_job}
use qhook.Workflow.Engine.{
  Env, Engine, failed, done, ◌>>=◌, ◌>>◌, call, tally, attempt, succeeds, connection_lost,
}
use qhook.Workflow.Callback.{after_resume, resume_callback}
use qhook.Workflow.Success.{with_run, handle_workflow_step_success}
use qhook.Workflow.Deliver.{Client, close_breaker, on_step_success}
use qhook.Workflow.Once.{resume_callback_once}

-- The callback's row is completed, and the next call is lost.
resumed_then_lost :
    (env : Env) (token payload id : String) (s : Engine) (db : Database)
    → env.fault s.calls ≡ false
    → env.fault (suc s.calls) ≡ true
    → resume_callback_job env.now token payload s.world.db ≡ (db, ok (some id))
    → let (s', answer) = resume_callback env token payload s in
      (answer ≡ failed connection_lost) × (s'.world.db ≡ db) × (s'.calls ≡ suc (suc s.calls))
unfolding resume_callback after_resume ◌>>=◌ ◌>>◌ tally call
resumed_then_lost env token payload id s db made lost found =
    rw (made, found, lost) (refl, refl, refl)

resume_callback_job-runs :
    (now : ℕ) (token payload : String) (db : Database)
    → (resume_callback_job now token payload db).0.runs ≡ db.runs
unfolding resume_callback_job update_jobs
resume_callback_job-runs now token payload db = ground arith

-- If the first call of an answer to a callback completes the waiting job and the second fails, then
-- the answer is an error and no run has changed; and the repetition of the answer, with any payload,
-- is told that no job waits and changes nothing, so that no answer makes the run go on.
pub resume_callback_strands :
    (env again : Env) (token payload payload' id : String) (s : Engine) (db : Database)
    → env.fault s.calls ≡ false
    → env.fault (suc s.calls) ≡ true
    → again.fault (suc (suc s.calls)) ≡ false
    → resume_callback_job env.now token payload s.world.db ≡ (db, ok (some id))
    → let (first, answer) = resume_callback env token payload s in
      let (second, answer') = resume_callback again token payload' first in
      (answer ≡ failed connection_lost)
      × (first.world.db.runs ≡ s.world.db.runs)
      × (answer' ≡ done false)
      × (second.world ≡ first.world)
resume_callback_strands env again token payload payload' id s db made lost made' found =
    let (answer, tables, calls) = resumed_then_lost env token payload id s db made lost found in
    let (refused, same) =
      resume_callback_once env again token payload payload' s made (rw calls made') in
    (
      answer,
      ap (λ d. d.runs) tables
          ∙ ap (λ r. r.0.runs) (sym found)
          ∙ resume_callback_job-runs env.now token payload s.world.db,
      refused,
      same,
    )

completed_not_claimable :
    (now : ℕ) (id : String) (j : Job) → is_claimable id (complete now j) ≡ false
unfolding is_claimable
completed_not_claimable now id j = ground arith

other_not_claimable : (id : String) (j : Job) → has_id id j ≡ false → is_claimable id j ≡ false
unfolding is_claimable has_id
other_not_claimable id j h = ground arith

never_claimed :
    (now later : ℕ) (id : String) (db : Database)
    → (mark_job_running later id (mark_job_completed now id db)).1 ≡ false
unfolding mark_job_running mark_job_completed
never_claimed now later id db =
    rw
      (count_where-update_where (is_claimable id) (has_id id) (complete now)
        (λ j e. completed_not_claimable now id j) (λ j e. other_not_claimable id j e) db.jobs)
      refl

-- If a step's job is completed and the next call of the database fails, then the delivery ends
-- without an error, no run has changed, and the job can never be claimed again, so that no delivery
-- of it makes the run go on.
pub on_step_success_strands :
    (client : Client) (env : Env) (job : Job) (body : Option String) (s : Engine) (later : ℕ)
    → env.fault s.calls ≡ false
    → env.fault (suc s.calls) ≡ true
    → let (s', answer) = on_step_success client env job body s in
      (answer ≡ done tt)
      × (s'.world.db.runs ≡ s.world.db.runs)
      × ((mark_job_running later job.id s'.world.db).1 ≡ false)
unfolding on_step_success close_breaker handle_workflow_step_success with_run succeeds attempt tally
    call ◌>>=◌ ◌>>◌ mark_job_completed
on_step_success_strands client env job body s later made lost =
    rw (made, lost)
      (refl, refl, unfold mark_job_completed in never_claimed env.now later job.id s.world.db)
