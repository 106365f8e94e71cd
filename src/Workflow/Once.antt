-- ===== src/Workflow/Once.antt =====
-- src/queue.rs, `resume_callback`: requests that answer one callback.
use qhook.Prelude.{◌≡◌, refl, false, Option, String}
use qhook.Prelude.Classes.{string_eq}
use qhook.Db.{Run, Database}
use qhook.Db.Runs.{update_run}
use qhook.Db.Steps.{resume_callback_job}
use qhook.Db.Callback.{
  NoneWaiting, insert_workflow_job-NoneWaiting, resume-NoneWaiting, resume_none,
}
use qhook.Workflow.Engine.{Env, Engine, done, given, pure, ◌>>=◌, call}
use qhook.Workflow.Callback.{after_resume, resume_callback}
use qhook.Workflow.Sound.{Keeps, resume-kept, given-Keeps, pure-Keeps, stored-kept}
use qhook.Workflow.Sound.Answered.{after_resume-Keeps}

run_write-NoneWaiting :
    (token id : String) (f : Run → Run) (db : Database)
    → NoneWaiting token db
    → NoneWaiting token (update_run id f db)
unfolding update_run
run_write-NoneWaiting token id f db h = h

after_resume-NoneWaiting :
    (env : Env) (token payload job_id : String)
    → Keeps (NoneWaiting token) (after_resume env token payload job_id)
after_resume-NoneWaiting env token payload job_id =
    after_resume-Keeps (NoneWaiting token) (run_write-NoneWaiting token)
      (insert_workflow_job-NoneWaiting token) env token payload job_id

called-NoneWaiting :
    (env : Env) (token payload : String) (s : Engine)
    → env.fault s.calls ≡ false
    → NoneWaiting token (call env (resume_callback_job env.now token payload) s).0.world.db
unfolding call
called-NoneWaiting env token payload s made = rw made (
    stored-kept (NoneWaiting token) s.world (resume_callback_job env.now token payload s.world.db)
      (resume-NoneWaiting env.now token payload s.world.db))

-- After the answer of a callback, no job waits for the token.
answered-NoneWaiting :
    (env : Env) (token payload : String) (s : Engine)
    → env.fault s.calls ≡ false
    → NoneWaiting token (resume_callback env token payload s).0.world.db
unfolding resume_callback ◌>>=◌ Keeps
answered-NoneWaiting env token payload s made =
    let next : (o : Option String)
        → Keeps (NoneWaiting token) (given o (pure false) (after_resume env token payload)) =
      λ o.
        given-Keeps (NoneWaiting token) o (pure false) (after_resume env token payload)
          (pure-Keeps (NoneWaiting token) false) (after_resume-NoneWaiting env token payload) in
    resume-kept (NoneWaiting token) (λ o. given o (pure false) (after_resume env token payload))
      (call env (resume_callback_job env.now token payload) s)
      (called-NoneWaiting env token payload s made) next

unanswered :
    (env : Env) (token payload : String) (s : Engine)
    → env.fault s.calls ≡ false
    → NoneWaiting token s.world.db
    → let (s', answer) = resume_callback env token payload s in
      (answer ≡ done false) × (s'.world ≡ s.world)
unfolding resume_callback ◌>>=◌ call
unanswered env token payload s made h =
    rw (made, resume_none env.now token payload s.world.db h) (refl, refl)

-- A callback is answered once: if the first call of the database that an answer for a token makes
-- does not fail, whatever its later calls do and whether it found a waiting job or not, then every
-- further answer for the token, with any payload, whose first call does not fail either, is told that
-- no job waits and leaves the tables, the counters and the alerts as they are.
pub resume_callback_once :
    (env env' : Env) (token payload payload' : String) (s : Engine)
    → env.fault s.calls ≡ false
    → env'.fault (resume_callback env token payload s).0.calls ≡ false
    → let first = (resume_callback env token payload s).0 in
      let (second, answer) = resume_callback env' token payload' first in
      (answer ≡ done false) × (second.world ≡ first.world)
resume_callback_once env env' token payload payload' s made made' =
    unanswered env' token payload' _ made' (answered-NoneWaiting env token payload s made)
