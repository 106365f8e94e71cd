-- ===== src/Workflow/Parents/Resume.antt =====
-- src/queue.rs, `resume_parent_workflow`: how many parents it follows at most.
use qhook.Prelude.{
  ℕ, zero, suc, ◌+◌, ◌<◌, ◌≡◌, refl, ◌∙◌, ap, Bool, true, false, Option, none, some, String, length,
  arith, Bool-cases, Option-cases, inl, inr,
}
use qhook.Sql.{find_where}
use qhook.Db.{Database, Result, ok, err}
use qhook.Db.Runs.{
  has_run_id, update_run, complete_workflow_run, get_workflow_run, get_parent_workflow_run, zip,
}
use qhook.Metrics.{inc_jobs_created}
use qhook.Workflow.{StepConfig, find_workflow, step_at}
use qhook.Worker.Deliver.{World}
use qhook.Workflow.Engine.{
  Env, Engine, unfinished, run_not_found, refused, connection_lost, not_json, workflow_not_found,
  step_not_found, callback_job_not_found, no_workflow_name, no_steps, invalid_params, Answer,
  failed, done, Task, given, ◌>>=◌, ◌>>◌, resume_with, call, read, write, tally, draw, stored,
}
use qhook.Workflow.Advance.{enqueue_step, enter_step, complete_run, resume_parent_workflow}
use qhook.Workflow.Parents.{IsOrdered, rank, rank-bound, rank-parent, rank-update, IsOrdered-update}

-- The bound on the parents was met.
abbrev pub is_unfinished : {A : Type 0} → Answer A → Bool
is_unfinished (failed unfinished) = true
is_unfinished _ = false

-- The task returns within the bound.
abbrev Ends : {A : Type 0} → Task A → Engine → Type 0
Ends task s = is_unfinished (task s).1 ≡ false

-- What follows a call that was made finds the database that the call left.
Ends-read :
    {A B : Type 0} (env : Env) (f : Database → A) (next : A → Task B) (s : Engine)
    → ((s' : Engine) → s'.world.db ≡ s.world.db → Ends (next (f s.world.db)) s')
    → Ends (read env f >>= next) s
unfolding ◌>>=◌ call
Ends-read env f next s h = elim (Bool-cases (env.fault s.calls)) [
  | inl lost_call ↦ rw lost_call refl
  | inr made ↦ rw made (h (record s { calls = suc s.calls }) refl)
]

Ends-write :
    {B : Type 0} (env : Env) (f : Database → Database) (next : Task B) (s : Engine)
    → ((s' : Engine) → s'.world.db ≡ f s.world.db → Ends next s')
    → Ends (write env f >> next) s
unfolding ◌>>◌ call
Ends-write env f next s h = elim (Bool-cases (env.fault s.calls)) [
  | inl lost_call ↦ rw lost_call refl
  | inr made ↦
      rw made
        (h (record s { calls = suc s.calls; world = record s.world { db = f s.world.db } }) refl)
]

Ends-complete :
    {B : Type 0} (env : Env) (name id : String) (next : Task B) (s : Engine)
    → ((s' : Engine) → s'.world.db ≡ complete_workflow_run env.now id s.world.db → Ends next s')
    → Ends (complete_run env name id >> next) s
unfolding ◌>>◌ call complete_run tally
Ends-complete env name id next s h = elim (Bool-cases (env.fault s.calls)) [
  | inl lost_call ↦ rw lost_call refl
  | inr made ↦ rw made (h _ refl)
]

stored-Ends :
    {A : Type 0} (w : World) (r : Database × Result A) → is_unfinished (stored w r).1 ≡ false
stored-Ends w (db, ok a) = refl
stored-Ends w (db, err e) = refl

call-Ends :
    {A : Type 0} (env : Env) (op : Database → Database × Result A) (s : Engine)
    → Ends (call env op) s
unfolding call
call-Ends env op s = elim (Bool-cases (env.fault s.calls)) [
  | inl lost_call ↦ rw lost_call refl
  | inr made ↦ rw made (stored-Ends s.world (op s.world.db))
]

resumed-Ends :
    {A B : Type 0} (next : A → Task B) (r : Engine × Answer A)
    → is_unfinished r.1 ≡ false
    → ((a : A) (s : Engine) → Ends (next a) s)
    → is_unfinished (resume_with next r).1 ≡ false
resumed-Ends next (s, failed unfinished) h k = h
resumed-Ends next (s, failed (refused e)) h k = refl
resumed-Ends next (s, failed connection_lost) h k = refl
resumed-Ends next (s, failed not_json) h k = refl
resumed-Ends next (s, failed (workflow_not_found n)) h k = refl
resumed-Ends next (s, failed (step_not_found n)) h k = refl
resumed-Ends next (s, failed (run_not_found n)) h k = refl
resumed-Ends next (s, failed callback_job_not_found) h k = refl
resumed-Ends next (s, failed no_workflow_name) h k = refl
resumed-Ends next (s, failed (no_steps n)) h k = refl
resumed-Ends next (s, failed (invalid_params n e)) h k = refl
resumed-Ends next (s, done a) h k = k a s

enqueue_step-Ends :
    (env : Env) (event_id workflow run_id : String) (i : ℕ) (step : StepConfig) (payload : String)
    (s : Engine)
    → Ends (enqueue_step env event_id workflow run_id i step payload) s
unfolding enqueue_step draw ◌>>=◌ ◌>>◌ tally
enqueue_step-Ends env event_id workflow run_id i step payload s =
    resumed-Ends (λ a. tally inc_jobs_created) _ (call-Ends env _ _) (λ a s'. refl)

enter_step-Ends :
    (env : Env) (event_id workflow run_id : String) (i : ℕ) (step : StepConfig) (payload : String)
    (s : Engine)
    → Ends (enter_step env event_id workflow run_id i step payload) s
unfolding enter_step
enter_step-Ends env event_id workflow run_id i step payload s =
    Ends-write env _ (enqueue_step env event_id workflow run_id i step payload) s
      (λ s' e. enqueue_step-Ends env event_id workflow run_id i step payload s')

-- The order of the runs, and how far down a run stands, after its parent is completed.
completed-IsOrdered :
    (now : ℕ) (id : String) (db : Database)
    → IsOrdered db.runs
    → IsOrdered (complete_workflow_run now id db).runs
unfolding complete_workflow_run update_run
completed-IsOrdered now id db o =
    IsOrdered-update (has_run_id id) _ (λ r. refl) (λ r. refl) db.runs o

completed-rank :
    (now : ℕ) (id x : String) (db : Database)
    → rank x (complete_workflow_run now id db).runs ≡ rank x db.runs
unfolding complete_workflow_run update_run
completed-rank now id x db = rank-update (has_run_id id) _ (λ r. refl) (λ r. refl) x db.runs

zip-parent :
    (parent : Option String) (index : Option ℕ) {p : String} {i : ℕ}
    → zip parent index ≡ some (p, i)
    → parent ≡ some p
zip-parent none none h = cc
zip-parent none (some n) h = cc
zip-parent (some q) none h = cc
zip-parent (some q) (some n) h = cc

parent-rank :
    (id : String) (db : Database) {p : String} {i : ℕ}
    → IsOrdered db.runs
    → get_parent_workflow_run id db ≡ some (p, i)
    → rank p db.runs < rank id db.runs
unfolding get_parent_workflow_run get_workflow_run
parent-rank id db {p} {i} o h = elim (Option-cases (find_where (has_run_id id) db.runs)) [
  | inl gone ↦ ground arith
  | inr (r, found) ↦
      (let k : zip r.parent_run_id r.parent_step_index ≡ some (p, i) = ground arith in
        rank-parent id p db.runs o found (zip-parent r.parent_run_id r.parent_step_index k))
]

given-Ends :
    {A B : Type 0} (o : Option A) (absent : Task B) (present : A → Task B) (s : Engine)
    → (o ≡ none → Ends absent s)
    → ((a : A) → o ≡ some a → Ends (present a) s)
    → Ends (given o absent present) s
given-Ends none absent present s h k = h refl
given-Ends (some a) absent present s h k = k a refl

-- A depth above the place of the run is enough.
resume-Ends :
    (depth : ℕ) (env : Env) (run_id event_id output : String) (s : Engine)
    → IsOrdered s.world.db.runs
    → rank run_id s.world.db.runs < depth
    → Ends (resume_parent_workflow depth env run_id event_id output) s
unfolding resume_parent_workflow
resume-Ends zero env run_id event_id output s o h = ground arith
resume-Ends (suc depth) env run_id event_id output s o h = Ends-read env _ _ s λ s₁ e₁.
    given-Ends (get_parent_workflow_run run_id s.world.db) _ _ s₁ (λ n. refl)
      λ p parent. Ends-read env _ _ s₁ λ s₂ e₂.
        given-Ends (get_workflow_run p.0 s₁.world.db) _ _ s₂ (λ n. refl)
          λ run found.
            given-Ends (find_workflow run.workflow env.workflows) _ _ s₂ (λ n. refl)
              λ workflow w.
                given-Ends (step_at workflow.steps (p.1 + 1)) _ _ s₂
                  (λ n. Ends-complete env run.workflow p.0 _ s₂ λ s₃ e₃.
                    let same : s₃.world.db ≡ complete_workflow_run env.now p.0 s.world.db =
                      e₃ ∙ ap (complete_workflow_run env.now p.0) (e₂ ∙ e₁) in
                    resume-Ends depth env p.0 event_id output s₃
                      (rw same (completed-IsOrdered env.now p.0 s.world.db o))
                      (rw (same, completed-rank env.now p.0 p.0 s.world.db)
                        (ground (arith, parent-rank run_id s.world.db o parent))))
                  (λ next k. enter_step-Ends env event_id run.workflow p.0 (p.1 + 1) next output s₂)

-- If every run is stored behind its parent, the parents of a run are followed to the end, whichever
-- calls of the database fail: a depth of one more than there are runs is never used up.
pub resume_parent_workflow_ends :
    (env : Env) (run_id event_id output : String) (s : Engine)
    → IsOrdered s.world.db.runs
    → is_unfinished
        (resume_parent_workflow (suc (length s.world.db.runs)) env run_id event_id output s).1
      ≡ false
resume_parent_workflow_ends env run_id event_id output s o =
    let h : rank run_id s.world.db.runs < suc (length s.world.db.runs) =
      ground (arith, rank-bound run_id s.world.db.runs) in
    resume-Ends (suc (length s.world.db.runs)) env run_id event_id output s o h
