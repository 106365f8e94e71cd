-- ===== src/Workflow/Forked.antt =====
-- src/queue.rs, `handle_parallel_step` and `handle_map_step`: the jobs that a fork creates.
use qhook.Prelude.{
  ℕ, suc, ◌≤◌, ◌≡◌, refl, sym, ◌∙◌, ap, false, some, String, List, [], ◌∷◌, ◌++◌, length, min,
  arith, eq_iff, Bool-cases, inl, inr,
}
use qhook.Prelude.Classes.{◌==◌, string_eq}
use mathlib.Core.List.{append-nil, append_assoc}
use qhook.Sql.{exists_where}
use qhook.Db.{Job, clamp_i32}
use qhook.Db.Runs.{update_run, set_parallel_state}
use qhook.Db.Steps.{insert_branch_job}
use qhook.Workflow.{StepConfig}
use qhook.Workflow.Handler.{workflow_part}
use qhook.Workflow.Engine.{
  Env, Engine, Answer, failed, done, Task, ◌>>=◌, ◌>>◌, resume_with, call, tally, draw,
}
use qhook.Workflow.Advance.{spec_of}
use qhook.Workflow.Fanout.{Branch, create_branch, create_branches, fork_run}
use qhook.Workflow.Rows.{change_run, step_row, index_of, set_parallel_state-runs}
use qhook.Workflow.Progress.{NoFault, called, write-made, has_job_id, insert_row-fresh}

-- The job of a branch that is created with the given ULID.
abbrev pub branch_job : Env → Job → Job → String → StepConfig → String → Branch → Job
branch_job env job row run_id step id b =
    record (step_row env id job.event_id (workflow_part job.handler) b.url run_id
      (index_of row.step_index) step b.input) { branch_name = some b.name }

-- One job for each branch, with the ULIDs from the n-th on.
unfoldable pub branch_jobs : Env → Job → Job → String → StepConfig → ℕ → List Branch → List Job
branch_jobs env job row run_id step n [] = []
branch_jobs env job row run_id step n (b ∷ bs) =
    branch_job env job row run_id step (env.ulid n) b
    ∷ branch_jobs env job row run_id step (suc n) bs

-- No two ULIDs are the same, and from the n-th on none is the id of a job.
abbrev pub FreshFrom : Env → ℕ → List Job → Type 0
FreshFrom env n jobs = (m : ℕ) → n ≤ m → has_job_id (env.ulid m) jobs ≡ false

abbrev pub IsInjective : Env → Type 0
IsInjective env = (m n : ℕ) → env.ulid m ≡ env.ulid n → m ≡ n

has_job_id-append :
    (x : String) (rows : List Job) (j : Job)
    → has_job_id x rows ≡ false
    → (j.id == x) ≡ false
    → has_job_id x (rows ++ j ∷ []) ≡ false
unfolding exists_where
has_job_id-append x [] j h k = rw k refl
has_job_id-append x (r ∷ rows) j h k = ground (arith, has_job_id-append x rows j)

fresh_after :
    (env : Env) (n : ℕ) (rows : List Job) (j : Job)
    → IsInjective env
    → j.id ≡ env.ulid n
    → FreshFrom env n rows
    → FreshFrom env (suc n) (rows ++ j ∷ [])
fresh_after env n rows j inj e fresh m le =
    let old : has_job_id (env.ulid m) rows ≡ false = fresh m (omega arith) in
    let new : (j.id == env.ulid m) ≡ false = elim (Bool-cases (j.id == env.ulid m)) [
      | inl same ↦
          (let k : n ≡ m = inj n m (sym e ∙ (eq_iff j.id (env.ulid m)).0 same) in ground arith)
      | inr other ↦ other
    ] in
    has_job_id-append (env.ulid m) rows j old new

create_branch-made :
    (env : Env) (job row : Job) (run_id : String) (step : StepConfig) (b : Branch) (s : Engine)
    → NoFault env
    → has_job_id (env.ulid s.drawn) s.world.db.jobs ≡ false
    → let (s', a) = create_branch env job row run_id step b s in
      (a ≡ done tt)
      × (s'.world.db ≡ (record s.world.db {
        jobs = s.world.db.jobs ++ branch_job env job row run_id step (env.ulid s.drawn) b ∷ [];
      }))
      × (s'.drawn ≡ suc s.drawn)
unfolding create_branch insert_branch_job tally draw ◌>>=◌ ◌>>◌ call spec_of
create_branch-made env job row run_id step b s nf fresh =
    let j = branch_job env job row run_id step (env.ulid s.drawn) b in
    rw (nf s.calls, insert_row-fresh j s.world.db refl fresh) (refl, refl, refl)

-- What follows a task that returned a value.
resume-done :
    {A B : Type 0} (next : Task B) (r : Engine × Answer A) {a : A}
    → r.1 ≡ done a
    → resume_with (λ x. next) r ≡ next r.0
resume-done next (s, failed e) h = cc
resume-done next (s, done x) h = refl

pub done-then :
    {A B : Type 0} (first : Task A) (next : Task B) (s : Engine) {a : A}
    → (first s).1 ≡ done a
    → (first >> next) s ≡ next (first s).0
unfolding ◌>>◌
done-then first next s h = resume-done next (first s) h

create_branches-made :
    (env : Env) (job row : Job) (run_id : String) (step : StepConfig) (bs : List Branch)
    (s : Engine)
    → NoFault env
    → IsInjective env
    → FreshFrom env s.drawn s.world.db.jobs
    → let (s', a) = create_branches env job row run_id step bs s in
      (a ≡ done tt)
      × (s'.world.db.jobs ≡ s.world.db.jobs ++ branch_jobs env job row run_id step s.drawn bs)
      × (s'.world.db.runs ≡ s.world.db.runs)
unfolding create_branches branch_jobs
create_branches-made env job row run_id step [] s nf inj fresh =
    (refl, sym (append-nil s.world.db.jobs), refl)
create_branches-made env job row run_id step (b ∷ bs) s nf inj fresh =
    let j = branch_job env job row run_id step (env.ulid s.drawn) b in
    let s' = (create_branch env job row run_id step b s).0 in
    let (returned, stored, drawn) =
      create_branch-made env job row run_id step b s nf (fresh s.drawn (omega arith)) in
    let jobs : s'.world.db.jobs ≡ s.world.db.jobs ++ j ∷ [] = ap (λ d. d.jobs) stored in
    let fresh' : FreshFrom env s'.drawn s'.world.db.jobs =
      rw (drawn, jobs) (fresh_after env s.drawn s.world.db.jobs j inj refl fresh) in
    let (rest, more, same) = create_branches-made env job row run_id step bs s' nf inj fresh' in
    let first = create_branch env job row run_id step b in
    rw (done-then first (create_branches env job row run_id step bs) s returned) (
      rest,
      more ∙ rw (jobs, drawn) (append_assoc s.world.db.jobs (j ∷ []) _),
      same ∙ ap (λ d. d.runs) stored,
    )

length-branch_jobs :
    (env : Env) (job row : Job) (run_id : String) (step : StepConfig) (n : ℕ) (bs : List Branch)
    → length (branch_jobs env job row run_id step n bs) ≡ length bs
unfolding branch_jobs
length-branch_jobs env job row run_id step n [] = refl
length-branch_jobs env job row run_id step n (b ∷ bs) =
    ap suc (length-branch_jobs env job row run_id step (suc n) bs)

-- If no call of the database fails, the ULIDs differ and those to be drawn are new, then a parallel
-- or map step creates one job for each of its branches, in their order, with their names, URLs and
-- inputs and the step's run, and no other; and the run counts none of them as completed, out of as
-- many as there are, up to the largest i32.
pub fork_run_creates :
    (env : Env) (job row : Job) (run_id : String) (step : StepConfig) (bs : List Branch)
    (s : Engine)
    → NoFault env
    → IsInjective env
    → FreshFrom env s.drawn s.world.db.jobs
    → let (s', a) = fork_run env job row run_id step bs s in
      let created = branch_jobs env job row run_id step s.drawn bs in
      (a ≡ done tt)
      × (s'.world.db.jobs ≡ s.world.db.jobs ++ created)
      × (length created ≡ length bs)
      × (s'.world.db.runs
          ≡ change_run run_id
              (λ r. record r {
                parallel_step = some step.name;
                parallel_count = min (length bs) 2147483647;
                parallel_completed = 0;
              })
              s.world.db.runs)
unfolding fork_run set_parallel_state update_run
fork_run_creates env job row run_id step bs s nf inj fresh =
    let db = set_parallel_state run_id step.name (clamp_i32 (length bs)) s.world.db in
    let (returned, jobs, runs) =
      create_branches-made env job row run_id step bs (called db s) nf inj fresh in
    rw (write-made env _ (create_branches env job row run_id step bs) s nf) (
      returned,
      jobs,
      length-branch_jobs env job row run_id step s.drawn bs,
      runs ∙ set_parallel_state-runs run_id step.name (clamp_i32 (length bs)) s.world.db,
    )
