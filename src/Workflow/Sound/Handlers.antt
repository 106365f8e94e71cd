-- ===== src/Workflow/Sound/Handlers.antt =====
-- The tasks that run workflows keep the table of jobs valid: the steps that need no delivery, the
-- callbacks and the deliveries.
use qhook.Prelude.{ℕ, some, String, List, [], ◌∷◌, ◌++◌, Bool-cases, inl, inr}
use qhook.Sql.{exists_where}
use qhook.Db.{Job, Run, Database}
use qhook.Db.Runs
use qhook.Db.Runs.{has_run_id, insert_run}
use qhook.Db.Steps
use qhook.Db.Steps.{StepSpec}
use qhook.Db.Invariant.Rows.{IsValid}
use qhook.Db.Invariant.Sequences as Seq
use qhook.Json.{Value}
use qhook.Workflow.{StepConfig}
use qhook.Workflow.Engine.{Env, call, write}
use qhook.Workflow.Success.{handle_workflow_step_success}
use qhook.Workflow.Fanout.{
  Branch, create_branch, create_branches, fork_run, handle_parallel_step, handle_no_items,
  fork_items, handle_map_step,
}
use qhook.Workflow.Route.{
  handle_choice_step, wait_until, enqueue_delayed, handle_wait_step, launch,
  handle_subworkflow_step,
}
use qhook.Workflow.Callback.{create_callback, handle_callback_step, resume_callback}
use qhook.Workflow.Sound.{Keeps, keeps, call-Keeps, write-Keeps}
use qhook.Workflow.Sound.Answered.{after_resume-Keeps}
use qhook.Workflow.Sound.Steps.{
  step-IsValid, runs, update_run-IsValid, saved-Keeps, with_run-Keeps, success-Keeps,
}

branch_row-Keeps :
    (env : Env) (s : StepSpec) (branch : String)
    → Keeps IsValid (call env (Steps.insert_branch_job s branch env.now))
branch_row-Keeps env s branch =
    call-Keeps IsValid env _ (Seq.execute-IsValid (Seq.insert_branch_job s branch env.now))

delayed_row-Keeps :
    (env : Env) (s : StepSpec) (at : ℕ)
    → Keeps IsValid (call env (Steps.insert_workflow_job_delayed s at env.now))
delayed_row-Keeps env s at =
    call-Keeps IsValid env _ (Seq.execute-IsValid (Seq.insert_workflow_job_delayed s at env.now))

callback_row-Keeps :
    (env : Env) (s : StepSpec) (token : String)
    → Keeps IsValid (call env (Steps.insert_callback_job s token env.far_future env.now))
callback_row-Keeps env s token =
    call-Keeps IsValid env _
      (Seq.execute-IsValid (Seq.insert_callback_job s token env.far_future env.now))

resumed-Keeps :
    (env : Env) (token payload : String)
    → Keeps IsValid (call env (Steps.resume_callback_job env.now token payload))
resumed-Keeps env token payload =
    call-Keeps IsValid env _ (Seq.execute-IsValid (Seq.resume_callback_job env.now token payload))

parallel-Keeps :
    (env : Env) (id step : String) (n : ℕ)
    → Keeps IsValid (write env (Runs.set_parallel_state id step n))
unfolding Runs.set_parallel_state
parallel-Keeps env id step n = write-Keeps IsValid env _ (update_run-IsValid id _)

pub insert_run-IsValid : (r : Run) (db : Database) → IsValid db → IsValid (insert_run r db).0
unfolding insert_run
insert_run-IsValid r db v =
    let stored : IsValid (record db { runs = db.runs ++ r ∷ [] }) = record {
      rows = v.rows;
      ids = v.ids;
    } in
    elim (Bool-cases (exists_where (has_run_id r.id) db.runs)) [
      | inl taken ↦ rw taken v
      | inr free ↦ rw free stored
    ]

sub_run-Keeps :
    (env : Env) (id workflow event_id first parent : String) (i : ℕ)
    → Keeps IsValid
        (call env (Runs.insert_sub_workflow_run id workflow event_id first parent i env.now))
unfolding Runs.insert_sub_workflow_run
sub_run-Keeps env id workflow event_id first parent i =
    call-Keeps IsValid env _ (insert_run-IsValid _)

create_branch-Keeps :
    (env : Env) (job row : Job) (run_id : String) (step : StepConfig) (b : Branch)
    → Keeps IsValid (create_branch env job row run_id step b)
unfolding create_branch
create_branch-Keeps env job row run_id step b = search (keeps, branch_row-Keeps)

create_branches-Keeps :
    (env : Env) (job row : Job) (run_id : String) (step : StepConfig) (bs : List Branch)
    → Keeps IsValid (create_branches env job row run_id step bs)
unfolding create_branches
create_branches-Keeps env job row run_id step [] = search keeps
create_branches-Keeps env job row run_id step (b ∷ bs) =
    let rest = create_branches-Keeps env job row run_id step bs in
    search (keeps, create_branch-Keeps, rest)

fork_run-Keeps :
    (env : Env) (job row : Job) (run_id : String) (step : StepConfig) (bs : List Branch)
    → Keeps IsValid (fork_run env job row run_id step bs)
unfolding fork_run
fork_run-Keeps env job row run_id step bs = search (keeps, parallel-Keeps, create_branches-Keeps)

pub handle_parallel_step-Keeps :
    (env : Env) (job : Job) (step : StepConfig) → Keeps IsValid (handle_parallel_step env job step)
unfolding handle_parallel_step
handle_parallel_step-Keeps env job step = search (keeps, with_run-Keeps, fork_run-Keeps)

no_items-Keeps : (env : Env) (job : Job) → Keeps IsValid (handle_no_items env job)
unfolding handle_no_items
no_items-Keeps env job =
    let success : Keeps IsValid
        (handle_workflow_step_success (record env { workflows = [] }) job (some "[]")) =
      success-Keeps (record env { workflows = [] }) job (some "[]") in
    search (keeps, saved-Keeps, success)

fork_items-Keeps :
    (env : Env) (job row : Job) (run_id : String) (step : StepConfig) (vs : List Value)
    → Keeps IsValid (fork_items env job row run_id step vs)
fork_items-Keeps env job row run_id step [] = no_items-Keeps env job
fork_items-Keeps env job row run_id step (v ∷ vs) = fork_run-Keeps env job row run_id step _

pub handle_map_step-Keeps :
    (env : Env) (job : Job) (step : StepConfig) → Keeps IsValid (handle_map_step env job step)
unfolding handle_map_step
handle_map_step-Keeps env job step = search (keeps, with_run-Keeps, fork_items-Keeps) depth 12

pub handle_choice_step-Keeps :
    (env : Env) (job : Job) (step : StepConfig) → Keeps IsValid (handle_choice_step env job step)
unfolding handle_choice_step
handle_choice_step-Keeps env job step = search (keeps, with_run-Keeps, runs) depth 12

wait_until-Keeps :
    (env : Env) (step : StepConfig) (payload : String) → Keeps IsValid (wait_until env step payload)
unfolding wait_until
wait_until-Keeps env step payload = search keeps depth 12

enqueue_delayed-Keeps :
    (env : Env) (event_id workflow run_id : String) (i : ℕ) (step : StepConfig) (payload : String)
    (at : ℕ)
    → Keeps IsValid (enqueue_delayed env event_id workflow run_id i step payload at)
unfolding enqueue_delayed
enqueue_delayed-Keeps env event_id workflow run_id i step payload at =
    search (keeps, runs, delayed_row-Keeps) depth 12

pub handle_wait_step-Keeps :
    (env : Env) (job : Job) (step : StepConfig) → Keeps IsValid (handle_wait_step env job step)
unfolding handle_wait_step
handle_wait_step-Keeps env job step =
    search (keeps, with_run-Keeps, wait_until-Keeps, runs, enqueue_delayed-Keeps) depth 12

launch-Keeps :
    (env : Env) (job row : Job) (run_id name : String) (first : StepConfig)
    → Keeps IsValid (launch env job row run_id name first)
unfolding launch
launch-Keeps env job row run_id name first = search (keeps, sub_run-Keeps, runs) depth 12

pub handle_subworkflow_step-Keeps :
    (env : Env) (job : Job) (step : StepConfig)
    → Keeps IsValid (handle_subworkflow_step env job step)
unfolding handle_subworkflow_step
handle_subworkflow_step-Keeps env job step = search (keeps, with_run-Keeps, launch-Keeps) depth 12

create_callback-Keeps :
    (env : Env) (job row : Job) (run_id : String) (step : StepConfig)
    → Keeps IsValid (create_callback env job row run_id step)
unfolding create_callback
create_callback-Keeps env job row run_id step = search (keeps, callback_row-Keeps) depth 12

pub handle_callback_step-Keeps :
    (env : Env) (job : Job) (step : StepConfig) → Keeps IsValid (handle_callback_step env job step)
unfolding handle_callback_step
handle_callback_step-Keeps env job step =
    search (keeps, with_run-Keeps, create_callback-Keeps) depth 12

pub resume_callback-Keeps :
    (env : Env) (token payload : String) → Keeps IsValid (resume_callback env token payload)
unfolding resume_callback
resume_callback-Keeps env token payload =
    search (keeps, resumed-Keeps, after_resume-Keeps, update_run-IsValid, step-IsValid) depth 12
