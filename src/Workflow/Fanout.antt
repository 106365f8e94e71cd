-- ===== src/Workflow/Fanout.antt =====
-- src/queue.rs: `handle_parallel_step` and `handle_map_step`.
use qhook.Prelude.{ℕ, suc, Option, some, String, List, [], ◌∷◌, length}
use qhook.Db.{Job, clamp_i32}
use qhook.Db.Runs.{set_parallel_state}
use qhook.Db.Steps.{insert_branch_job, save_step_output}
use qhook.Metrics.{inc_jobs_created}
use qhook.Json.{Value, array, elements}
use qhook.Json.Path.{resolve_path}
use qhook.Workflow.{StepConfig, BranchConfig}
use qhook.Workflow.Handler.{workflow_part}
use qhook.Workflow.Engine.{
  Env, Task, pure, fail, given, ◌>>=◌, ◌>>◌, call, write, tally, draw, not_json,
}
use qhook.Workflow.Advance.{text_or, nat_or, with_template, spec_of}
use qhook.Workflow.Success.{with_run, handle_workflow_step_success}

-- A branch: its name, its URL and its input.
pub record Branch : Type 0 where
  pub name : String
  pub url : String
  pub input : String

unfoldable pub create_branch : Env → Job → Job → String → StepConfig → Branch → Task (Unit {0})
unfolding spec_of
create_branch env job row run_id step b = do
  id ← draw env
  call env (
      insert_branch_job
        (spec_of env id job.event_id (workflow_part job.handler) b.url run_id
          (nat_or 0 row.step_index) step b.input)
        b.name env.now)
  tally inc_jobs_created

unfoldable pub create_branches :
    Env → Job → Job → String → StepConfig → List Branch → Task (Unit {0})
unfolding create_branch
create_branches env job row run_id step [] = pure tt
create_branches env job row run_id step (b ∷ bs) =
    create_branch env job row run_id step b >> create_branches env job row run_id step bs

-- The run waits for as many branches as are created.
unfoldable pub fork_run : Env → Job → Job → String → StepConfig → List Branch → Task (Unit {0})
unfolding create_branches
fork_run env job row run_id step bs = do
  write env (set_parallel_state run_id step.name (clamp_i32 (length bs)))
  create_branches env job row run_id step bs

-- Each branch of a parallel step has the input of the step, through its template.
unfoldable pub parallel_branches : Env → StepConfig → String → List BranchConfig → List Branch
parallel_branches env step payload [] = []
parallel_branches env step payload (b ∷ bs) =
    record { name = b.name; url = b.url; input = with_template env step.input payload }
    ∷ parallel_branches env step payload bs

unfoldable pub handle_parallel_step : Env → Job → StepConfig → Task (Unit {0})
unfolding with_run fork_run parallel_branches
handle_parallel_step env job step = with_run env job λ row run_id.
    given step.branches (pure tt) λ bs.
      fork_run env job row run_id step (parallel_branches env step (text_or "{}" row.step_input) bs)

-- Each branch of a map step has one item as its input, and its index as its name.
unfoldable pub map_branches : Env → String → ℕ → List Value → List Branch
map_branches env url i [] = []
map_branches env url i (v ∷ vs) =
    record { name = env.decimal i; url = url; input = env.serde.to_string v }
    ∷ map_branches env url (suc i) vs

-- What is no array has no items.
abbrev pub items_at : Option Value → List Value
items_at (some (array vs)) = elements vs
items_at _ = []

-- No items: the step counts as a success, which is handled with no workflows.
unfoldable pub handle_no_items : Env → Job → Task (Unit {0})
unfolding handle_workflow_step_success
handle_no_items env job = do
  write env (save_step_output job.id "[]")
  handle_workflow_step_success (record env { workflows = [] }) job (some "[]")

abbrev pub fork_items : Env → Job → Job → String → StepConfig → List Value → Task (Unit {0})
fork_items env job row run_id step [] = handle_no_items env job
fork_items env job row run_id step (v ∷ vs) =
    fork_run env job row run_id step (map_branches env (text_or "" step.url) 0 (v ∷ vs))

unfoldable pub handle_map_step : Env → Job → StepConfig → Task (Unit {0})
unfolding with_run fork_run map_branches handle_no_items
handle_map_step env job step = with_run env job λ row run_id.
    given step.items_path (pure tt) λ path.
      given (env.serde.from_str (text_or "{}" row.step_input)) (fail not_json)
        λ json. fork_items env job row run_id step (items_at (resolve_path json path))
