-- ===== src/Workflow/Choice.antt =====
-- src/queue.rs, `handle_choice_step`: where a choice goes.
use qhook.Prelude.{ℕ, ◌≡◌, refl, ap, true, false, some, String, List, [], ◌∷◌, ◌++◌, All}
use qhook.Db.{Job}
use qhook.Db.Runs.{update_workflow_run_step}
use qhook.Db.Steps.{get_workflow_job_data}
use qhook.Api.Filter.{evaluate_filter}
use qhook.Workflow.{StepConfig, ChoiceRule, WorkflowConfig, find_workflow, find_step_from}
use qhook.Workflow.Handler.{workflow_part}
use qhook.Workflow.Engine.{Env, Engine, done}
use qhook.Workflow.Advance.{text_or}
use qhook.Workflow.Success.{with_run}
use qhook.Workflow.Route.{first_choice, goto_of, handle_choice_step}
use qhook.Workflow.Progress.{NoFault, called, read-made, has_job_id, entered_job, enter_step-made}

-- No condition of the rules holds of the payload.
abbrev NoneHolds : Env → String → List ChoiceRule → Type 0
NoneHolds env payload = All (λ c. evaluate_filter env.serde env.matchers payload c.when ≡ false)

first_choice_skips :
    (env : Env) (payload : String) (skipped : List ChoiceRule) (rule : ChoiceRule)
    (rest : List ChoiceRule)
    → NoneHolds env payload skipped
    → evaluate_filter env.serde env.matchers payload rule.when ≡ true
    → first_choice env payload (skipped ++ rule ∷ rest) ≡ some rule.goto
unfolding first_choice
first_choice_skips env payload [] rule rest h holds = rw holds refl
first_choice_skips env payload (c ∷ skipped) rule rest (no_match, h) holds =
    rw (no_match, first_choice_skips env payload skipped rule rest h holds) refl

-- If no call of the database fails, a choice step of a run has a rule whose condition holds of the
-- payload, no condition before it does, and its target is a step, then the run's current step is
-- the target, no other run changes, and exactly one job is added: the target's, with the payload as
-- its input.
pub handle_choice_step_first :
    (env : Env) (job : Job) (step : StepConfig) (s : Engine) (skipped : List ChoiceRule)
    (rule : ChoiceRule) (rest : List ChoiceRule) {row : Job} {run_id : String}
    {workflow : WorkflowConfig} {i : ℕ} {target : StepConfig}
    → NoFault env
    → get_workflow_job_data job.id s.world.db ≡ some row
    → row.workflow_run_id ≡ some run_id
    → find_workflow (workflow_part job.handler) env.workflows ≡ some workflow
    → step.choices ≡ some (skipped ++ rule ∷ rest)
    → NoneHolds env (text_or "{}" row.step_input) skipped
    → evaluate_filter env.serde env.matchers (text_or "{}" row.step_input) rule.when ≡ true
    → find_step_from 0 rule.goto workflow.steps ≡ some (i, target)
    → has_job_id (env.ulid s.drawn) s.world.db.jobs ≡ false
    → let (s', a) = handle_choice_step env job step s in
      let added =
        entered_job env s job.event_id
          (workflow_part job.handler)
          run_id
          i
          target
          (text_or "{}" row.step_input) in
      (a ≡ done tt)
      × (s'.world.db.jobs ≡ s.world.db.jobs ++ added ∷ [])
      × (s'.world.db.runs ≡ (update_workflow_run_step run_id target.name s.world.db).runs)
unfolding handle_choice_step with_run goto_of
handle_choice_step_first env job step s skipped rule rest {row} {run_id} {workflow} {i} {target} nf
      found in_run known chosen h holds there fresh =
    let payload = text_or "{}" row.step_input in
    let entered =
      enter_step-made env job.event_id (workflow_part job.handler) run_id i target payload
        (called s.world.db s) nf fresh in
    rw
      (
        read-made env _ _ s nf,
        found,
        in_run,
        known,
        chosen,
        first_choice_skips env payload skipped rule rest h holds,
        there,
      )
      (entered.0, ap (λ d. d.jobs) entered.1, ap (λ d. d.runs) entered.1)
