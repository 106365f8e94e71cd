-- ===== src/Workflow/Sound/Deliver.antt =====
-- The tasks that run workflows keep the table of jobs valid: a turn of the worker on a step.
use qhook.Prelude.{ℕ, Bool, true, false, Option, none, some, String, List, [], ◌∷◌, if◌then◌else◌}
use qhook.Prelude.Classes.{◌==◌, string_eq}
use qhook.Db.{Job, Attempt}
use qhook.Db.Jobs
use qhook.Db.Runs
use qhook.Db.Invariant.Rows.{IsValid}
use qhook.Db.Invariant.Sequences as Seq
use qhook.Db.Endpoints.{Outbound}
use qhook.Config.{Config}
use qhook.Api.Ingest.{Headers, process_event}
use qhook.Api.Ingest.Kept.{process_event-Keeps}
use qhook.Workflow.{StepConfig}
use qhook.Workflow.Engine.{Env, Engine, Task, pure, given, ◌>>◌, call}
use qhook.Workflow.Dispatch.{
  run_timeout, skip_step, step_handler, run_handler, handle_locally, dispatch_step, before_delivery,
}
use qhook.Workflow.Deliver.{
  Client, Reply, answered, timed_out, unreachable, deliver_workflow_step, close_breaker,
  on_step_success, on_step_failure, on_answer, on_no_answer, on_reply, deliver_step,
  deliver_workflow_job,
}
use qhook.Workflow.Callback.{resume_callback}
use qhook.Workflow.Sound.{Keeps, keeps, call-Keeps}
use qhook.Workflow.Sound.Steps.{
  runs, update_run-IsValid, step-IsValid, completed-Keeps, dead-Keeps, success-Keeps, failure-Keeps,
}
use qhook.Workflow.Sound.Handlers

abbrev StepHandler : Type 0
StepHandler = Env → Job → StepConfig → Task (Unit {0})

-- Every handler in an Option keeps the table valid.
abbrev AllKeep : Option StepHandler → Type 0
AllKeep none = Unit
AllKeep (some h) = (env : Env) (job : Job) (step : StepConfig) → Keeps IsValid (h env job step)

pick : (b : Bool) (h k : Option StepHandler) → AllKeep h → AllKeep k → AllKeep (if b then h else k)
pick true h k p q = p
pick false h k p q = q

step_handler-AllKeep : (kind : String) → AllKeep (step_handler kind)
unfolding step_handler
step_handler-AllKeep kind = pick (kind == "choice") _ _ Handlers.handle_choice_step-Keeps (
    pick (kind == "parallel") _ _ Handlers.handle_parallel_step-Keeps (
      pick (kind == "map") _ _ Handlers.handle_map_step-Keeps (
        pick (kind == "wait") _ _ Handlers.handle_wait_step-Keeps (
          pick (kind == "callback") _ _ Handlers.handle_callback_step-Keeps
            (pick (kind == "workflow") _ _ Handlers.handle_subworkflow_step-Keeps tt)))))

run_timeout-Keeps : (env : Env) (run_id : Option String) → Keeps IsValid (run_timeout env run_id)
unfolding run_timeout
run_timeout-Keeps env none = search keeps
run_timeout-Keeps env (some run_id) = search keeps

skip_step-Keeps :
    (env : Env) (job : Job) (run_id : String) → Keeps IsValid (skip_step env job run_id)
unfolding skip_step
skip_step-Keeps env job run_id = search (keeps, dead-Keeps, runs) depth 12

run_handler-Keeps :
    (env : Env) (job : Job) (step : StepConfig) (h : StepHandler)
    → ((env : Env) (job : Job) (step : StepConfig) → Keeps IsValid (h env job step))
    → Keeps IsValid (run_handler env job step h)
unfolding run_handler
run_handler-Keeps env job step h k = search (keeps, completed-Keeps)

handled-Keeps :
    (env : Env) (job : Job) (step : StepConfig) (o : Option StepHandler)
    → AllKeep o
    → Keeps IsValid (given o (pure false) λ h. run_handler env job step h >> pure true)
handled-Keeps env job step none k = search keeps
handled-Keeps env job step (some h) k =
    let ran : Keeps IsValid (run_handler env job step h) = run_handler-Keeps env job step h k in
    search (keeps, ran)

handle_locally-Keeps : (env : Env) (job : Job) → Keeps IsValid (handle_locally env job)
unfolding handle_locally
handle_locally-Keeps env job =
    let handled : (step : StepConfig)
        → Keeps IsValid (
            given (step_handler step.handler_type) (pure false)
              λ h. run_handler env job step h >> pure true) =
      λ step. handled-Keeps env job step _ (step_handler-AllKeep step.handler_type) in
    search (keeps, handled) depth 12

dispatch_step-Keeps : (env : Env) (job : Job) → Keeps IsValid (dispatch_step env job)
unfolding dispatch_step
dispatch_step-Keeps env job =
    search (keeps, run_timeout-Keeps, skip_step-Keeps, handle_locally-Keeps) depth 12

before_delivery-Keeps : (env : Env) (job : Job) → Keeps IsValid (before_delivery env job)
unfolding before_delivery
before_delivery-Keeps env job = search (keeps, dispatch_step-Keeps)

close_breaker-Keeps : Keeps IsValid close_breaker
unfolding Keeps close_breaker
close_breaker-Keeps s v = v

attempt_row-Keeps : (env : Env) (a : Attempt) → Keeps IsValid (call env (Jobs.insert_attempt a))
attempt_row-Keeps env a = call-Keeps IsValid env _ (Seq.execute-IsValid (Seq.insert_attempt a))

deliver_workflow_step-Keeps :
    (client : Client) (env : Env) (job : Job) (headers : List (String × String)) (method : String)
    → Keeps IsValid (deliver_workflow_step client env job headers method)
unfolding deliver_workflow_step
deliver_workflow_step-Keeps client env job headers method = search keeps

on_step_success-Keeps :
    (client : Client) (env : Env) (job : Job) (body : Option String)
    → Keeps IsValid (on_step_success client env job body)
unfolding on_step_success
on_step_success-Keeps client env job body =
    search (keeps, close_breaker-Keeps, completed-Keeps, success-Keeps) depth 12

on_step_failure-Keeps :
    (client : Client) (env : Env) (job : Job) (error kind : String)
    → Keeps IsValid (on_step_failure client env job error kind)
unfolding on_step_failure
on_step_failure-Keeps client env job error kind = search (keeps, failure-Keeps) depth 12

on_answer-Keeps :
    (client : Client) (env : Env) (job : Job) (status : ℕ) (body : Option String)
    → Keeps IsValid (on_answer client env job status body)
unfolding on_answer
on_answer-Keeps client env job status body =
    search (keeps, attempt_row-Keeps, on_step_success-Keeps, on_step_failure-Keeps) depth 12

on_no_answer-Keeps :
    (client : Client) (env : Env) (job : Job) (error kind : String)
    → Keeps IsValid (on_no_answer client env job error kind)
unfolding on_no_answer
on_no_answer-Keeps client env job error kind =
    search (keeps, attempt_row-Keeps, failure-Keeps) depth 12

on_reply-Keeps :
    (client : Client) (env : Env) (job : Job) (reply : Reply)
    → Keeps IsValid (on_reply client env job reply)
on_reply-Keeps client env job (answered status body) = on_answer-Keeps client env job status body
on_reply-Keeps client env job (timed_out error) = on_no_answer-Keeps client env job error "timeout"
on_reply-Keeps client env job (unreachable error) =
    on_no_answer-Keeps client env job error "network"

deliver_step-Keeps :
    (client : Client) (env : Env) (job : Job) → Keeps IsValid (deliver_step client env job)
unfolding deliver_step
deliver_step-Keeps client env job =
    search (keeps, deliver_workflow_step-Keeps, on_reply-Keeps) depth 12

deliver_workflow_job-Keeps :
    (client : Client) (env : Env) (job : Job) → Keeps IsValid (deliver_workflow_job client env job)
unfolding deliver_workflow_job
deliver_workflow_job-Keeps client env job =
    search (keeps, before_delivery-Keeps, deliver_step-Keeps)

process_event-KeepsIsValid :
    (env : Env) (config : Config) (outbound : Outbound) (source event_type payload : String)
    (headers : Headers)
    → Keeps IsValid (process_event env config outbound source event_type payload headers)
unfolding Runs.insert_workflow_run Runs.set_workflow_timeout
process_event-KeepsIsValid =
    process_event-Keeps IsValid (λ id workflow event_id step now. Handlers.insert_run-IsValid _)
      (λ id at. update_run-IsValid id _) step-IsValid
      (λ id event_id handler url max now.
        Seq.execute-IsValid (Seq.insert_job id event_id handler url max now))
      (λ e jobs. Seq.execute-IsValid (Seq.insert_event_and_jobs e jobs))

-- What happens: a turn of the worker on a step, or a callback or an event that comes in.
pub data Action : Type 0 where
  ingestion : Config → Outbound → String → String → String → Headers → Action
  delivery : Client → Job → Action
  callback : String → String → Action

-- The state after an action, with the environment in which it is made.
abbrev pub act : Env × Action → Engine → Engine
act (env, delivery client job) s = (deliver_workflow_job client env job s).0
act (env, callback token payload) s = (resume_callback env token payload s).0
act (env, ingestion config outbound source event_type payload headers) s =
    (process_event env config outbound source event_type payload headers s).0

unfoldable pub act_all : List (Env × Action) → Engine → Engine
act_all [] s = s
act_all (a ∷ steps) s = act_all steps (act a s)

act-IsValidIn : (a : Env × Action) (s : Engine) → IsValid s.world.db → IsValid (act a s).world.db
unfolding Keeps
act-IsValidIn (env, delivery client job) s v = deliver_workflow_job-Keeps client env job s v
act-IsValidIn (env, callback token payload) s v =
    Handlers.resume_callback-Keeps env token payload s v
act-IsValidIn (env, ingestion config outbound source event_type payload headers) s v =
    process_event-KeepsIsValid env config outbound source event_type payload headers s v

-- After any sequence of incoming events, of deliveries of workflow jobs and of incoming callbacks,
-- whichever calls of the database fail and whatever the services answer, from a state where it held: no two jobs have
-- one id, every finished job has the time at which it finished, every running job the time at which
-- it was started, and every job that waits for a callback a token.
pub act_all-IsValid :
    (steps : List (Env × Action)) (s : Engine)
    → IsValid s.world.db
    → IsValid (act_all steps s).world.db
unfolding act_all
act_all-IsValid [] s v = v
act_all-IsValid (a ∷ steps) s v = act_all-IsValid steps (act a s) (act-IsValidIn a s v)
