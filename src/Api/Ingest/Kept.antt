-- ===== src/Api/Ingest/Kept.antt =====
-- src/api.rs: what holds of the tables while an event starts workflows and outbound jobs.
use qhook.Prelude.{ℕ, Bool, true, false, Option, none, some, String, List, [], ◌∷◌}
use qhook.Config.{HandlerConfig, QueueConfig, Config}
use qhook.Db.{Database, Event}
use qhook.Db.Endpoints.{Outbound, SubscribedEndpoint}
use qhook.Db.Events.{JobSpec, insert_job, insert_event_and_jobs}
use qhook.Db.Runs.{insert_workflow_run, set_workflow_timeout}
use qhook.Db.Steps.{StepSpec, insert_workflow_job}
use qhook.Workflow.{StepConfig, WorkflowConfig}
use qhook.Workflow.Params.{ParamError}
use qhook.Workflow.Engine.{Env, Task, call}
use qhook.Workflow.Start.{create_step_job, set_timeout, start_run, start_accepted, start_workflow}
use qhook.Workflow.Sound.{Keeps, keeps, call-Keeps, write-Keeps}
use qhook.Api.Ingest.{
  Headers, passes, collect, handler_jobs, queue_jobs, store_event, process_event, count_created,
  count_if, outbound_jobs, create_outbound, start_workflows, after_insert,
}

module _ (P : Database → Type 0)
    (run_kept : (id workflow event_id step : String) (now : ℕ) (db : Database)
      → P db
      → P (insert_workflow_run id workflow event_id step now db).0)
    (timeout_kept : (id : String) (at : ℕ) (db : Database)
      → P db
      → P (set_workflow_timeout id at db))
    (step_kept : (s : StepSpec) (now : ℕ) (db : Database)
      → P db
      → P (insert_workflow_job s now db).0) where
  insert_run-Keeps :
      (env : Env) (id workflow event_id step : String)
      → Keeps P (call env (insert_workflow_run id workflow event_id step env.now))
  insert_run-Keeps env id workflow event_id step =
      call-Keeps P env _ (run_kept id workflow event_id step env.now)

  insert_step-Keeps :
      (env : Env) (s : StepSpec) → Keeps P (call env (insert_workflow_job s env.now))
  insert_step-Keeps env s = call-Keeps P env _ (step_kept s env.now)

  set_timeout-Keeps :
      (env : Env) (run_id : String) (timeout : Option ℕ) → Keeps P (set_timeout env run_id timeout)
  unfolding set_timeout
  set_timeout-Keeps env run_id none = search keeps
  set_timeout-Keeps env run_id (some secs) = write-Keeps P env _ (timeout_kept run_id _)

  create_step_job-Keeps :
      (env : Env) (workflow run_id event_id : String) (step : StepConfig) (i : ℕ) (input : String)
      → Keeps P (create_step_job env workflow run_id event_id step i input)
  unfolding create_step_job
  create_step_job-Keeps env workflow run_id event_id step i input =
      search (keeps, insert_step-Keeps) depth 12

  start_run-Keeps :
      (env : Env) (name : String) (workflow : WorkflowConfig) (event_id payload : String)
      (step : StepConfig)
      → Keeps P (start_run env name workflow event_id payload step)
  unfolding start_run
  start_run-Keeps env name workflow event_id payload step =
      search (keeps, insert_run-Keeps, set_timeout-Keeps, create_step_job-Keeps) depth 12

  start_accepted-Keeps :
      (env : Env) (name : String) (workflow : WorkflowConfig) (event_id payload : String)
      (e : Option ParamError)
      → Keeps P (start_accepted env name workflow event_id payload e)
  unfolding start_accepted
  start_accepted-Keeps env name workflow event_id payload (some e) = search keeps
  start_accepted-Keeps env name workflow event_id payload none =
      search (keeps, start_run-Keeps) depth 12

  pub start_workflows-Keeps :
      (env : Env) (ws : List (String × WorkflowConfig)) (event_id payload : String)
      → Keeps P (start_workflows env ws event_id payload)
  unfolding start_workflows start_workflow
  start_workflows-Keeps env [] event_id payload = search keeps
  start_workflows-Keeps env ((name, w) ∷ ws) event_id payload =
      search (keeps, start_accepted-Keeps, start_workflows-Keeps env ws event_id payload) depth 12

  module _
      (job_kept : (id event_id handler url : String) (max now : ℕ) (db : Database)
        → P db
        → P (insert_job id event_id handler url max now db).0) where
    insert_job-Keeps :
        (env : Env) (id event_id handler url : String) (max : ℕ)
        → Keeps P (call env (insert_job id event_id handler url max env.now))
    insert_job-Keeps env id event_id handler url max =
        call-Keeps P env _ (job_kept id event_id handler url max env.now)

    count_created-Keeps : (jobs : List JobSpec) → Keeps P (count_created jobs)
    unfolding count_created
    count_created-Keeps [] = search keeps
    count_created-Keeps (j ∷ js) = search (keeps, count_created-Keeps js)

    count_if-Keeps : (created : Bool) → Keeps P (count_if created)
    count_if-Keeps false = search keeps
    count_if-Keeps true = search keeps

    outbound_jobs-Keeps :
        (env : Env) (event_id : String) (eps : List SubscribedEndpoint) (n : ℕ)
        → Keeps P (outbound_jobs env event_id eps n)
    unfolding outbound_jobs
    outbound_jobs-Keeps env event_id [] n = search keeps
    outbound_jobs-Keeps env event_id (ep ∷ eps) n =
        let rest : (n' : ℕ) → Keeps P (outbound_jobs env event_id eps n') =
          outbound_jobs-Keeps env event_id eps in
        search (keeps, insert_job-Keeps, count_if-Keeps, rest) depth 12

    create_outbound-Keeps :
        (env : Env) (outbound : Outbound) (to_endpoints : Bool)
        (event_id source event_type : String) (n : ℕ)
        → Keeps P (create_outbound env outbound to_endpoints event_id source event_type n)
    unfolding create_outbound
    create_outbound-Keeps env outbound false event_id source event_type n = search keeps
    create_outbound-Keeps env outbound true event_id source event_type n =
        search (keeps, outbound_jobs-Keeps)

    -- What follows the insert of an event keeps whatever new runs and jobs keep.
    pub after_insert-Keeps :
        (env : Env) (config : Config) (outbound : Outbound)
        (event_id source event_type payload : String) (jobs : List JobSpec) (created : Bool)
        → Keeps P (after_insert env config outbound event_id source event_type payload jobs created)
    unfolding after_insert
    after_insert-Keeps env config outbound event_id source event_type payload jobs false =
        search keeps
    after_insert-Keeps env config outbound event_id source event_type payload jobs true =
        search (keeps, count_created-Keeps, create_outbound-Keeps, start_workflows-Keeps) depth 12

    collect-Keeps :
        (env : Env) (wanted : Bool) (t : String × String × ℕ)
        (next : List JobSpec → Task (List JobSpec)) (jobs : List JobSpec)
        → ((jobs' : List JobSpec) → Keeps P (next jobs'))
        → Keeps P (collect env wanted t next jobs)
    collect-Keeps env false t next jobs h = h jobs
    collect-Keeps env true (handler, url, max) next jobs h = search (keeps, h)

    handler_jobs-Keeps :
        (env : Env) (payload : String) (hs : List (String × HandlerConfig)) (jobs : List JobSpec)
        → Keeps P (handler_jobs env payload hs jobs)
    unfolding handler_jobs
    handler_jobs-Keeps env payload [] jobs = search keeps
    handler_jobs-Keeps env payload ((name, h) ∷ hs) jobs =
        collect-Keeps env (passes env payload h.filter) _ _ jobs (handler_jobs-Keeps env payload hs)

    queue_jobs-Keeps :
        (env : Env) (payload : String) (qs : List (String × QueueConfig)) (jobs : List JobSpec)
        → Keeps P (queue_jobs env payload qs jobs)
    unfolding queue_jobs
    queue_jobs-Keeps env payload [] jobs = search keeps
    queue_jobs-Keeps env payload ((name, q) ∷ qs) jobs =
        collect-Keeps env (passes env payload q.filter) _ _ jobs (queue_jobs-Keeps env payload qs)

    module _
        (event_kept : (e : Event) (jobs : List JobSpec) (db : Database)
          → P db
          → P (insert_event_and_jobs e jobs db).0) where
      insert_event-Keeps :
          (env : Env) (e : Event) (jobs : List JobSpec)
          → Keeps P (call env (insert_event_and_jobs e jobs))
      insert_event-Keeps env e jobs = call-Keeps P env _ (event_kept e jobs)

      store_event-Keeps :
          (env : Env) (config : Config) (outbound : Outbound)
          (event_id source event_type payload : String) (headers : Headers)
          → Keeps P (store_event env config outbound event_id source event_type payload headers)
      unfolding store_event
      store_event-Keeps env config outbound event_id source event_type payload headers =
          search
            (keeps, handler_jobs-Keeps, queue_jobs-Keeps, insert_event-Keeps, after_insert-Keeps)
            depth 14

      pub process_event-Keeps :
          (env : Env) (config : Config) (outbound : Outbound) (source event_type payload : String)
          (headers : Headers)
          → Keeps P (process_event env config outbound source event_type payload headers)
      unfolding process_event
      process_event-Keeps env config outbound source event_type payload headers =
          search (keeps, store_event-Keeps)
