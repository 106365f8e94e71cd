-- ===== src/Workflow/Halted.antt =====
-- src/queue.rs: steps at which a run halts: one whose time is over, and a map step with no items.
use qhook.Prelude.{◌≡◌, refl, ◌∙◌, ap, Bool, true, false, none, some, String, [], if◌then◌else◌}
use qhook.Prelude.Classes.{string_eq}
use qhook.Sql.Laws.{find_where-update_self}
use qhook.Db.{Job, Database, dead, run_failed}
use qhook.Db.Jobs.{has_id, update_jobs, mark_job_dead}
use qhook.Db.Runs.{get_workflow_timeout, fail_workflow_run}
use qhook.Db.Steps.{get_workflow_job_data, save_step_output}
use qhook.Json.{Value}
use qhook.Json.Path.{resolve_path}
use qhook.Workflow.{StepConfig, find_workflow}
use qhook.Workflow.Handler.{workflow_part}
use qhook.Workflow.Engine.{Env, Engine, Answer, failed, done, pure, ◌>>=◌, resume_with}
use qhook.Workflow.Rows.{change_job, change_run, mark_job_dead-changed, fail_workflow_run-changed}
use qhook.Workflow.Deliver.{Client, deliver_step, deliver_workflow_job}
use qhook.Workflow.Advance.{text_or, is_over}
use qhook.Workflow.Success.{save_output, step_succeeded, with_run, handle_workflow_step_success}
use qhook.Workflow.Fanout.{items_at, handle_no_items, handle_map_step}
use qhook.Workflow.Dispatch.{is_workflow, run_timeout, skip_step, dispatch_step, before_delivery}
use qhook.Workflow.Progress.{NoFault, called, read-made, write-made, ok_or_none-made}
use qhook.Workflow.Fate.{report-made, attempt-then}
use qhook.Workflow.Forked.{done-then}

skip_step-made :
    (env : Env) (job : Job) (run_id : String) (s : Engine)
    → NoFault env
    → let (s', a) = skip_step env job run_id s in
      (a ≡ done tt)
      × (s'.world.db
          ≡ fail_workflow_run env.now run_id
              (mark_job_dead env.now job.id "workflow timeout" s.world.db))
unfolding skip_step
skip_step-made env job run_id s nf =
    let s₁ = called (mark_job_dead env.now job.id "workflow timeout" s.world.db) s in
    rw (attempt-then env _ _ s nf) (report-made env (workflow_part job.handler) run_id s₁ nf)

row-saved :
    (id output : String) (db : Database) {row : Job}
    → get_workflow_job_data id db ≡ some row
    → get_workflow_job_data id (save_step_output id output db)
      ≡ some (record row { step_output = some output })
unfolding get_workflow_job_data save_step_output update_jobs
row-saved id output db found =
    find_where-update_self (has_id id) (λ j. record j { step_output = some output })
      (λ j. unfold has_id in refl) db.jobs found

over_time-handled :
    (env : Env) (job : Job) (s : Engine) {row : Job} {run_id : String}
    → NoFault env
    → is_workflow job ≡ true
    → get_workflow_job_data job.id s.world.db ≡ some row
    → row.workflow_run_id ≡ some run_id
    → is_over env.now (get_workflow_timeout run_id s.world.db) ≡ true
    → let (s', handled) = before_delivery env job s in
      (handled ≡ done true)
      × (s'.world.db
          ≡ fail_workflow_run env.now run_id
              (mark_job_dead env.now job.id "workflow timeout" s.world.db))
unfolding before_delivery dispatch_step run_timeout
over_time-handled env job s {row} {run_id} nf is_step found in_run over =
    let s₁ = called s.world.db s in
    rw (is_step, ok_or_none-made env _ _ s nf, found, in_run, ok_or_none-made env _ _ s₁ nf, over)
      (let s₂ = called s.world.db s₁ in
        let skipped = skip_step-made env job run_id s₂ nf in
        rw (done-then (skip_step env job run_id) (pure true) s₂ skipped.0) (refl, skipped.1))

-- A step that was handled is not delivered.
resume-handled :
    (client : Client) (env : Env) (job : Job) (r : Engine × Answer Bool)
    → r.1 ≡ done true
    → resume_with (λ handled. if handled then pure tt else deliver_step client env job) r
      ≡ (r.0, done tt)
resume-handled client env job (s, failed e) h = cc
resume-handled client env job (s, done true) h = refl
resume-handled client env job (s, done false) h = cc

-- If no call of the database fails and the time of a job's run is over, then `deliver_job` makes
-- the job dead with the error "workflow timeout" and its run failed, both at this time, and changes
-- nothing else of the tables, whatever the client would have answered.
pub deliver_workflow_job_over_time :
    (client : Client) (env : Env) (job : Job) (s : Engine) {row : Job} {run_id : String}
    → NoFault env
    → is_workflow job ≡ true
    → get_workflow_job_data job.id s.world.db ≡ some row
    → row.workflow_run_id ≡ some run_id
    → is_over env.now (get_workflow_timeout run_id s.world.db) ≡ true
    → let (s', answer) = deliver_workflow_job client env job s in
      (answer ≡ done tt)
      × (s'.world.db ≡ record s.world.db {
        jobs =
            change_job job.id
              (λ j. record j {
                status = dead;
                completed_at = some env.now;
                last_error = some "workflow timeout";
              })
              s.world.db.jobs;
        runs =
            change_run run_id
              (λ r. record r { status = run_failed; completed_at = some env.now })
              s.world.db.runs;
      })
unfolding deliver_workflow_job ◌>>=◌
deliver_workflow_job_over_time client env job s {row} {run_id} nf is_step found in_run over =
    let (handled, left) = over_time-handled env job s nf is_step found in_run over in
    rw (resume-handled client env job (before_delivery env job s) handled) (
      refl,
      left
          ∙ fail_workflow_run-changed env.now run_id _
          ∙ ap {A = Database} {B = Database}
              (λ d. record d {
                runs =
                    change_run run_id
                      (λ r. record r { status = run_failed; completed_at = some env.now }) d.runs;
              })
              (mark_job_dead-changed env.now job.id "workflow timeout" s.world.db),
    )

-- If no call of the database fails, a job of a map step that is no branch has a payload with no
-- items at the step's path, then the step counts as handled, but its run does not go on: no run
-- changes, and the only change to the jobs is the stored output, so that no job is added.
pub handle_map_step_stalls :
    (env : Env) (job : Job) (step : StepConfig) (s : Engine) {row : Job} {run_id path : String}
    {json : Value}
    → NoFault env
    → get_workflow_job_data job.id s.world.db ≡ some row
    → row.workflow_run_id ≡ some run_id
    → row.branch_name ≡ none
    → step.items_path ≡ some path
    → env.serde.from_str (text_or "{}" row.step_input) ≡ some json
    → items_at (resolve_path json path) ≡ []
    → let (s', answer) = handle_map_step env job step s in
      let saved = save_step_output job.id "[]" (save_step_output job.id "[]" s.world.db) in
      (answer ≡ done tt) × (s'.world.db ≡ saved) × (s'.world.metrics ≡ s.world.metrics)
unfolding handle_map_step handle_no_items handle_workflow_step_success with_run step_succeeded
    save_output find_workflow
handle_map_step_stalls env job step s {row} {run_id} {path} {json} nf found in_run no_branch at
      parsed empty =
    let s₁ = called s.world.db s in
    let db = save_step_output job.id "[]" s.world.db in
    let s₂ = called db s₁ in
    let s₃ = called db s₂ in
    rw
      (
        read-made env _ _ s nf,
        found,
        in_run,
        at,
        parsed,
        empty,
        write-made env _ _ s₁ nf,
        read-made (record env { workflows = [] }) _ _ s₂ nf,
        row-saved job.id "[]" s.world.db found,
        in_run,
        no_branch,
        write-made (record env { workflows = [] }) _ _ s₃ nf,
      )
      (refl, refl, refl)
