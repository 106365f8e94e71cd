-- ===== src/Tests/Delivery.antt =====
-- Runs of the circuit breaker, of failures and of deliveries of src/queue.rs.
use qhook.Prelude.{ℕ, Bool, ◌≤◌, ◌≡◌, ◌⊎◌, refl, false, true, none, some, List, [], ◌∷◌, arith}
use qhook.Prelude.Classes.{string_eq}
use qhook.Sql.{find_where, exists_where}
use qhook.Db.{Job, available, running, completed}
use qhook.Db.Jobs.{has_id, insert_attempt}
use qhook.Worker.Circuit.{
  CircuitBreaker, new, new-IsValid, IsValid, Call, allow, success, failure, call_all, state, closed,
  allow_request, record_failure,
}
use qhook.Worker.Circuit
use qhook.Worker.Probe.{request_all}
use qhook.Worker.Retry.{IsPendingAt, IsDead, OpenFrom, deliveries, try_all, try_all_bounded}
use qhook.Worker.Deliver.{responded, deliver_job, run_task, attempt_row, attempt_refused}
use qhook.Worker.Stuck.{lost_probe_blocks}
use qhook.Workflow.Dispatch.{is_workflow}
use qhook.Worker.Settled.{deliver_job_settles}
use qhook.Tests.{tables, job_of, open_circuit, world_of, sound, draws_at}

call_all-IsValid_example :
    IsValid (call_all (allow 1 ∷ failure 1 ∷ failure 2 ∷ allow 9 ∷ success ∷ []) (new 2 5))
unfolding new
call_all-IsValid_example =
    Circuit.call_all-IsValid (allow 1 ∷ failure 1 ∷ failure 2 ∷ allow 9 ∷ success ∷ []) (new 2 5)
      (omega arith) (new-IsValid 2 5 (omega arith))

abbrev probing : CircuitBreaker
probing = record open_circuit { half_open_in_progress = true }

there : find_where (has_id "j2") tables.jobs ≡ some (job_of "j2" running 1)
unfolding find_where has_id
there = refl

pending : IsPendingAt 0 3 "j1" tables
unfolding find_where has_id
pending = (job_of "j1" available 0, refl, refl, refl, refl, refl)

abbrev rounds : List (ℕ × Bool)
rounds = (1, true) ∷ (2, false) ∷ (3, true) ∷ (4, true) ∷ []

try_all_bounded_example :
    let r = try_all rounds (λ n. n) "j1" "gone" tables in
    (r.1 ≡ deliveries 2 rounds)
    × (r.1 ≤ 3)
    × (IsDead "j1" r.0 ⊎ (IsPendingAt 4 3 "j1" r.0 × OpenFrom 2 rounds))
try_all_bounded_example = try_all_bounded 2 0 3 rounds (λ n. n) "j1" "gone" tables pending refl

two_sent : deliveries 2 rounds ≡ 2
unfolding deliveries
two_sent = refl

lost_probe_blocks_example :
    let w' =
      run_task
        (record sound { attempt = true })
        (draws_at 1000)
        (job_of "j2" running 1)
        (responded 200 none)
        (world_of (some open_circuit)) in
    (w'.db ≡ tables)
    × ((c' : CircuitBreaker) × (w'.breaker ≡ some c')
        × (request_all (2000 ∷ 900000 ∷ []) c' ≡ (c', 0)))
lost_probe_blocks_example =
    lost_probe_blocks (record sound { attempt = true }) (draws_at 1000) (job_of "j2" running 1) 200
      none (world_of (some open_circuit)) open_circuit (2000 ∷ 900000 ∷ []) refl refl refl refl refl

accepted :
    (status : ℕ)
    → attempt_refused false
        (attempt_row (draws_at 9) (job_of "j2" running 1) (some status) none)
        (world_of none)
      ≡ false
unfolding attempt_refused insert_attempt exists_where
accepted status = refl

no_step : is_workflow (job_of "j2" running 1) ≡ false
unfolding is_workflow
no_step = refl

deliver_job_settles_example :
    (after : Job) × (find_where
        (has_id "j2")
        (deliver_job sound
          (draws_at 9)
          (job_of "j2" running 1)
          (responded 204 none)
          (world_of none)).db.jobs
      ≡ some after)
    × (after.status ≡ completed)
deliver_job_settles_example =
    deliver_job_settles sound (draws_at 9) (job_of "j2" running 1) (responded 204 none)
      (world_of none) no_step there (accepted 204, refl, refl)
