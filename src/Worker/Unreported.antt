-- ===== src/Worker/Unreported.antt =====
-- src/queue.rs, `deliver_job`: which jobs that are given up are reported by an alert.
use qhook.Prelude.{
  ℕ, ◌+◌, ◌≤◌, ◌≡◌, Bool, true, false, ◌&&◌, Option, none, some, String, [], ◌∷◌, ◌++◌, arith, leb,
  ltb,
}
use qhook.Db.{Job}
use qhook.Worker.Failure.{handle_failure}
use qhook.Worker.Deliver.{
  World, dlq, Outcome, Faults, Draws, responded, timed_out, unreachable, attempt_row,
  attempt_refused, record_attempt, trip, send, fail_job, on_http_failure, on_error, on_response,
  deliver_job,
}

abbrev pub is_transport : Outcome → Bool
is_transport (responded _ _) = false
is_transport _ = true

error_silent :
    (f : Faults) (d : Draws) (job : Job) (kind error : String) (w : World)
    → w.breaker ≡ none
    → (on_error f d job kind error w).alerts ≡ w.alerts
unfolding on_error trip fail_job record_attempt
error_silent f d job kind error w b = ground arith

rejected_reports :
    (f : Faults) (d : Draws) (job : Job) (s : ℕ) (r : Option ℕ) (w : World)
    → w.breaker ≡ none
    → w.alerting ≡ true
    → f.failure ≡ false
    → job.max_attempts ≤ job.attempt + 1
    → (on_http_failure f d job s r w).alerts
      ≡ w.alerts ++ dlq job.id job.handler (job.attempt + 1) ∷ []
unfolding on_http_failure trip send fail_job handle_failure
rejected_reports f d job s r w b a x h = ground arith

no_success : (s : ℕ) → 300 ≤ s → (leb 200 s && ltb s 300) ≡ false
no_success s h = ground arith

response_reports :
    (f : Faults) (d : Draws) (job : Job) (s : ℕ) (r : Option ℕ) (w : World)
    → w.breaker ≡ none
    → w.alerting ≡ true
    → f.failure ≡ false
    → job.max_attempts ≤ job.attempt + 1
    → 300 ≤ s
    → attempt_refused f.attempt (attempt_row d job (some s) none) w ≡ false
    → (on_response f d job s r w).alerts ≡ w.alerts ++ dlq job.id job.handler (job.attempt + 1) ∷ []
unfolding on_response record_attempt
response_reports f d job s r w b a x h c n =
    rw (n, no_success s c)
      (rejected_reports f d job s r (record_attempt false (attempt_row d job (some s) none) w) b a x
        h)

-- A job that is given up is reported only if the service answered: for a handler without a breaker
-- and with alerts configured, the last failed delivery sends the alert of the dead letter queue
-- after a status that is no success, and no alert at all after a timeout or a network error.
pub transport_failure_unreported :
    (f : Faults) (d : Draws) (job : Job) (o : Outcome) (status : ℕ) (r : Option ℕ) (w : World)
    → w.breaker ≡ none
    → w.alerting ≡ true
    → f.failure ≡ false
    → job.max_attempts ≤ job.attempt + 1
    → is_transport o ≡ true
    → 300 ≤ status
    → attempt_refused f.attempt (attempt_row d job (some status) none) w ≡ false
    → ((deliver_job f d job o w).alerts ≡ w.alerts)
      × ((deliver_job f d job (responded status r) w).alerts
          ≡ w.alerts ++ dlq job.id job.handler (job.attempt + 1) ∷ [])
unfolding deliver_job
transport_failure_unreported f d job (responded s q) status r w b a x h t c n = cc
transport_failure_unreported f d job (timed_out e) status r w b a x h t c n =
    (error_silent f d job "timeout" e w b, response_reports f d job status r w b a x h c n)
transport_failure_unreported f d job (unreachable e) status r w b a x h t c n =
    (error_silent f d job "network" e w b, response_reports f d job status r w b a x h c n)
