-- ===== src/Metrics/Totals.antt =====
-- src/metrics.rs: the totals that are kept beside the labeled counters agree with them.
use qhook.Prelude.{ℕ, ◌≡◌, refl, String, List, [], ◌∷◌, arith}
use qhook.Metrics.Counter.{LabeledCounter, add_u64, inc, total, inc_by-value}
use qhook.Metrics
use qhook.Metrics.{Metrics}

-- What the service counts: the methods that src/api.rs and src/queue.rs call.
pub data Count : Type 0 where
  received : String → Count
  duplicated job_created alert_sent alert_failed db_error callback_received callback_expired : Count
  success failure : String → ℕ → Count
  error_type verification_failure dlq : String → Count
  started completed failed step_completed opened rejected : String → Count
  delivered acked nacked expired : String → ℕ → Count

abbrev pub count : Count → Metrics → Metrics
count (received s) = Metrics.inc_events_received_for s
count duplicated = Metrics.inc_events_duplicated
count job_created = Metrics.inc_jobs_created
count alert_sent = Metrics.inc_alerts_sent
count alert_failed = Metrics.inc_alerts_failed
count db_error = Metrics.inc_db_errors
count callback_received = Metrics.inc_callbacks_received
count callback_expired = Metrics.inc_callbacks_expired
count (success h ms) = Metrics.inc_delivery_success_for h ms
count (failure h ms) = Metrics.inc_delivery_failure_for h ms
count (error_type e) = Metrics.inc_delivery_error_type e
count (verification_failure s) = Metrics.inc_verification_failure s
count (dlq h) = Metrics.inc_dlq h
count (started w) = Metrics.inc_workflow_started w
count (completed w) = Metrics.inc_workflow_completed w
count (failed w) = Metrics.inc_workflow_failed w
count (step_completed w) = Metrics.inc_workflow_step_completed w
count (opened h) = Metrics.inc_circuit_opened h
count (rejected h) = Metrics.inc_circuit_rejected h
count (delivered q n) = Metrics.inc_queue_messages_delivered q n
count (acked q n) = Metrics.inc_queue_messages_acked q n
count (nacked q n) = Metrics.inc_queue_messages_nacked q n
count (expired q n) = Metrics.inc_queue_messages_expired q n

unfoldable pub count_all : List Count → Metrics → Metrics
count_all [] m = m
count_all (c ∷ cs) m = count_all cs (count c m)

-- A global counter is the sum of the counter that splits it by label.
pub record IsBalanced (m : Metrics) : Type 0 where
  pub events : m.events_received ≡ total m.events_by_source
  pub successes : m.deliveries_success ≡ total m.deliveries_by_handler_ok
  pub failures : m.deliveries_failure ≡ total m.deliveries_by_handler_fail

total-inc : (label : String) (c : LabeledCounter) → total (inc label c) ≡ add_u64 (total c) 1
unfolding inc
total-inc label c = (inc_by-value label label 1 c).1

module _ (m : Metrics) (b : IsBalanced m) where
  received-IsBalanced : (s : String) → IsBalanced (Metrics.inc_events_received_for s m)
  unfolding Metrics.inc_events_received_for
  received-IsBalanced s = ground (arith, total-inc s m.events_by_source)

  success-IsBalanced : (h : String) (ms : ℕ) → IsBalanced (Metrics.inc_delivery_success_for h ms m)
  unfolding Metrics.inc_delivery_success_for
  success-IsBalanced h ms = ground (arith, total-inc h m.deliveries_by_handler_ok)

  failure-IsBalanced : (h : String) (ms : ℕ) → IsBalanced (Metrics.inc_delivery_failure_for h ms m)
  unfolding Metrics.inc_delivery_failure_for
  failure-IsBalanced h ms = ground (arith, total-inc h m.deliveries_by_handler_fail)

others : Unit {0}
unfolding Metrics.inc_events_duplicated Metrics.inc_jobs_created Metrics.inc_alerts_sent
    Metrics.inc_alerts_failed Metrics.inc_db_errors Metrics.inc_callbacks_received
    Metrics.inc_callbacks_expired Metrics.inc_delivery_error_type Metrics.inc_verification_failure
    Metrics.inc_dlq Metrics.inc_workflow_started Metrics.inc_workflow_completed
    Metrics.inc_workflow_failed Metrics.inc_workflow_step_completed Metrics.inc_circuit_opened
    Metrics.inc_circuit_rejected Metrics.inc_queue_messages_delivered
    Metrics.inc_queue_messages_acked Metrics.inc_queue_messages_nacked
    Metrics.inc_queue_messages_expired
others = tt

count-IsBalanced : (c : Count) (m : Metrics) → IsBalanced m → IsBalanced (count c m)
unfolding others
count-IsBalanced (received s) m b = received-IsBalanced m b s
count-IsBalanced (success h ms) m b = success-IsBalanced m b h ms
count-IsBalanced (failure h ms) m b = failure-IsBalanced m b h ms
count-IsBalanced _ m b = record {
  events = b.events;
  successes = b.successes;
  failures = b.failures;
}

new-IsBalanced : IsBalanced Metrics.new
unfolding Metrics.new total
new-IsBalanced = record { events = refl; successes = refl; failures = refl }

count_from-IsBalanced : (cs : List Count) (m : Metrics) → IsBalanced m → IsBalanced (count_all cs m)
unfolding count_all
count_from-IsBalanced [] m b = b
count_from-IsBalanced (c ∷ cs) m b = count_from-IsBalanced cs (count c m) (count-IsBalanced c m b)

-- Whatever the service counts, in any order, the numbers of events received, of deliveries that
-- succeeded and of deliveries that failed are the sums of the counters that split them by source
-- and by handler, modulo 2^64.
pub count_all-IsBalanced : (cs : List Count) → IsBalanced (count_all cs Metrics.new)
count_all-IsBalanced cs = count_from-IsBalanced cs Metrics.new new-IsBalanced
