-- ===== src/Metrics.antt =====
-- src/metrics.rs: the counters of the process. An atomic counter is a u64, whose `fetch_add` wraps.
use qhook.Prelude.{ℕ, ◌+◌, ◌%◌, String, [], max}
use qhook.Metrics.Counter.{LabeledCounter, add_u64, inc, inc_by, total}
pub mod Counter
pub mod Totals

pub record Metrics : Type 0 where
  pub events_received : ℕ
  pub events_duplicated : ℕ
  pub jobs_created : ℕ
  pub deliveries_success : ℕ
  pub deliveries_failure : ℕ
  pub delivery_duration_ms_sum : ℕ
  pub alerts_sent : ℕ
  pub alerts_failed : ℕ
  pub db_errors : ℕ
  pub delivery_duration_ms_max : ℕ
  pub callbacks_received : ℕ
  pub callbacks_expired : ℕ
  pub events_by_source : LabeledCounter
  pub verification_failures : LabeledCounter
  pub deliveries_by_handler_ok : LabeledCounter
  pub deliveries_by_handler_fail : LabeledCounter
  pub dlq_by_handler : LabeledCounter
  pub delivery_errors_by_type : LabeledCounter
  pub workflow_runs_started : LabeledCounter
  pub workflow_runs_completed : LabeledCounter
  pub workflow_runs_failed : LabeledCounter
  pub workflow_steps_completed : LabeledCounter
  pub circuit_opened : LabeledCounter
  pub circuit_rejected : LabeledCounter
  pub queue_messages_delivered : LabeledCounter
  pub queue_messages_acked : LabeledCounter
  pub queue_messages_nacked : LabeledCounter
  pub queue_messages_expired : LabeledCounter

unfoldable pub new : Metrics
new = record {
  events_received = 0;
  events_duplicated = 0;
  jobs_created = 0;
  deliveries_success = 0;
  deliveries_failure = 0;
  delivery_duration_ms_sum = 0;
  alerts_sent = 0;
  alerts_failed = 0;
  db_errors = 0;
  delivery_duration_ms_max = 0;
  callbacks_received = 0;
  callbacks_expired = 0;
  events_by_source = [];
  verification_failures = [];
  deliveries_by_handler_ok = [];
  deliveries_by_handler_fail = [];
  dlq_by_handler = [];
  delivery_errors_by_type = [];
  workflow_runs_started = [];
  workflow_runs_completed = [];
  workflow_runs_failed = [];
  workflow_steps_completed = [];
  circuit_opened = [];
  circuit_rejected = [];
  queue_messages_delivered = [];
  queue_messages_acked = [];
  queue_messages_nacked = [];
  queue_messages_expired = [];
}

unfoldable pub inc_events_received : Metrics → Metrics
inc_events_received m = record m { events_received = add_u64 m.events_received 1 }

unfoldable pub inc_events_duplicated : Metrics → Metrics
inc_events_duplicated m = record m { events_duplicated = add_u64 m.events_duplicated 1 }

unfoldable pub inc_jobs_created : Metrics → Metrics
inc_jobs_created m = record m { jobs_created = add_u64 m.jobs_created 1 }

unfoldable pub inc_alerts_sent : Metrics → Metrics
inc_alerts_sent m = record m { alerts_sent = add_u64 m.alerts_sent 1 }

unfoldable pub inc_alerts_failed : Metrics → Metrics
inc_alerts_failed m = record m { alerts_failed = add_u64 m.alerts_failed 1 }

unfoldable pub inc_db_errors : Metrics → Metrics
inc_db_errors m = record m { db_errors = add_u64 m.db_errors 1 }

unfoldable pub inc_callbacks_received : Metrics → Metrics
inc_callbacks_received m = record m { callbacks_received = add_u64 m.callbacks_received 1 }

unfoldable pub inc_callbacks_expired : Metrics → Metrics
inc_callbacks_expired m = record m { callbacks_expired = add_u64 m.callbacks_expired 1 }

unfoldable pub inc_events_received_for : String → Metrics → Metrics
inc_events_received_for source m = record m {
  events_received = add_u64 m.events_received 1;
  events_by_source = inc source m.events_by_source;
}

-- `fetch_max`
unfoldable pub update_max_duration : ℕ → Metrics → Metrics
update_max_duration ms m = record m { delivery_duration_ms_max = max m.delivery_duration_ms_max ms }

unfoldable pub inc_delivery_success : ℕ → Metrics → Metrics
inc_delivery_success ms m = record m {
  deliveries_success = add_u64 m.deliveries_success 1;
  delivery_duration_ms_sum = add_u64 m.delivery_duration_ms_sum ms;
}

unfoldable pub inc_delivery_success_for : String → ℕ → Metrics → Metrics
unfolding update_max_duration inc_delivery_success
inc_delivery_success_for handler ms m =
    let m' = update_max_duration ms (inc_delivery_success ms m) in
    record m' { deliveries_by_handler_ok = inc handler m'.deliveries_by_handler_ok }

unfoldable pub inc_delivery_failure : ℕ → Metrics → Metrics
unfolding update_max_duration
inc_delivery_failure ms m = update_max_duration ms (record m {
  deliveries_failure = add_u64 m.deliveries_failure 1;
  delivery_duration_ms_sum = add_u64 m.delivery_duration_ms_sum ms;
})

unfoldable pub inc_delivery_failure_for : String → ℕ → Metrics → Metrics
unfolding inc_delivery_failure
inc_delivery_failure_for handler ms m =
    let m' = inc_delivery_failure ms m in
    record m' { deliveries_by_handler_fail = inc handler m'.deliveries_by_handler_fail }

unfoldable pub inc_delivery_error_type : String → Metrics → Metrics
inc_delivery_error_type label m = record m {
  delivery_errors_by_type = inc label m.delivery_errors_by_type;
}

unfoldable pub inc_verification_failure : String → Metrics → Metrics
inc_verification_failure label m = record m {
  verification_failures = inc label m.verification_failures;
}

unfoldable pub inc_dlq : String → Metrics → Metrics
inc_dlq label m = record m { dlq_by_handler = inc label m.dlq_by_handler }

unfoldable pub inc_workflow_started : String → Metrics → Metrics
inc_workflow_started label m = record m {
  workflow_runs_started = inc label m.workflow_runs_started;
}

unfoldable pub inc_workflow_completed : String → Metrics → Metrics
inc_workflow_completed label m = record m {
  workflow_runs_completed = inc label m.workflow_runs_completed;
}

unfoldable pub inc_workflow_failed : String → Metrics → Metrics
inc_workflow_failed label m = record m { workflow_runs_failed = inc label m.workflow_runs_failed }

unfoldable pub inc_workflow_step_completed : String → Metrics → Metrics
inc_workflow_step_completed label m = record m {
  workflow_steps_completed = inc label m.workflow_steps_completed;
}

unfoldable pub inc_circuit_opened : String → Metrics → Metrics
inc_circuit_opened label m = record m { circuit_opened = inc label m.circuit_opened }

unfoldable pub inc_circuit_rejected : String → Metrics → Metrics
inc_circuit_rejected label m = record m { circuit_rejected = inc label m.circuit_rejected }

unfoldable pub inc_queue_messages_delivered : String → ℕ → Metrics → Metrics
inc_queue_messages_delivered label n m = record m {
  queue_messages_delivered = inc_by label n m.queue_messages_delivered;
}

unfoldable pub inc_queue_messages_acked : String → ℕ → Metrics → Metrics
inc_queue_messages_acked label n m = record m {
  queue_messages_acked = inc_by label n m.queue_messages_acked;
}

unfoldable pub inc_queue_messages_nacked : String → ℕ → Metrics → Metrics
inc_queue_messages_nacked label n m = record m {
  queue_messages_nacked = inc_by label n m.queue_messages_nacked;
}

unfoldable pub inc_queue_messages_expired : String → ℕ → Metrics → Metrics
inc_queue_messages_expired label n m = record m {
  queue_messages_expired = inc_by label n m.queue_messages_expired;
}

unfoldable pub dlq_total : Metrics → ℕ
dlq_total m = total m.dlq_by_handler

unfoldable pub verification_failure_total : Metrics → ℕ
verification_failure_total m = total m.verification_failures
