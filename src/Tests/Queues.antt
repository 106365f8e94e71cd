-- ===== src/Tests/Queues.antt =====
-- Runs of the pull-mode queues, the callbacks and the joins of src/db.rs.
use qhook.Prelude.{not, ◌&&◌, ◌≡◌, refl, some, [], ◌∷◌}
use qhook.Db.{Database, waiting, has_status}
use qhook.Sql.{count_where, exists_where, find_where}
use qhook.Db.Queue.{ack_queue_messages, nack_queue_messages}
use qhook.Db.Runs.{get_workflow_run, has_run_id}
use qhook.Db.Steps.{is_awaiting, is_lapsed, is_timed_out}
use qhook.Db.Settle.{ack_final}
use qhook.Tests.{job_of, tables, flow}

ack_final_example :
    let db' = (ack_queue_messages 5 (λ id. id) "queue/mail" ("m1" ∷ "m1" ∷ []) tables).0 in
    (ack_queue_messages 6 (λ id. "again") "queue/mail" ("m1" ∷ "m1" ∷ []) db' ≡ (db', 0))
    × (nack_queue_messages 6 (λ n. n) "queue/mail" ("m1" ∷ "m1" ∷ []) db' ≡ (db', 0, 0))
ack_final_example =
    ack_final 5 6 (λ id. id) (λ id. "again") (λ n. n) "queue/mail" ("m1" ∷ "m1" ∷ []) tables

flow_there : get_workflow_run "r1" tables ≡ some flow
unfolding get_workflow_run find_where has_run_id
flow_there = refl

-- A callback whose run had until 5.
abbrev late : Database
late = record tables {
  jobs = record (job_of "j4" waiting 0) { workflow_run_id = some "r1" } ∷ [];
  runs = record flow { timeout_at = some 5 } ∷ [];
}

late_lapsed : count_where (λ j. is_awaiting "j4" j && not (is_lapsed 9 late.runs j)) late.jobs ≡ 0
unfolding count_where is_awaiting is_lapsed has_status is_timed_out exists_where
late_lapsed = refl
