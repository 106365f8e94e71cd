-- ===== src/Worker/Visibility.antt =====
-- src/queue.rs, `recover_expired_queue_messages`: the messages of all queues that were received and
-- neither acknowledged nor given back in time.
use Prim.Native.String.{◌++◌ as ◌<>◌}
use qhook.Prelude.{
  ℕ, ◌≡◌, ◌⊎◌, inl, inr, refl, Bool, false, List, [], ◌∷◌, String, arith, nat_beq, All,
  if◌then◌else◌, Bool-cases,
}
use qhook.Prelude.Classes.{string_eq}
use qhook.Sql.{count_where, update_where}
use qhook.Db.{Job, Database, has_status}
use qhook.Db.Jobs.{reschedule, update_jobs}
use qhook.Db.Queue.{is_invisible, recover_expired_queue_messages}
use qhook.Metrics
use qhook.Metrics.{Metrics}

-- A configured queue: its name, and its visibility timeout in seconds, as `parse_duration` reads
-- it; the time and the failure are those of the call of the database.
pub record Queue : Type 0 where
  pub name : String
  pub timeout_secs : ℕ
  pub at : ℕ
  pub fault : Bool

-- format!("queue/{}", name)
abbrev pub handler_of : Queue → String
handler_of q = "queue/" <> q.name

-- What is counted after a call: an error, or the messages if there are any.
abbrev pub report : String → ℕ → Metrics → Metrics
report name n m = if nat_beq n 0 then m else Metrics.inc_queue_messages_expired name n m

unfoldable pub recover_queue : Queue → Database × Metrics → Database × Metrics
recover_queue q (db, m) =
    if nat_beq q.timeout_secs 0
    then (db, m)
    else (if q.fault
        then (db, Metrics.inc_db_errors m)
        else (let (db', n) = recover_expired_queue_messages (handler_of q) q.timeout_secs q.at db in
            (db', report q.name n m)))

unfoldable pub recover_queues : List Queue → Database × Metrics → Database × Metrics
recover_queues [] w = w
recover_queues (q ∷ qs) w = recover_queues qs (recover_queue q w)

-- No message of the queue has been held beyond the timeout.
abbrev pub IsRecovered : Queue → Database → Type 0
IsRecovered q db = count_where (is_invisible (handler_of q) q.timeout_secs q.at) db.jobs ≡ 0

rescheduled_none :
    (h : String) (secs now at : ℕ) (p : Job → Bool) (rows : List Job)
    → count_where (is_invisible h secs now) rows ≡ 0
    → count_where (is_invisible h secs now) (update_where p (reschedule at) rows) ≡ 0
unfolding count_where update_where is_invisible has_status
rescheduled_none h secs now at p [] e = refl
rescheduled_none h secs now at p (r ∷ rows) e =
    ground (arith, rescheduled_none h secs now at p rows)

own_none :
    (h : String) (secs now : ℕ) (rows : List Job)
    → count_where
        (is_invisible h secs now)
        (update_where (is_invisible h secs now) (reschedule now) rows)
      ≡ 0
unfolding count_where update_where is_invisible has_status
own_none h secs now [] = refl
own_none h secs now (r ∷ rows) = ground (arith, own_none h secs now rows)

recover_queue-IsRecovered :
    (q : Queue) (db : Database) (m : Metrics)
    → q.fault ≡ false
    → (q.timeout_secs ≡ 0) ⊎ IsRecovered q (recover_queue q (db, m)).0
unfolding recover_queue recover_expired_queue_messages update_jobs
recover_queue-IsRecovered q db m x = elim (Bool-cases (nat_beq q.timeout_secs 0)) [
  | inl e ↦ inl (ground arith)
  | inr e ↦ inr (rw (e, x) (own_none (handler_of q) q.timeout_secs q.at db.jobs))
]

recover_queue_keeps :
    (q r : Queue) (db : Database) (m : Metrics)
    → IsRecovered q db
    → IsRecovered q (recover_queue r (db, m)).0
unfolding recover_queue recover_expired_queue_messages update_jobs
recover_queue_keeps q r db m h = ground (
  arith,
  rescheduled_none (handler_of q) q.timeout_secs q.at r.at
      (is_invisible (handler_of r) r.timeout_secs r.at) db.jobs h,
)

recover_queues_keep :
    (q : Queue) (qs : List Queue) (db : Database) (m : Metrics)
    → IsRecovered q db
    → IsRecovered q (recover_queues qs (db, m)).0
unfolding recover_queues
recover_queues_keep q [] db m h = h
recover_queues_keep q (r ∷ qs) db m h =
    let w = recover_queue r (db, m) in
    recover_queues_keep q qs w.0 w.1 (recover_queue_keeps q r db m h)

-- A round of the recovery over all queues, in whatever order the map of queues is iterated and with
-- a database that answers, leaves no message of a queue held beyond the queue's timeout, unless the
-- timeout is 0, which turns the recovery of the queue off.
pub recover_queues-IsRecovered :
    (qs : List Queue) (db : Database) (m : Metrics)
    → All (λ q. q.fault ≡ false) qs
    → All (λ q. (q.timeout_secs ≡ 0) ⊎ IsRecovered q (recover_queues qs (db, m)).0) qs
unfolding recover_queues
recover_queues-IsRecovered [] db m x = tt
recover_queues-IsRecovered (q ∷ qs) db m (x, xs) =
    let w = recover_queue q (db, m) in
    (
      elim (recover_queue-IsRecovered q db m x) [
        | inl off ↦ inl off
        | inr done ↦ inr (recover_queues_keep q qs w.0 w.1 done)
      ],
      recover_queues-IsRecovered qs w.0 w.1 xs,
    )
