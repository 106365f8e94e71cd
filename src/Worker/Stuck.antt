-- ===== src/Worker/Stuck.antt =====
-- src/queue.rs: what a delivery leaves of the job, and the paths on which it leaves too little.
use Prim.Native.Nat.add
use mathlib.Core.Path.{subst}
use qhook.Prelude.{
  sym, ap, ◌⊎◌, inl, inr, Bool-cases, ltb, ℕ, suc, ◌+◌, ◌-◌, ◌<◌, ◌≡◌, refl, ◌∙◌, true, false,
  Option, none, some, String, List, [], ◌∷◌, All, length, arith, if◌then◌else◌,
}
use qhook.Sql.{find_where}
use qhook.Db.{Job, Database}
use qhook.Db.Jobs.{has_id, mark_job_running, mark_job_retryable}
use qhook.Worker.Circuit.{CircuitBreaker, cooled, allow_request}
use qhook.Worker.Probe.{request_all, unrecorded_probe_blocks}
use qhook.Worker.Retry.{IsPendingAt, IsDead, claimed, retry_after_failure, last_round, try_job}
use qhook.Worker.Deliver.{
  World, Outcome, Faults, Draws, responded, attempt_refused, deliver_job, run_task, on_response,
}

-- A probe whose attempt cannot be recorded is lost: if a half-open circuit admits a delivery, the
-- service answers, and the insert of the attempt fails, then the tables are as they were, so that
-- the job stays running, and no later request of the handler is allowed at any instant.
pub lost_probe_blocks :
    (f : Faults) (d : Draws) (job : Job) (status : ℕ) (retry_after : Option ℕ) (w : World)
    (c : CircuitBreaker) (nows : List ℕ) {at : ℕ}
    → w.breaker ≡ some c
    → c.opened_at ≡ some at
    → cooled c.cooldown d.now at ≡ true
    → c.half_open_in_progress ≡ false
    → f.attempt ≡ true
    → let w' = run_task f d job (responded status retry_after) w in
      (w'.db ≡ w.db)
      × ((c' : CircuitBreaker) × (w'.breaker ≡ some c') × (request_all nows c' ≡ (c', 0)))
unfolding run_task deliver_job on_response allow_request attempt_refused
lost_probe_blocks f d job status retry_after w c nows {at} b o k p h =
    let c' = record c { half_open_in_progress = true } in
    (ground arith, (c', ground arith, unrecorded_probe_blocks nows c' o refl))

-- One turn of the worker on a job: the row as a fetch reads it, the claim, and the task.
unfoldable pub task_for : Faults → Draws → Outcome → Option Job → World → World
task_for f d o none w = w
task_for f d o (some job) w =
    let (db, won) = mark_job_running d.now job.id w.db in
    let w' = record w { db = db } in if won then run_task f d job o w' else w'

unfoldable pub turns : Faults → List Draws → Outcome → String → World → World
turns f [] o id w = w
turns f (d ∷ ds) o id w = turns f ds o id (task_for f d o (find_where (has_id id) w.db.jobs) w)

open_task :
    (f : Faults) (d : Draws) (job : Job) (o : Outcome) (w : World) (c : CircuitBreaker) {at : ℕ}
    → f.put_off ≡ false
    → w.breaker ≡ some c
    → c.opened_at ≡ some at
    → d.now - at < c.cooldown
    → let w' = run_task f d job o w in
      (w'.db ≡ mark_job_retryable job.id (d.now + 10000) "circuit breaker open" w.db)
      × (w'.breaker ≡ some c)
unfolding run_task allow_request
open_task f d job o w c x b at h = (ground arith, ground arith)

attempts-mark :
    (now : ℕ) (id : String) (db : Database) → (mark_job_running now id db).0.attempts ≡ db.attempts
unfolding mark_job_running
attempts-mark now id db = refl

attempts-retryable :
    (id error : String) (at : ℕ) (db : Database)
    → (mark_job_retryable id at error db).attempts ≡ db.attempts
unfolding mark_job_retryable
attempts-retryable id error at db = refl

won_turn :
    (f : Faults) (d : Draws) (o : Outcome) (id : String) (w : World) (j : Job)
    → j.id ≡ id
    → (mark_job_running d.now id w.db).1 ≡ true
    → task_for f d o (some j) w
      ≡ run_task f d j o (record w { db = (mark_job_running d.now id w.db).0 })
unfolding task_for
won_turn f d o id w j e won = ground arith

open_turn :
    (f : Faults) (d : Draws) (o : Outcome) (id : String) (a m : ℕ) (w : World) (c : CircuitBreaker)
    {at : ℕ}
    → IsPendingAt a m id w.db
    → f.put_off ≡ false
    → w.breaker ≡ some c
    → c.opened_at ≡ some at
    → d.now - at < c.cooldown
    → let w' = task_for f d o (find_where (has_id id) w.db.jobs) w in
      IsPendingAt (suc a) m id w'.db × (w'.breaker ≡ some c) × (w'.db.attempts ≡ w.db.attempts)
open_turn f d o id a m w c (j, found, e, p, n, k) x b opened h =
    let (won, started) = claimed d.now id w.db found p in
    let db = (mark_job_running d.now id w.db).0 in
    let (stored, same) = open_task f d j o (record w { db = db }) c x b opened h in
    let put_off = λ (i : String). mark_job_retryable i (d.now + 10000) "circuit breaker open" db in
    rw (found, won_turn f d o id w j e won, stored ∙ ap put_off e)
      (
        retry_after_failure (d.now + 10000) (suc a) m id "circuit breaker open" db started e
            (ground arith) k,
        same,
        attempts-retryable id "circuit breaker open" (d.now + 10000) db
            ∙ attempts-mark d.now id w.db,
      )

-- An open circuit uses up the attempts of a job without a delivery: each turn of the worker while
-- the circuit is open, and the database answers, leaves the job pending with one attempt more, no delivery on record, and the
-- circuit as it is, also past the maximum; and the first delivery that fails after `max_attempts`
-- less one such turns makes the job dead.
pub open_circuit_consumes_attempts :
    (f : Faults) (ds : List Draws) (o : Outcome) (id : String) (a m : ℕ) (w : World)
    (c : CircuitBreaker) (now : ℕ) (jitter : ℕ → ℕ) (error : String) {at : ℕ}
    → IsPendingAt a m id w.db
    → f.put_off ≡ false
    → w.breaker ≡ some c
    → c.opened_at ≡ some at
    → All (λ d. d.now - at < c.cooldown) ds
    → let w' = turns f ds o id w in
      IsPendingAt (length ds + a) m id w'.db
      × (w'.breaker ≡ some c)
      × (w'.db.attempts ≡ w.db.attempts)
      × ((suc (length ds + a) < m)
          ⊎ IsDead id
              (try_job (now, true) jitter (find_where (has_id id) w'.db.jobs) error w'.db).0)
unfolding turns
open_circuit_consumes_attempts f [] o id a m w c now jitter error p x b opened h = (
  subst (λ n. IsPendingAt n m id w.db) (sym (add.zero a)) p,
  b,
  refl,
  elim (Bool-cases (ltb (suc a) m)) [
    | inl below ↦ inl (ground arith)
    | inr over ↦ inr (last_round now a m jitter id error w.db p (ground arith)).0
  ],
)
open_circuit_consumes_attempts f (d ∷ ds) o id a m w c now jitter error p x b opened h =
    let w₁ = task_for f d o (find_where (has_id id) w.db.jobs) w in
    let (p₁, b₁, none_added) = open_turn f d o id a m w c p x b opened h.0 in
    let (pending, same, attempts, gone) =
      open_circuit_consumes_attempts f ds o id (suc a) m w₁ c now jitter error p₁ x b₁ opened h.1 in
    let e : length ds + suc a ≡ suc (length ds) + a = omega arith in
    (
      subst (λ n. IsPendingAt n m id (turns f ds o id w₁).db) e pending,
      same,
      attempts ∙ none_added,
      elim gone [ inl below ↦ inl (omega arith) | inr over ↦ inr over ],
    )
