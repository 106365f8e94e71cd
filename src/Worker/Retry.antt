-- ===== src/Worker/Retry.antt =====
-- src/queue.rs, the loop of `Worker::run` with `handle_failure`: a job whose deliveries all fail.
use mathlib.Core.Path.{subst}
use qhook.Prelude.{
  sym, ◌⊎◌, inl, inr, ℕ, zero, suc, ◌+◌, ◌-◌, ◌*◌, ◌≤◌, ◌<◌, ◌≡◌, refl, ◌∙◌, Bool, true, false,
  Option, none, some, List, [], ◌∷◌, String, arith, leb, ltb, length,
}
use qhook.Prelude.Classes.{string_eq}
use qhook.Sql.{find_where, count_where}
use qhook.Sql.Laws.{
  find_where-update_where, find_where-update_self, find_where-holds, count_where-update_where,
}
use qhook.Db.{Job, Database, dead, is_pending}
use qhook.Db.Jobs.{
  has_id, is_claimable, start, mark_job_running, mark_job_dead, mark_job_retryable, fail_at, kill,
}
use qhook.Db.Claim.{lost_claim}
use qhook.Worker.Failure.{backoff_secs, handle_failure}

-- One round of the loop on a job: the row as a fetch reads it, the claim, and the task. The circuit
-- lets the task through or not; if it does not, the job is put off by ten seconds, and if it does, the
-- delivery fails by an error of the transport, of which the row sees `handle_failure` alone, whether
-- the attempt is stored or not. The count is of the deliveries.
unfoldable pub deliver_claimed : Bool → Bool → ℕ → (ℕ → ℕ) → Job → String → Database → Database × ℕ
deliver_claimed false allowed now jitter job error db = (db, 0)
deliver_claimed true true now jitter job error db =
    ((handle_failure now jitter job error none db).0, 1)
deliver_claimed true false now jitter job error db =
    (mark_job_retryable job.id (now + 10000) "circuit breaker open" db, 0)

unfoldable pub try_job : ℕ × Bool → (ℕ → ℕ) → Option Job → String → Database → Database × ℕ
try_job (now, allowed) jitter none error db = (db, 0)
try_job (now, allowed) jitter (some job) error db =
    let (db', won) = mark_job_running now job.id db in
    deliver_claimed won allowed now jitter job error db'

-- The rounds of a job, each with its time and with what the circuit says.
unfoldable pub try_all : List (ℕ × Bool) → (ℕ → ℕ) → String → String → Database → Database × ℕ
unfolding deliver_claimed try_job
try_all [] jitter id error db = (db, 0)
try_all (round ∷ rounds) jitter id error db =
    let (db', n) = try_job round jitter (find_where (has_id id) db.jobs) error db in
    let (db'', total) = try_all rounds jitter id error db' in (db'', n + total)

-- The row of the job is there, and it is pending after `a` of its attempts.
abbrev pub IsPendingAt : ℕ → ℕ → String → Database → Type 0
IsPendingAt a m id db =
    (j : Job) × (find_where (has_id id) db.jobs ≡ some j)
    × (j.id ≡ id)
    × (is_pending j.status ≡ true)
    × (j.attempt ≡ a)
    × (j.max_attempts ≡ m)

-- The row of the job is dead, and no other row with its id is pending.
abbrev pub IsDead : String → Database → Type 0
IsDead id db =
    (j : Job) × (find_where (has_id id) db.jobs ≡ some j)
    × (j.id ≡ id)
    × (j.status ≡ dead)
    × (count_where (is_claimable id) db.jobs ≡ 0)

count-pos :
    {A : Type 0} (q p : A → Bool) (rows : List A) {r : A}
    → find_where q rows ≡ some r
    → p r ≡ true
    → ltb 0 (count_where p rows) ≡ true
unfolding find_where count_where
count-pos q p [] h k = cc
count-pos q p (x ∷ rows) {r} h k = ground (arith, count-pos q p rows {r = r})

found_claimable :
    (id : String) (rows : List Job) {j : Job}
    → find_where (has_id id) rows ≡ some j
    → is_pending j.status ≡ true
    → is_claimable id j ≡ true
unfolding is_claimable has_id
found_claimable id rows h p = ground (arith, find_where-holds (has_id id) rows h)

pub claimed :
    (now : ℕ) (id : String) (db : Database) {j : Job}
    → find_where (has_id id) db.jobs ≡ some j
    → is_pending j.status ≡ true
    → ((mark_job_running now id db).1 ≡ true)
      × (find_where (has_id id) (mark_job_running now id db).0.jobs ≡ some (start now j))
unfolding mark_job_running
claimed now id db h p =
    let c = found_claimable id db.jobs h p in
    (
      count-pos (has_id id) (is_claimable id) db.jobs h c,
      find_where-update_where (has_id id) (is_claimable id) (start now) (unfold has_id in λ r. refl)
            db.jobs h
          ∙ rw c,
    )

killed_not_claimable :
    (id error : String) (now : ℕ) (j : Job) → is_claimable id (kill now error j) ≡ false
unfolding is_claimable
killed_not_claimable id error now j = ground arith

other_not_claimable : (id : String) (j : Job) → has_id id j ≡ false → is_claimable id j ≡ false
unfolding is_claimable has_id
other_not_claimable id j h = ground arith

IsDead-after :
    (now : ℕ) (id error : String) (db : Database) {j : Job}
    → find_where (has_id id) db.jobs ≡ some j
    → j.id ≡ id
    → IsDead id (mark_job_dead now id error db)
unfolding mark_job_dead
IsDead-after now id error db {j} h e = (
  kill now error j,
  find_where-update_self (has_id id) (kill now error) (unfold has_id in λ r. refl) db.jobs h,
  e,
  refl,
  count_where-update_where (is_claimable id) (has_id id) (kill now error)
      (λ r _. killed_not_claimable id error now r) (other_not_claimable id) db.jobs,
)

pub retry_after_failure :
    (at a m : ℕ) (id error : String) (db : Database) {j : Job}
    → find_where (has_id id) db.jobs ≡ some j
    → j.id ≡ id
    → j.attempt ≡ a
    → j.max_attempts ≡ m
    → IsPendingAt a m id (mark_job_retryable id at error db)
unfolding mark_job_retryable fail_at
retry_after_failure at a m id error db {j} h e n k = (
  fail_at at error j,
  find_where-update_self (has_id id) (fail_at at error) (unfold has_id in λ r. refl) db.jobs h,
  e,
  refl,
  n,
  k,
)

-- A delivery that fails before the last attempt leaves the job pending, one attempt further.
early_round :
    (now a m : ℕ) (jitter : ℕ → ℕ) (id error : String) (db : Database)
    → IsPendingAt a m id db
    → suc a < m
    → let r = try_job (now, true) jitter (find_where (has_id id) db.jobs) error db in
      IsPendingAt (suc a) m id r.0 × (r.1 ≡ 1)
unfolding try_job deliver_claimed handle_failure
early_round now a m jitter id error db (j, found, e, p, n, k) h =
    let (won, started) = claimed now id db found p in
    let more : leb j.max_attempts (j.attempt + 1) ≡ false = ground arith in
    rw (found, e, won, more)
      (
        retry_after_failure (now + backoff_secs jitter (j.attempt + 1) none * 1000) (suc a) m id
            error (mark_job_running now id db).0 started e (ground arith) k,
        refl,
      )

pub last_round :
    (now a m : ℕ) (jitter : ℕ → ℕ) (id error : String) (db : Database)
    → IsPendingAt a m id db
    → m ≤ suc a
    → let r = try_job (now, true) jitter (find_where (has_id id) db.jobs) error db in
      IsDead id r.0 × (r.1 ≡ 1)
unfolding try_job deliver_claimed handle_failure
last_round now a m jitter id error db (j, found, e, p, n, k) h =
    let (won, started) = claimed now id db found p in
    let last : leb j.max_attempts (j.attempt + 1) ≡ true = ground arith in
    rw (found, e, won, last)
      (IsDead-after now id error (mark_job_running now id db).0 started e, refl)

-- A job that is put off is pending, one attempt further.
refused_round :
    (now a m : ℕ) (jitter : ℕ → ℕ) (id error : String) (db : Database)
    → IsPendingAt a m id db
    → let r = try_job (now, false) jitter (find_where (has_id id) db.jobs) error db in
      IsPendingAt (suc a) m id r.0 × (r.1 ≡ 0)
unfolding try_job deliver_claimed
refused_round now a m jitter id error db (j, found, e, p, n, k) =
    let (won, started) = claimed now id db found p in
    rw (found, e, won)
      (
        retry_after_failure (now + 10000) (suc a) m id "circuit breaker open"
            (mark_job_running now id db).0 started e (ground arith) k,
        refl,
      )

dead_round :
    (round : ℕ × Bool) (jitter : ℕ → ℕ) (id error : String) (db : Database)
    → IsDead id db
    → try_job round jitter (find_where (has_id id) db.jobs) error db ≡ (db, 0)
unfolding try_job deliver_claimed
dead_round (now, allowed) jitter id error db (j, found, e, d, c) =
    rw (found, e, lost_claim now id db c) refl

dead_rounds :
    (rounds : List (ℕ × Bool)) (jitter : ℕ → ℕ) (id error : String) (db : Database)
    → IsDead id db
    → try_all rounds jitter id error db ≡ (db, 0)
unfolding try_all
dead_rounds [] jitter id error db d = refl
dead_rounds (round ∷ rounds) jitter id error db d =
    rw (dead_round round jitter id error db d, dead_rounds rounds jitter id error db d) refl

-- How often a job is delivered that has `k` attempts ahead of its last one: in each of the first `k`
-- rounds in which the circuit is closed, and in the first such round behind them.
unfoldable pub deliveries : ℕ → List (ℕ × Bool) → ℕ
deliveries k [] = 0
deliveries zero ((now, true) ∷ rounds) = 1
deliveries zero ((now, false) ∷ rounds) = deliveries zero rounds
deliveries (suc k) ((now, true) ∷ rounds) = suc (deliveries k rounds)
deliveries (suc k) ((now, false) ∷ rounds) = deliveries k rounds

-- From the k-th round on the circuit is open.
abbrev pub OpenFrom : ℕ → List (ℕ × Bool) → Type 0
OpenFrom k [] = Unit
OpenFrom zero ((now, allowed) ∷ rounds) = (allowed ≡ false) × OpenFrom zero rounds
OpenFrom (suc k) ((now, allowed) ∷ rounds) = OpenFrom k rounds

deliveries_bounded : (k : ℕ) (rounds : List (ℕ × Bool)) → deliveries k rounds ≤ suc k
unfolding deliveries
deliveries_bounded k [] = omega arith
deliveries_bounded zero ((now, true) ∷ rounds) = omega arith
deliveries_bounded zero ((now, false) ∷ rounds) = deliveries_bounded zero rounds
deliveries_bounded (suc k) ((now, true) ∷ rounds) =
    (let rest = deliveries_bounded k rounds in omega arith)
deliveries_bounded (suc k) ((now, false) ∷ rounds) =
    (let rest = deliveries_bounded k rounds in omega arith)

-- Where the rounds leave the job.
abbrev Left : ℕ → ℕ → ℕ → List (ℕ × Bool) → String → Database → Type 0
Left k a m rounds id db =
    IsDead id db ⊎ (IsPendingAt (a + length rounds) m id db × OpenFrom k rounds)

Left-later :
    (k k' a m : ℕ) (round : ℕ × Bool) (rounds : List (ℕ × Bool)) (id : String) (db : Database)
    → (OpenFrom k rounds → OpenFrom k' (round ∷ rounds))
    → Left k (suc a) m rounds id db
    → Left k' a m (round ∷ rounds) id db
Left-later k k' a m round rounds id db h (inl gone) = inl gone
Left-later k k' a m round rounds id db h (inr (p, o)) =
    let e : suc a + length rounds ≡ a + suc (length rounds) = omega arith in
    inr (subst (λ b. IsPendingAt b m id db) e p, h o)

try_all-Left :
    (k a m : ℕ) (rounds : List (ℕ × Bool)) (jitter : ℕ → ℕ) (id error : String) (db : Database)
    → IsPendingAt a m id db
    → k ≡ m - suc a
    → let r = try_all rounds jitter id error db in
      (r.1 ≡ deliveries k rounds) × Left k a m rounds id r.0
unfolding try_all deliveries
try_all-Left k a m [] jitter id error db p h = (
  refl,
  inr ((let e : a + 0 ≡ a = omega arith in subst (λ b. IsPendingAt b m id db) (sym e) p), tt),
)
try_all-Left zero a m ((now, true) ∷ rounds) jitter id error db p h =
    let (gone, once) = last_round now a m jitter id error db p (omega arith) in
    let db' = (try_job (now, true) jitter (find_where (has_id id) db.jobs) error db).0 in
    let rest = dead_rounds rounds jitter id error db' gone in
    (rw (once, rest) refl, inl (rw rest gone))
try_all-Left zero a m ((now, false) ∷ rounds) jitter id error db p h =
    let (next, none_sent) = refused_round now a m jitter id error db p in
    let db' = (try_job (now, false) jitter (find_where (has_id id) db.jobs) error db).0 in
    let (total, end) = try_all-Left zero (suc a) m rounds jitter id error db' next (omega arith) in
    (
      rw (none_sent, total) (omega arith),
      Left-later zero zero a m (now, false) rounds id (try_all rounds jitter id error db').0
          (λ o. (refl, o)) end,
    )
try_all-Left (suc k) a m ((now, true) ∷ rounds) jitter id error db p h =
    let (next, once) = early_round now a m jitter id error db p (omega arith) in
    let db' = (try_job (now, true) jitter (find_where (has_id id) db.jobs) error db).0 in
    let (total, end) = try_all-Left k (suc a) m rounds jitter id error db' next (omega arith) in
    (
      rw (once, total) (omega arith),
      Left-later k (suc k) a m (now, true) rounds id (try_all rounds jitter id error db').0 (λ o. o)
          end,
    )
try_all-Left (suc k) a m ((now, false) ∷ rounds) jitter id error db p h =
    let (next, none_sent) = refused_round now a m jitter id error db p in
    let db' = (try_job (now, false) jitter (find_where (has_id id) db.jobs) error db).0 in
    let (total, end) = try_all-Left k (suc a) m rounds jitter id error db' next (omega arith) in
    (
      rw (none_sent, total) (omega arith),
      Left-later k (suc k) a m (now, false) rounds id (try_all rounds jitter id error db').0
          (λ o. o) end,
    )

-- A job whose deliveries all fail, after `a` of its `m` attempts: the circuit can put it off, and this
-- takes up an attempt too. It is delivered in each round in which the circuit is closed, as long as
-- more than one attempt is left, and once more when the circuit is next closed, so at most as often
-- as it has attempts left, or once if it has none. Then it is dead; otherwise it is pending, with
-- every round counted, and the circuit was open in all the rounds behind the last but one attempt.
pub try_all_bounded :
    (k a m : ℕ) (rounds : List (ℕ × Bool)) (jitter : ℕ → ℕ) (id error : String) (db : Database)
    → IsPendingAt a m id db
    → k ≡ m - suc a
    → let r = try_all rounds jitter id error db in
      (r.1 ≡ deliveries k rounds)
      × (r.1 ≤ suc k)
      × (IsDead id r.0 ⊎ (IsPendingAt (a + length rounds) m id r.0 × OpenFrom k rounds))
try_all_bounded k a m rounds jitter id error db p h =
    let (count, left) = try_all-Left k a m rounds jitter id error db p h in
    let bound = deliveries_bounded k rounds in (count, (rw count bound), left)
