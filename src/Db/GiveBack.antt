-- ===== src/Db/GiveBack.antt =====
-- src/db.rs, `nack_queue_messages`: what becomes of a message that is given back.
use native.Mathlib.Nat.{pow-suc}
use qhook.Prelude.{
  ℕ, zero, suc, ◌+◌, ◌-◌, ◌*◌, ◌^◌, ◌≤◌, ◌≡◌, refl, Bool, false, Option, none, some, List, [], ◌∷◌,
  String, arith, ltb, min, Bool-cases, inl, inr,
}
use qhook.Prelude.Classes.{string_eq}
use qhook.Sql.{find_where, count_where}
use qhook.Sql.Counts.{count_where-update_zero}
use qhook.Sql.Laws.{count_where-update_where}
use qhook.Db.{Job, Database, has_status}
use qhook.Db.Jobs.{fail_at, kill, update_jobs}
use qhook.Db.Queue.{
  is_held, is_running_id, ack_queue_messages, nack_backoff, nack_row, nack_one, nack_queue_messages,
}
use qhook.Db.Settle.{NoneHeld, ack_none, nack_none}

count_of_find_where :
    {A : Type 0} (p : A → Bool) (rows : List A) → find_where p rows ≡ none → count_where p rows ≡ 0
unfolding find_where count_where
count_of_find_where p [] h = refl
count_of_find_where p (r ∷ rows) h = ground (arith, count_of_find_where p rows)

-- A write that ends the delivery of a job.
abbrev Ends : (Job → Job) → Type 0
Ends f = (handler id : String) (j : Job) → is_held handler id (f j) ≡ false

fail_at-Ends : (at : ℕ) (error : String) → Ends (fail_at at error)
unfolding is_held has_status fail_at
fail_at-Ends at error handler id j = ground arith

kill-Ends : (now : ℕ) (error : String) → Ends (kill now error)
unfolding is_held has_status
kill-Ends now error handler id j = ground arith

not_running_not_held :
    (handler id : String) (j : Job) → is_running_id id j ≡ false → is_held handler id j ≡ false
unfolding is_running_id is_held
not_running_not_held handler id j h = ground arith

end_settles :
    (f : Job → Job) (handler id : String) (db : Database)
    → Ends f
    → count_where (is_held handler id) (update_jobs (is_running_id id) f db).0.jobs ≡ 0
unfolding update_jobs
end_settles f handler id db e =
    count_where-update_where (is_held handler id) (is_running_id id) f (λ j h. e handler id j)
      (not_running_not_held handler id) db.jobs

end_keeps :
    (f : Job → Job) (handler id other : String) (db : Database)
    → Ends f
    → count_where (is_held handler other) db.jobs ≡ 0
    → count_where (is_held handler other) (update_jobs (is_running_id id) f db).0.jobs ≡ 0
unfolding update_jobs
end_keeps f handler id other db e =
    count_where-update_zero (is_held handler other) (is_running_id id) f (λ j h. e handler other j)
      db.jobs

nack_row-settles :
    (now : ℕ) (jitter : ℕ → ℕ) (handler id : String) (o : Option Job) (db : Database)
    → find_where (is_held handler id) db.jobs ≡ o
    → count_where (is_held handler id) (nack_row now jitter id o db).0.jobs ≡ 0
unfolding nack_row
nack_row-settles now jitter handler id none db h =
    count_of_find_where (is_held handler id) db.jobs h
nack_row-settles now jitter handler id (some j) db h =
    elim (Bool-cases (ltb j.attempt j.max_attempts)) [
      | inl again ↦ rw again (end_settles _ handler id db (fail_at-Ends _ "nack"))
      | inr over ↦ rw over (end_settles _ handler id db (kill-Ends now _))
    ]

nack_row-keeps :
    (now : ℕ) (jitter : ℕ → ℕ) (handler id other : String) (o : Option Job) (db : Database)
    → count_where (is_held handler other) db.jobs ≡ 0
    → count_where (is_held handler other) (nack_row now jitter id o db).0.jobs ≡ 0
unfolding nack_row
nack_row-keeps now jitter handler id other none db h = h
nack_row-keeps now jitter handler id other (some j) db h =
    elim (Bool-cases (ltb j.attempt j.max_attempts)) [
      | inl again ↦ rw again (end_keeps _ handler id other db (fail_at-Ends _ "nack") h)
      | inr over ↦ rw over (end_keeps _ handler id other db (kill-Ends now _) h)
    ]

nack-keeps :
    (now : ℕ) (jitter : ℕ → ℕ) (handler other : String) (ids : List String) (db : Database)
    → count_where (is_held handler other) db.jobs ≡ 0
    → count_where (is_held handler other) (nack_queue_messages now jitter handler ids db).0.jobs ≡ 0
unfolding nack_queue_messages nack_one
nack-keeps now jitter handler other [] db h = h
nack-keeps now jitter handler other (id ∷ ids) db h =
    nack-keeps now jitter handler other ids (nack_one now jitter handler id db).0
      (nack_row-keeps now jitter handler id other (find_where (is_held handler id) db.jobs) db h)

nack-NoneHeld :
    (now : ℕ) (jitter : ℕ → ℕ) (handler : String) (ids : List String) (db : Database)
    → NoneHeld handler ids (nack_queue_messages now jitter handler ids db).0
unfolding nack_queue_messages nack_one
nack-NoneHeld now jitter handler [] db = tt
nack-NoneHeld now jitter handler (id ∷ ids) db =
    let o = find_where (is_held handler id) db.jobs in
    let db' = (nack_row now jitter id o db).0 in
    (
      nack-keeps now jitter handler id ids db' (nack_row-settles now jitter handler id o db refl),
      nack-NoneHeld now jitter handler ids db',
    )

-- To give messages back is final too: none of them can be acknowledged or given back once more
-- before it is received again, so that no message is rescheduled twice for one delivery.
pub nack_final :
    (now later : ℕ) (ulid : String → String) (jitter jitter' : ℕ → ℕ) (handler : String)
    (ids : List String) (db : Database)
    → let db' = (nack_queue_messages now jitter handler ids db).0 in
      (ack_queue_messages later ulid handler ids db' ≡ (db', 0))
      × (nack_queue_messages later jitter' handler ids db' ≡ (db', 0, 0))
nack_final now later ulid jitter jitter' handler ids db =
    let db' = (nack_queue_messages now jitter handler ids db).0 in
    let settled = nack-NoneHeld now jitter handler ids db in
    (ack_none later ulid handler ids db' settled, nack_none later jitter' handler ids db' settled)

pow-pos : (n : ℕ) → 1 ≤ 2 ^ n
pow-pos zero = omega arith
pow-pos (suc n) = rw pow-suc (omega (arith, pow-pos n))

pow-min_mono : (n : ℕ) → 2 ^ min n 20 ≤ 2 ^ min (n + 1) 20
pow-min_mono n = elim (Bool-cases (ltb n 20)) [
  | inl below ↦
      let e : min n 20 ≡ n = ground arith in
      let e' : min (n + 1) 20 ≡ suc n = ground arith in rw (e, e', pow-suc) (omega arith)
  | inr above ↦
      let e : min n 20 ≡ 20 = ground arith in
      let e' : min (n + 1) 20 ≡ 20 = ground arith in rw (e, e') (omega arith)
]

pow-ge_mono : (n k : ℕ) → 2 ^ k ≤ 2 ^ (n + k)
pow-ge_mono zero k = let e : 0 + k ≡ k = omega arith in rw e (omega arith)
pow-ge_mono (suc n) k =
    let e : suc n + k ≡ suc (n + k) = omega arith in
    rw (e, pow-suc) (omega (arith, pow-ge_mono n k))

exact_backoff : (attempt : ℕ) → nack_backoff attempt ≡ min (30 * 2 ^ attempt) 3600
unfolding nack_backoff
exact_backoff attempt = elim (Bool-cases (ltb attempt 20)) [
  | inl below ↦ let e : min attempt 20 ≡ attempt = ground arith in rw e (ground arith)
  | inr above ↦
      let e : min attempt 20 ≡ 20 = ground arith in
      let split : attempt ≡ (attempt - 20) + 20 = ground arith in
      let large : 2 ^ 20 ≤ 2 ^ attempt = rw split (pow-ge_mono (attempt - 20) 20) in
      rw e (ground (arith, large))
]

-- The backoff of a message lies between half a minute and an hour, never falls from one attempt to
-- the next, and is 30 seconds doubled for each attempt, cut at an hour: the cut of the exponent at
-- 20 changes nothing.
pub nack_backoff_bounds :
    (attempt : ℕ)
    → (30 ≤ nack_backoff attempt)
      × (nack_backoff attempt ≤ 3600)
      × (nack_backoff attempt ≤ nack_backoff (attempt + 1))
      × (nack_backoff attempt ≡ min (30 * 2 ^ attempt) 3600)
unfolding nack_backoff
nack_backoff_bounds attempt = (
  omega (arith, pow-pos (min attempt 20)),
  omega arith,
  omega (arith, pow-min_mono attempt),
  exact_backoff attempt,
)
