-- ===== src/Db/Fetch.antt =====
-- src/db.rs, `fetch_available_jobs` on PostgreSQL: workers that poll one after the other.
use qhook.Prelude.{
  ℕ, zero, suc, ◌≤◌, ◌≡◌, refl, ◌∙◌, true, false, List, [], ◌∷◌, map, take, arith, All, length,
  length-take-le, Bool-cases, inl, inr, leb,
}
use qhook.Prelude.Classes.{string_eq}
use qhook.Sql.{update_where, select_where, exists_where, insert_by, sort_onto, order_limit}
use qhook.Sql.Counts.{All-update_split, All-select_split, All-trivial}
use qhook.Db.{postgres, Job, Database}
use qhook.Db.Jobs.{is_fetchable, is_queue, in_batch, start, returned, fetch_available_jobs}

module _ (P : Job → Type 0) (key : Job → ℕ) where
  All-insert_by : (j : Job) (js : List Job) → P j → All P js → All P (insert_by key j js)
  unfolding insert_by
  All-insert_by j [] p h = (p, tt)
  All-insert_by j (r ∷ js) p h = elim (Bool-cases (leb (key r) (key j))) [
    | inl e ↦ rw e (h.0, All-insert_by j js p h.1)
    | inr e ↦ rw e (p, h)
  ]

  All-sort_onto : (js done : List Job) → All P js → All P done → All P (sort_onto key js done)
  unfolding sort_onto
  All-sort_onto [] done h d = d
  All-sort_onto (j ∷ js) done h d =
      All-sort_onto js (insert_by key j done) h.1 (All-insert_by j done h.0 d)

  All-take : (n : ℕ) (js : List Job) → All P js → All P (take n js)
  All-take zero js h = tt
  All-take (suc n) [] h = tt
  All-take (suc n) (j ∷ js) h = (h.0, All-take n js h.1)

  pub All-order_limit : (n : ℕ) (js : List Job) → All P js → All P (order_limit key n js)
  unfolding order_limit
  All-order_limit n js h = All-take n (sort_onto key js []) (All-sort_onto js [] h tt)

-- The rows that a fetch selects.
unfoldable pub fetched : ℕ → ℕ → List Job → List Job
fetched now limit rows =
    order_limit (λ j. j.scheduled_at) limit (select_where (is_fetchable now) rows)

-- A row that can be fetched is not of the batch.
abbrev IsFresh : ℕ → List Job → Job → Type 0
IsFresh now batch j = is_fetchable now j ≡ true → in_batch batch j ≡ false

started_not_fetchable : (now later : ℕ) (j : Job) → is_fetchable later (start now j) ≡ false
unfolding is_fetchable
started_not_fetchable now later j = refl

marked-IsFresh :
    (now later : ℕ) (batch rows : List Job)
    → All (IsFresh later batch) (update_where (in_batch batch) (start now) rows)
marked-IsFresh now later batch rows =
    All-update_split (λ _. Unit {0}) (IsFresh later batch) (in_batch batch) (start now)
      (λ j e _ h. ground (arith, started_not_fetchable now later j)) (λ j e _ h. e) rows
      (All-trivial (λ _. Unit {0}) (λ _. tt) rows)

fetched_disjoint :
    (now later limit : ℕ) (batch rows : List Job)
    → All
        (λ j. (is_fetchable later j ≡ true) × (in_batch batch j ≡ false))
        (fetched later limit (update_where (in_batch batch) (start now) rows))
unfolding fetched
fetched_disjoint now later limit batch rows =
    let rows' = update_where (in_batch batch) (start now) rows in
    All-order_limit (λ j. (is_fetchable later j ≡ true) × (in_batch batch j ≡ false))
      (λ j. j.scheduled_at) limit (select_where (is_fetchable later) rows')
      (All-select_split (IsFresh later batch)
        (λ j. (is_fetchable later j ≡ true) × (in_batch batch j ≡ false)) (is_fetchable later)
        (λ j e fresh. (e, fresh e)) rows' (marked-IsFresh now later batch rows))

length-map : {A B : Type 0} (f : A → B) (xs : List A) → length (map f xs) ≡ length xs
length-map f [] = refl
length-map f (x ∷ xs) = rw (length-map f xs)

in_batch-returned :
    (now : ℕ) (batch : List Job) (j : Job)
    → in_batch (map (returned now) batch) j ≡ in_batch batch j
unfolding in_batch exists_where returned
in_batch-returned now [] j = refl
in_batch-returned now (b ∷ batch) j = rw (in_batch-returned now batch j)

-- What a worker gets that polls after another one took `taken`.
abbrev pub IsNewWork : ℕ → List Job → Job → Type 0
IsNewWork now taken j =
    (in_batch taken j ≡ false) × (is_queue j.handler ≡ false) × (j.scheduled_at ≤ now)

new_work :
    (now later : ℕ) (batch : List Job) (j : Job)
    → (is_fetchable later j ≡ true) × (in_batch batch j ≡ false)
    → IsNewWork later (map (returned now) batch) (returned later j)
unfolding is_fetchable returned in_batch
new_work now later batch j h = (in_batch-returned now batch j ∙ h.1, ground arith, ground arith)

All-map :
    {A B : Type 0} (P : A → Type 0) (Q : B → Type 0) (f : A → B)
    → ((a : A) → P a → Q (f a))
    → (xs : List A) → All P xs
    → All Q (map f xs)
All-map P Q f h [] all = tt
All-map P Q f h (x ∷ xs) all = (h x all.0, All-map P Q f h xs all.1)

abbrev marked : ℕ → List Job → Database → Database
marked now batch db = record db { jobs = update_where (in_batch batch) (start now) db.jobs }

fetch_postgres :
    (now limit : ℕ) (db : Database)
    → db.driver ≡ postgres
    → let batch = fetched now limit db.jobs in
      fetch_available_jobs now limit db ≡ (marked now batch db, map (returned now) batch)
unfolding fetch_available_jobs fetched
fetch_postgres now limit db h = ground arith

length-fetched : (now limit : ℕ) (rows : List Job) → length (fetched now limit rows) ≤ limit
unfolding fetched order_limit
length-fetched now limit rows =
    length-take-le limit (sort_onto (λ j. j.scheduled_at) (select_where (is_fetchable now) rows) [])

fetched_twice :
    (now later limit limit' : ℕ) (rows : List Job)
    → let batch = fetched now limit rows in
      let next = fetched later limit' (update_where (in_batch batch) (start now) rows) in
      (length (map (returned later) next) ≤ limit')
      × All (IsNewWork later (map (returned now) batch)) (map (returned later) next)
fetched_twice now later limit limit' rows =
    let batch = fetched now limit rows in
    let next = fetched later limit' (update_where (in_batch batch) (start now) rows) in
    (
      rw (length-map (returned later) next)
          (length-fetched later limit' (update_where (in_batch batch) (start now) rows)),
      All-map (λ j. (is_fetchable later j ≡ true) × (in_batch batch j ≡ false))
          (IsNewWork later (map (returned now) batch)) (returned later) (new_work now later batch)
          next (fetched_disjoint now later limit' batch rows),
    )

-- On PostgreSQL no job is delivered twice by workers that poll: a poll that follows another, at any
-- time and with any limits, gets none of the jobs that the first one took, no message of a
-- pull-mode queue, only jobs that are due, and no more than its limit.
pub fetch_available_jobs_disjoint :
    (now later limit limit' : ℕ) (db : Database)
    → db.driver ≡ postgres
    → let (db', taken) = fetch_available_jobs now limit db in
      let next = (fetch_available_jobs later limit' db').1 in
      (length next ≤ limit') × All (IsNewWork later taken) next
fetch_available_jobs_disjoint now later limit limit' db h = rw (fetch_postgres now limit db h) (
    rw (fetch_postgres later limit' (marked now (fetched now limit db.jobs) db) h)
      (fetched_twice now later limit limit' db.jobs))
