-- ===== src/Worker/Exclusive.antt =====
-- src/queue.rs, the poll of `Worker::run` on SQLite and MySQL: workers that have read the same rows.
use mathlib.Core.Path.{subst}
use qhook.Prelude.{
  sym, ap, ℕ, zero, suc, ◌≡◌, refl, Bool, true, false, List, [], ◌∷◌, String, arith, eq_iff, All,
  Bool-cases, inl, inr,
}
use qhook.Prelude.Classes.{◌==◌, string_eq}
use qhook.Sql.{count_where, update_where}
use qhook.Db.{Job, Database}
use qhook.Db.Jobs.{is_claimable, start, mark_job_running}
use qhook.Db.Claim.{claimed_none, lost_claim}
use qhook.Worker.Poll.{dispatch}

-- No row of the id is pending.
abbrev pub IsClaimed : Database → String → Type 0
IsClaimed db id = count_where (is_claimable id) db.jobs ≡ 0

started_none :
    (now : ℕ) (id : String) (p : Job → Bool) (rows : List Job)
    → count_where (is_claimable id) rows ≡ 0
    → count_where (is_claimable id) (update_where p (start now) rows) ≡ 0
unfolding count_where update_where is_claimable
started_none now id p [] h = refl
started_none now id p (r ∷ rows) h = ground (arith, started_none now id p rows)

mark-IsClaimed :
    (now : ℕ) (id other : String) (db : Database)
    → IsClaimed db id
    → IsClaimed (mark_job_running now other db).0 id
unfolding mark_job_running
mark-IsClaimed now id other db h = started_none now id (is_claimable other) db.jobs h

won_other :
    (now : ℕ) (id other : String) (db : Database)
    → IsClaimed db id
    → (mark_job_running now other db).1 ≡ true
    → (id == other) ≡ false
won_other now id other db h won = elim (Bool-cases (id == other)) [
  | inl e ↦
      let same : id ≡ other = (eq_iff id other).0 e in
      let lost : (mark_job_running now id db).1 ≡ false = ap (λ x. x.1) (lost_claim now id db h) in
      let won' : (mark_job_running now id db).1 ≡ true =
        subst (λ o. (mark_job_running now o db).1 ≡ true) (sym same) won in
      cc
  | inr n ↦ n
]

dispatch-IsClaimed :
    (now permits : ℕ) (jobs : List Job) (id : String) (db : Database)
    → IsClaimed db id
    → IsClaimed (dispatch false now permits jobs db).0 id
      × All (λ k. (id == k.id) ≡ false) (dispatch false now permits jobs db).1
unfolding dispatch
dispatch-IsClaimed now permits [] id db h = (h, tt)
dispatch-IsClaimed now zero (j ∷ js) id db h = (h, tt)
dispatch-IsClaimed now (suc permits) (j ∷ js) id db h =
    let db' = (mark_job_running now j.id db).0 in
    let h' = mark-IsClaimed now id j.id db h in
    let taken = dispatch-IsClaimed now permits js id db' h' in
    let passed = dispatch-IsClaimed now (suc permits) js id db' h' in
    elim (Bool-cases (mark_job_running now j.id db).1) [
      | inl won ↦ rw won (taken.0, (won_other now id j.id db h won, taken.1))
      | inr lost ↦ rw lost passed
    ]

pub dispatched-IsClaimed :
    (now permits : ℕ) (jobs : List Job) (db : Database)
    → All
        (λ j. IsClaimed (dispatch false now permits jobs db).0 j.id)
        (dispatch false now permits jobs db).1
unfolding dispatch
dispatched-IsClaimed now permits [] db = tt
dispatched-IsClaimed now zero (j ∷ js) db = tt
dispatched-IsClaimed now (suc permits) (j ∷ js) db =
    let db' = (mark_job_running now j.id db).0 in
    let taken = dispatched-IsClaimed now permits js db' in
    let passed = dispatched-IsClaimed now (suc permits) js db' in
    elim (Bool-cases (mark_job_running now j.id db).1) [
      | inl won ↦
          rw won ((dispatch-IsClaimed now permits js j.id db' (claimed_none now j.id db)).0, taken)
      | inr lost ↦ rw lost passed
    ]

All-others :
    (later permits : ℕ) (jobs' : List Job) (db : Database) (spawned : List Job)
    → All (λ j. IsClaimed db j.id) spawned
    → All (λ j. All (λ k. (j.id == k.id) ≡ false) (dispatch false later permits jobs' db).1) spawned
All-others later permits jobs' db [] h = tt
All-others later permits jobs' db (j ∷ spawned) (c, h) = (
  (dispatch-IsClaimed later permits jobs' j.id db c).1,
  All-others later permits jobs' db spawned h,
)

-- Where a fetch only reads, two workers may read the same rows. Whatever rows they hold, and
-- whatever permits they have, each job that got a task in one loop is claimed when that loop ends,
-- and as long as it stays claimed, whatever else happens to the tables, it gets no task in a later
-- loop. A delivery that fails ends the claim.
pub dispatch_exclusive :
    (now later permits permits' : ℕ) (jobs jobs' : List Job) (db between : Database)
    → All (λ j. IsClaimed between j.id) (dispatch false now permits jobs db).1
    → let (db', spawned) = dispatch false now permits jobs db in
      let spawned' = (dispatch false later permits' jobs' between).1 in
      All (λ j. IsClaimed db' j.id) spawned
      × All (λ j. All (λ k. (j.id == k.id) ≡ false) spawned') spawned
dispatch_exclusive now later permits permits' jobs jobs' db between held = (
  dispatched-IsClaimed now permits jobs db,
  All-others later permits' jobs' between (dispatch false now permits jobs db).1 held,
)
