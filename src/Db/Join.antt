-- ===== src/Db/Join.antt =====
-- src/db.rs, `set_parallel_state` and `increment_parallel_completed`: the counter at which the
-- branches of a parallel or map step meet.
use Prim.Native.Nat.add
use mathlib.Core.Path.{subst}
use qhook.Prelude.{
  ℕ, zero, suc, ◌+◌, ◌≡◌, refl, sym, none, some, List, [], ◌∷◌, String, arith, Bool-cases, inl, inr,
}
use qhook.Prelude.Classes.{◌==◌, string_eq}
use qhook.Sql.{find_where, update_where}
use qhook.Db.{Run, Database, ok}
use qhook.Db.Runs.{
  has_run_id, update_run, bump, read_counts, set_parallel_state, increment_parallel_completed,
  get_workflow_run,
}

-- The database after `k` branches have completed.
unfoldable pub after_branches : ℕ → String → Database → Database
after_branches zero id db = db
after_branches (suc k) id db = after_branches k id (increment_parallel_completed id db).0

abbrev fork : String → ℕ → Run → Run
fork step n r = record r { parallel_step = some step; parallel_count = n; parallel_completed = 0 }

find-update_run :
    (id : String) (f : Run → Run) (rows : List Run)
    → ((r : Run) → (f r).id ≡ r.id)
    → find_where (has_run_id id) (update_where (has_run_id id) f rows)
      ≡ (elim (find_where (has_run_id id) rows) [ none ↦ none | some r ↦ some (f r) ])
unfolding find_where update_where has_run_id
find-update_run id f [] same = refl
find-update_run id f (r ∷ rows) same = elim (Bool-cases (r.id == id)) [
  | inl e ↦ rw (e, same r, e)
  | inr e ↦ rw (e, e, find-update_run id f rows same)
]

-- The run is there, and `c` of its `n` branches have completed.
abbrev At : ℕ → ℕ → String → Database → Type 0
At c n id db =
    (r : Run) × (find_where (has_run_id id) db.runs ≡ some r)
    × (r.parallel_completed ≡ c)
    × (r.parallel_count ≡ n)

pub found_after :
    (id : String) (f : Run → Run) (db : Database) {r : Run}
    → ((q : Run) → (f q).id ≡ q.id)
    → find_where (has_run_id id) db.runs ≡ some r
    → find_where (has_run_id id) (update_run id f db).runs ≡ some (f r)
unfolding update_run
found_after id f db same h = rw (find-update_run id f db.runs same, h)

fork-At :
    (id step : String) (n : ℕ) (db : Database) {r : Run}
    → get_workflow_run id db ≡ some r
    → At 0 n id (set_parallel_state id step n db)
unfolding get_workflow_run set_parallel_state
fork-At id step n db {r} h =
    (fork step n r, found_after id (fork step n) db (λ q. refl) h, refl, refl)

increment_found :
    (id : String) (db : Database) {r : Run}
    → find_where (has_run_id id) (update_run id bump db).runs ≡ some r
    → increment_parallel_completed id db
      ≡ (update_run id bump db, ok (r.parallel_completed, r.parallel_count))
unfolding increment_parallel_completed read_counts
increment_found id db h = ground arith

bumped :
    (r : Run) (c n : ℕ)
    → r.parallel_completed ≡ c
    → r.parallel_count ≡ n
    → ((bump r).parallel_completed ≡ suc c) × ((bump r).parallel_count ≡ n)
unfolding bump
bumped r c n h k = ground arith

increment-At :
    (id : String) (c n : ℕ) (db : Database)
    → At c n id db
    → ((increment_parallel_completed id db).1 ≡ ok (suc c, n))
      × At (suc c) n id (increment_parallel_completed id db).0
increment-At id c n db (r, found, completed, total) =
    let found' = found_after id bump db (λ q. unfold bump in refl) found in
    let (one_more, same) = bumped r c n completed total in
    rw (increment_found id db found') (ground arith, (bump r, found', one_more, same))

after_branches-At :
    (k c n : ℕ) (id : String) (db : Database)
    → At c n id db
    → At (k + c) n id (after_branches k id db)
unfolding after_branches
after_branches-At zero c n id db h = rw add.zero h
after_branches-At (suc k) c n id db h =
    let e : suc k + c ≡ k + suc c = omega arith in
    rw e (
      after_branches-At k (suc c) n id (increment_parallel_completed id db).0
        (increment-At id c n db h).1)

-- If the run is there: the branch that completes after `k` others is told `k + 1` of `n`, for each `k`: so exactly one
-- of the `n` branches of a step, the last, is told `n` of `n`, in whatever order they complete.
pub increment_parallel_completed_counts :
    (id step : String) (n k : ℕ) (db : Database) {r : Run}
    → get_workflow_run id db ≡ some r
    → (increment_parallel_completed id (after_branches k id (set_parallel_state id step n db))).1
      ≡ ok (suc k, n)
increment_parallel_completed_counts id step n k db h =
    let db' = set_parallel_state id step n db in
    let at : At k n id (after_branches k id db') =
      let e : k ≡ k + 0 = omega arith in
      subst (λ m. At m n id (after_branches k id db')) (sym e)
        (after_branches-At k 0 n id db' (fork-At id step n db h)) in
    (increment-At id k n (after_branches k id db') at).0
