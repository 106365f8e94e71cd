-- ===== src/Db/Claim.antt =====
-- src/db.rs, `mark_job_running`: workers that compete for one job.
use qhook.Prelude.{ℕ, ◌+◌, ◌≡◌, refl, true, false, List, [], ◌∷◌, String, arith, ltb, if◌then◌else◌}
use qhook.Prelude.Classes.{string_eq}
use qhook.Sql.{count_where}
use qhook.Sql.Laws.{update_where_none, count_where-update_where}
use qhook.Db.{Job, Database}
use qhook.Db.Jobs.{start, is_claimable, mark_job_running}

-- Claims of one job in the order in which the database serves them, with the number that won.
unfoldable pub claim_all : List ℕ → String → Database → Database × ℕ
claim_all [] id db = (db, 0)
claim_all (now ∷ nows) id db =
    let (db', won) = mark_job_running now id db in
    let (db'', wins) = claim_all nows id db' in (db'', (if won then 1 else 0) + wins)

pub started_not_claimable :
    (now : ℕ) (id : String) (j : Job)
    → is_claimable id j ≡ true
    → is_claimable id (start now j) ≡ false
unfolding is_claimable
started_not_claimable now id j h = ground arith

pub claimed_none :
    (now : ℕ) (id : String) (db : Database)
    → count_where (is_claimable id) (mark_job_running now id db).0.jobs ≡ 0
unfolding mark_job_running
claimed_none now id db =
    count_where-update_where (is_claimable id) (is_claimable id) (start now)
      (started_not_claimable now id) (λ r h. h) db.jobs

pub lost_claim :
    (now : ℕ) (id : String) (db : Database)
    → count_where (is_claimable id) db.jobs ≡ 0
    → mark_job_running now id db ≡ (db, false)
unfolding mark_job_running
lost_claim now id db h = rw (update_where_none (is_claimable id) (start now) db.jobs h, h)

lost_claims :
    (nows : List ℕ) (id : String) (db : Database)
    → count_where (is_claimable id) db.jobs ≡ 0
    → claim_all nows id db ≡ (db, 0)
unfolding claim_all
lost_claims [] id db h = refl
lost_claims (now ∷ nows) id db h = rw (lost_claim now id db h, lost_claims nows id db h)

-- However many workers claim one job, in any order and at any times, exactly one wins if a
-- pending row has the id, and none wins if no such row is there. The losers change nothing: the
-- database is the one that the first claim left.
pub claim_exclusive :
    (now : ℕ) (nows : List ℕ) (id : String) (db : Database)
    → claim_all (now ∷ nows) id db ≡ (
      (mark_job_running now id db).0,
      if ltb 0 (count_where (is_claimable id) db.jobs) then 1 else 0,
    )
unfolding claim_all
claim_exclusive now nows id db =
    rw (lost_claims nows id (mark_job_running now id db).0 (claimed_none now id db))
      (unfold mark_job_running in ground arith)
