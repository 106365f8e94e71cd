-- ===== src/Db/Expiry.antt =====
-- src/db.rs, `expire_timed_out_callbacks`: callbacks that come after their workflow timed out.
use qhook.Prelude.{ℕ, ◌≡◌, refl, false, not, ◌&&◌, none, List, [], ◌∷◌, String, arith}
use qhook.Prelude.Classes.{string_eq}
use qhook.Sql.{count_where, update_where}
use qhook.Sql.Laws.{count_where-update_where}
use qhook.Db.{Job, Run, Database, ok, has_status}
use qhook.Db.Jobs.{update_jobs, kill}
use qhook.Db.Steps.{is_awaiting, is_lapsed, resume_callback_job, expire_timed_out_callbacks}
use qhook.Db.Callback.{NoneWaiting, resume_none}

killed_not_lapsed :
    (now : ℕ) (runs : List Run) (j : Job)
    → is_lapsed now runs (kill now "callback timeout" j) ≡ false
unfolding is_lapsed has_status
killed_not_lapsed now runs j = refl

lapsed_none :
    (now : ℕ) (token : String) (runs : List Run) (rows : List Job)
    → count_where (λ j. is_awaiting token j && not (is_lapsed now runs j)) rows ≡ 0
    → count_where
        (is_awaiting token)
        (update_where (is_lapsed now runs) (kill now "callback timeout") rows)
      ≡ 0
unfolding count_where update_where is_awaiting has_status
lapsed_none now token runs [] h = refl
lapsed_none now token runs (j ∷ rows) h = ground (arith, lapsed_none now token runs rows)

expire-NoneWaiting :
    (now : ℕ) (token : String) (db : Database)
    → count_where (λ j. is_awaiting token j && not (is_lapsed now db.runs j)) db.jobs ≡ 0
    → NoneWaiting token (expire_timed_out_callbacks now db).0
unfolding expire_timed_out_callbacks update_jobs
expire-NoneWaiting now token db h = lapsed_none now token db.runs db.jobs h

expired_none :
    (now : ℕ) (db : Database)
    → (expire_timed_out_callbacks now (expire_timed_out_callbacks now db).0).1 ≡ 0
unfolding expire_timed_out_callbacks update_jobs
expired_none now db =
    count_where-update_where (is_lapsed now db.runs) (is_lapsed now db.runs)
      (kill now "callback timeout") (λ j e. killed_not_lapsed now db.runs j) (λ j e. e) db.jobs

-- A callback that timed out is over: if each job that waits for the token belongs to a run that has
-- timed out, then after the expiry an answer for the token finds none and changes nothing, and
-- the expiry itself finds no further job.
pub expire_timed_out_callbacks_final :
    (now later : ℕ) (token payload : String) (db : Database)
    → count_where (λ j. is_awaiting token j && not (is_lapsed now db.runs j)) db.jobs ≡ 0
    → let db' = (expire_timed_out_callbacks now db).0 in
      (resume_callback_job later token payload db' ≡ (db', ok none))
      × ((expire_timed_out_callbacks now db').1 ≡ 0)
expire_timed_out_callbacks_final now later token payload db h = (
  resume_none later token payload (expire_timed_out_callbacks now db).0
      (expire-NoneWaiting now token db h),
  expired_none now db,
)
