-- ===== src/Db/Invariant/Writes.antt =====
-- What the statements write into a row keeps the row valid.
use qhook.Prelude.{ℕ, String, arith}
use qhook.Db.{Job, has_status}
use qhook.Db.Jobs.{start, complete, reschedule, fail_at, kill, revive, reset_attempt}
use qhook.Db.Steps.{resume}
use qhook.Db.Invariant.Rows.{JobIsValid}

module _ (j : Job) (v : JobIsValid j) where
  pub start-IsValid : (now : ℕ) → JobIsValid (start now j)
  unfolding has_status
  start-IsValid now = ground arith

  pub complete-IsValid : (now : ℕ) → JobIsValid (complete now j)
  unfolding has_status
  complete-IsValid now = ground arith

  pub reschedule-IsValid : (at : ℕ) → JobIsValid (reschedule at j)
  unfolding has_status
  reschedule-IsValid at = ground arith

  pub fail_at-IsValid : (at : ℕ) (error : String) → JobIsValid (fail_at at error j)
  unfolding has_status fail_at
  fail_at-IsValid at error = ground arith

  pub kill-IsValid : (now : ℕ) (error : String) → JobIsValid (kill now error j)
  unfolding has_status
  kill-IsValid now error = ground arith

  pub revive-IsValid : (now : ℕ) → JobIsValid (revive now j)
  unfolding has_status
  revive-IsValid now = ground arith

  pub reset_attempt-IsValid : (now : ℕ) → JobIsValid (reset_attempt (revive now j))
  unfolding has_status
  reset_attempt-IsValid now = ground arith

  pub resume-IsValid : (now : ℕ) (payload : String) → JobIsValid (resume now payload j)
  unfolding has_status
  resume-IsValid now payload = ground arith
