-- ===== src/Worker/Maintenance.antt =====
-- src/queue.rs, `run_maintenance`: the periodic recovery, cleanup and expiry.
use qhook.Prelude.{
  ℕ, ◌≤◌, ◌<◌, ◌≡◌, refl, Bool, true, false, [], ◌∷◌, arith, ltb, All, if◌then◌else◌,
}
use qhook.Sql.{count_where}
use qhook.Sql.Laws.{All-update_where, All-delete_where}
use qhook.Db.{Job, Database}
use qhook.Db.Jobs.{
  recover_stale_jobs, cleanup_old_records, expire_old_jobs, is_expired, is_disposable, kill,
  update_jobs, delete_jobs,
}
use qhook.Db.Invariant.Rows.{IsValid}
use qhook.Db.Invariant.Sequences
use qhook.Db.Invariant.Sequences.{execute_all, execute_all-IsValid}
use qhook.Db.Recovery.{IsLive, recover_stale_jobs_complete}
use qhook.Db.Retention.{IsKept, cleanup-IsKept, expire_old_jobs_exact}
use qhook.Metrics
use qhook.Metrics.{Metrics}

-- Which calls of the database fail, with no effect.
pub record Failures : Type 0 where
  pub recover : Bool
  pub cleanup : Bool
  pub expire : Bool

-- The times that the three calls read, and the settings.
pub record Settings : Type 0 where
  pub recover_at : ℕ
  pub cleanup_at : ℕ
  pub expire_at : ℕ
  pub stale_secs : ℕ
  pub retention_hours : ℕ
  pub event_ttl_secs : ℕ  -- below 2^63, where the cast to i64 keeps it

-- An error is counted and the next call is made.
abbrev pub attempt_call : Bool → (Database → Database) → Database × Metrics → Database × Metrics
attempt_call fault f (db, m) = if fault then (db, Metrics.inc_db_errors m) else (f db, m)

unfoldable pub run_maintenance : Failures → Settings → Database × Metrics → Database × Metrics
run_maintenance f s w =
    let w₁ = attempt_call f.recover (λ db. (recover_stale_jobs s.stale_secs s.recover_at db).0) w in
    let w₂ =
      attempt_call f.cleanup (λ db. (cleanup_old_records s.retention_hours s.cleanup_at db).0) w₁ in
    if ltb 0 s.event_ttl_secs
    then attempt_call f.expire (λ db. (expire_old_jobs s.event_ttl_secs s.expire_at db).0) w₂
    else w₂

killed-IsLive : (secs now at : ℕ) (j : Job) → IsLive secs now (kill at "event TTL expired" j)
unfolding qhook.Db.has_status
killed-IsLive secs now at j r w = cc

killed-IsKept :
    (hours now at : ℕ) (j : Job) → now ≤ at → IsKept hours now (kill at "event TTL expired" j)
killed-IsKept hours now at j h f = omega arith

expire-All :
    (P : Job → Type 0) (ttl at : ℕ)
    → ((j : Job) → P (kill at "event TTL expired" j))
    → (db : Database) → All P db.jobs
    → All P (expire_old_jobs ttl at db).0.jobs
unfolding expire_old_jobs update_jobs
expire-All P ttl at killed db h =
    All-update_where P (is_expired ttl at) (kill at "event TTL expired") (λ j e p. killed j) db.jobs
      h

cleanup-All :
    (P : Job → Type 0) (hours now : ℕ) (db : Database)
    → All P db.jobs
    → All P (cleanup_old_records hours now db).0.jobs
unfolding cleanup_old_records delete_jobs
cleanup-All P hours now db h = All-delete_where P (is_disposable hours now) db.jobs h

recover_stale_jobs-IsValid :
    (secs now : ℕ) (db : Database) → IsValid db → IsValid (recover_stale_jobs secs now db).0
unfolding execute_all
recover_stale_jobs-IsValid secs now db v =
    execute_all-IsValid (Sequences.Statement.recover_stale_jobs secs now ∷ []) db v

-- A round of maintenance with a database that answers, on a valid database and with a time to
-- live, leaves no stale job of the workers running, no finished job beyond the retention time, and
-- no pending job beyond its time to live, each by the clock of its own call, and counts no error.
pub run_maintenance_complete :
    (f : Failures) (s : Settings) (db : Database) (m : Metrics)
    → IsValid db
    → (f.recover ≡ false) × (f.cleanup ≡ false) × (f.expire ≡ false)
    → s.cleanup_at ≤ s.expire_at
    → 0 < s.event_ttl_secs
    → let (db', m') = run_maintenance f s (db, m) in
      All (IsLive s.stale_secs s.recover_at) db'.jobs
      × All (IsKept s.retention_hours s.cleanup_at) db'.jobs
      × (count_where (is_expired s.event_ttl_secs s.expire_at) db'.jobs ≡ 0)
      × (m' ≡ m)
unfolding run_maintenance
run_maintenance_complete f s db m v (r, c, e) later ttl =
    let some_ttl : ltb 0 s.event_ttl_secs ≡ true = ground arith in
    let db₁ = (recover_stale_jobs s.stale_secs s.recover_at db).0 in
    let db₂ = (cleanup_old_records s.retention_hours s.cleanup_at db₁).0 in
    rw (r, c, e, some_ttl)
      (
        expire-All (IsLive s.stale_secs s.recover_at) s.event_ttl_secs s.expire_at
            (killed-IsLive s.stale_secs s.recover_at s.expire_at) db₂
            (cleanup-All (IsLive s.stale_secs s.recover_at) s.retention_hours s.cleanup_at db₁
              (recover_stale_jobs_complete s.stale_secs s.recover_at db v).0),
        expire-All (IsKept s.retention_hours s.cleanup_at) s.event_ttl_secs s.expire_at
            (λ j. killed-IsKept s.retention_hours s.cleanup_at s.expire_at j later) db₂
            (cleanup-IsKept s.retention_hours s.cleanup_at db₁
              (recover_stale_jobs-IsValid s.stale_secs s.recover_at db v)),
        (expire_old_jobs_exact s.event_ttl_secs s.expire_at db₂).0,
        refl,
      )
