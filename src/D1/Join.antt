-- ===== src/D1/Join.antt =====
-- src/d1_db.rs, `d1_increment_parallel_completed`: the last two branches of a run.
use qhook.Prelude.{ℕ, suc, ◌+◌, ◌≡◌, refl, ap, false, some, String, arith}
use qhook.Sql.{find_where}
use qhook.Db.{Run, transaction}
use qhook.Db.Runs.{has_run_id, update_run, bump, read_counts}
use qhook.Db.Join.{found_after}
use qhook.Workflow.Engine.{Env, Engine, Task, pure, done, ◌>>=◌, ◌>>◌, call, stored}
use qhook.D1.{d1_bump, d1_read_counts, d1_increment_parallel_completed}

-- Two workers, one after the other, and with the request of each between those of the other.
unfoldable pub sequential : Env → String → Task ((ℕ × ℕ) × (ℕ × ℕ))
unfolding d1_increment_parallel_completed
sequential env run_id = do
  first ← d1_increment_parallel_completed env run_id
  second ← d1_increment_parallel_completed env run_id
  pure (first, second)

unfoldable pub interleaved : Env → String → Task ((ℕ × ℕ) × (ℕ × ℕ))
interleaved env run_id = do
  d1_bump env run_id
  d1_bump env run_id
  first ← d1_read_counts env run_id
  second ← d1_read_counts env run_id
  pure (first, second)

module _ (env : Env) (run_id : String) (sound : (n : ℕ) → env.fault n ≡ false) where
  abbrev with_bump : Engine → Engine
  with_bump s = record s {
    world = record s.world { db = update_run run_id bump s.world.db };
    calls = suc s.calls;
  }

  abbrev asked : Engine → Engine
  asked s = record s { calls = suc s.calls }

  abbrev Stands : Run → Engine → Type 0
  Stands r s = find_where (has_run_id run_id) s.world.db.runs ≡ some r

  bump_lem : (s : Engine) → d1_bump env run_id s ≡ (with_bump s, done tt)
  unfolding d1_bump call
  bump_lem s = rw (sound s.calls) refl

  read_lem :
      (r : Run) (s : Engine)
      → Stands r s
      → d1_read_counts env run_id s ≡ (asked s, done (r.parallel_completed, r.parallel_count))
  unfolding d1_read_counts call read_counts
  read_lem r s h = rw (sound s.calls) (
      ap
        (λ o.
          let w = stored s.world (transaction s.world.db λ t. read_counts t o) in
          (record s { world = w.0; calls = suc s.calls }, w.1))
        h)

  bumped-Stands : (r : Run) (s : Engine) → Stands r s → Stands (bump r) (with_bump s)
  unfolding bump
  bumped-Stands r s h = found_after run_id bump s.world.db (λ q. refl) h

  -- On D1, if no request fails and two branches of a run are left, two workers that complete them one
  -- after the other get different counts, of which only the second is that of all branches; but if
  -- both UPDATEs come before both SELECTs, each of the workers is told that all branches are done.
  pub d1_increment_parallel_completed_races :
      (r : Run) (s : Engine)
      → Stands r s
      → r.parallel_completed + 2 ≡ r.parallel_count
      → let n = r.parallel_count in
        ((sequential env run_id s).1 ≡ done ((r.parallel_completed + 1, n), (n, n)))
        × ((interleaved env run_id s).1 ≡ done ((n, n), (n, n)))
  unfolding sequential interleaved bump ◌>>=◌ ◌>>◌
  d1_increment_parallel_completed_races r s h left =
      let n = r.parallel_count in
      let last : r.parallel_completed + 1 + 1 ≡ n = omega arith in
      let s₁ = with_bump s in
      let h₁ : Stands (bump r) s₁ = bumped-Stands r s h in
      let a₁ = asked s₁ in
      let a₂ = with_bump a₁ in
      let h₂ : Stands (bump (bump r)) a₂ = bumped-Stands (bump r) a₁ h₁ in
      let s₂ = with_bump s₁ in
      let k₂ : Stands (bump (bump r)) s₂ = bumped-Stands (bump r) s₁ h₁ in
      (
        rw (bump_lem s, read_lem (bump r) s₁ h₁, bump_lem a₁, read_lem (bump (bump r)) a₂ h₂)
            (ap (λ m. done ((r.parallel_completed + 1, n), (m, n))) last),
        rw
            (
              bump_lem s,
              bump_lem s₁,
              read_lem (bump (bump r)) s₂ k₂,
              read_lem (bump (bump r)) (asked s₂) k₂,
            )
            (ap (λ m. done ((m, n), (m, n))) last),
      )
