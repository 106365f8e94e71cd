-- ===== src/Worker/Health.antt =====
-- src/queue.rs, the poll of `Worker::run`: how the results of the polls set the flag by which the
-- server refuses webhooks. The health endpoint, which may set it again, is not a part of this.

use qhook.Prelude.{
  ℕ, ◌+◌, ◌%◌, ◌^◌, ◌≤◌, ◌<◌, ◌≡◌, refl, Bool, true, false, List, [], ◌∷◌, arith, min, leb, ltb,
  nat_beq, length, if◌then◌else◌,
}
use qhook.Worker.Circuit.{u32_mod}

-- `consecutive_db_errors`, `db_healthy`, and how often `DbUnhealthy` was sent.
pub record Health : Type 0 where
  pub consecutive_db_errors : ℕ
  pub db_healthy : Bool
  pub unhealthy_alerts : ℕ

abbrev pub started : Health
started = record { consecutive_db_errors = 0; db_healthy = true; unhealthy_alerts = 0 }

unfoldable pub poll_succeeded : Health → Health
poll_succeeded h =
    if ltb 0 h.consecutive_db_errors
    then record h { consecutive_db_errors = 0; db_healthy = true }
    else h

unfoldable pub poll_failed : Health → Health
poll_failed h =
    let n = (h.consecutive_db_errors + 1) % u32_mod in
    let h' = record h { consecutive_db_errors = n } in
    if leb 3 n
    then (if nat_beq n 3
        then record h' { db_healthy = false; unhealthy_alerts = h.unhealthy_alerts + 1 }
        else record h' { db_healthy = false })
    else h'

-- The seconds until the next poll, after a poll that failed.
unfoldable pub poll_backoff : ℕ → ℕ
poll_backoff consecutive_db_errors = min (2 ^ min consecutive_db_errors 5) 30

-- The state after a history of polls, the last one first; `true` is a poll that succeeded.
unfoldable pub polled : List Bool → Health
polled [] = started
polled (true ∷ rs) = poll_succeeded (polled rs)
polled (false ∷ rs) = poll_failed (polled rs)

-- How many polls have failed since the last one that succeeded.
abbrev pub failing : List Bool → ℕ
failing [] = 0
failing (true ∷ rs) = 0
failing (false ∷ rs) = failing rs + 1

-- How often the third failure in a row has come.
abbrev pub outages : List Bool → ℕ
outages [] = 0
outages (true ∷ rs) = outages rs
outages (false ∷ rs) = (if nat_beq (failing rs) 2 then 1 else 0) + outages rs

failing-le : (rs : List Bool) → failing rs ≤ length rs
failing-le [] = omega arith
failing-le (true ∷ rs) = omega arith
failing-le (false ∷ rs) = omega (arith, failing-le rs)

small_mod : (n : ℕ) → n < u32_mod → n % u32_mod ≡ n
small_mod n h = omega arith

-- For fewer than 2^32 polls: webhooks are refused exactly while the last three polls or more have
-- failed, one alert is sent for each such outage, and the counter is the number of failures in a
-- row.
pub polled-failing :
    (rs : List Bool)
    → length rs < u32_mod
    → ((polled rs).consecutive_db_errors ≡ failing rs)
      × ((polled rs).db_healthy ≡ ltb (failing rs) 3)
      × ((polled rs).unhealthy_alerts ≡ outages rs)
unfolding polled poll_succeeded poll_failed
polled-failing [] b = (refl, refl, refl)
polled-failing (true ∷ rs) b =
    let (n, healthy, alerts) = polled-failing rs (omega arith) in ground (arith, n, healthy, alerts)
polled-failing (false ∷ rs) b =
    let (n, healthy, alerts) = polled-failing rs (omega arith) in
    let e : (failing rs + 1) % u32_mod ≡ failing rs + 1 =
      small_mod _ (omega (arith, failing-le rs)) in
    rw (n, e) (ground (arith, healthy, alerts))
