-- ===== src/Tests/Service.antt =====
-- Runs of the counters of src/metrics.rs and of the rate limiter of src/api.rs.
use qhook.Prelude.{◌≡◌, refl, some, [], ◌∷◌, arith}
use qhook.Prelude.Classes.{string_eq}
use qhook.Metrics.Counter.{LabeledCounter}
use qhook.Config.Network.{Ipv4Addr}
use qhook.Api.RateLimit.{IpRateLimiter, get, check_all, check_all_window}

abbrev counts : LabeledCounter
counts = ("billing", 3) ∷ ("mail", 4) ∷ []

abbrev limiter : IpRateLimiter
limiter = record { limit = 3; entries = (10, (1, 500)) ∷ (20, (3, 700)) ∷ [] }

ten_known : get 10 limiter.entries ≡ some (1, 500)
unfolding get
ten_known = refl

check_all_window_example : (check_all (600 ∷ 700 ∷ 800 ∷ 900 ∷ []) 10 limiter).1 ≡ 2
check_all_window_example =
    check_all_window (600 ∷ 700 ∷ 800 ∷ 900 ∷ []) 10 1 500 limiter ten_known (omega arith)
      (omega arith, (omega arith, (omega arith, (omega arith, tt))))

abbrev gateway : Ipv4Addr
gateway = record { o0 = 172; o1 = 31; o2 = 255; o3 = 1 }
