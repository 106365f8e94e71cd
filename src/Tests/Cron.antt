-- ===== src/Tests/Cron.antt =====
-- A source with a schedule, and its handlers.
use qhook.Prelude.{ℕ, ◌+◌, ◌*◌, ◌/◌, ◌≡◌, refl, none, some, List, [], ◌∷◌, arith}
use qhook.Prelude.Classes.{string_eq}
use qhook.Sql.{exists_where, select_where}
use qhook.Config.{Config}
use qhook.Api.Ingest.{matching}
use qhook.Api.Ingest.Collected.{handler_targets, numbered}
use qhook.Cron.{Schedule, payload_of, fire_cron_event, is_due, firings}
use qhook.Cron.Fired.{cron_event, Fate, due_jobs, fire_cron_event-Fate}
use qhook.Cron.Minutes.{Increasing, firings-Increasing}
use qhook.Tests.{tables}
use qhook.Tests.Flow.{env, engine_on}
use qhook.Tests.Ingest.{billing, config}

abbrev nightly : Config
nightly = record config {
  handlers = ("report", record billing { source = "night"; events = [] }) ∷ [];
}

fire_cron_event-Fate_example :
    Fate
      (cron_event env (env.ulid 0) "night" (payload_of env (λ n. "now") "night"))
      (due_jobs env nightly (λ n. "now") "night" 1)
      tables
      (fire_cron_event env nightly (λ n. "now") "night" (engine_on tables))
fire_cron_event-Fate_example =
    fire_cron_event-Fate env nightly (λ n. "now") "night" (engine_on tables)

one_job :
    due_jobs env nightly (λ n. "now") "night" 1
    ≡ (env.ulid 1, "report", "https://billing.example.com", 5) ∷ []
unfolding due_jobs numbered handler_targets matching select_where exists_where
one_job = refl

-- Every ten seconds.
abbrev often : Schedule
often t = some ((t / 10000 + 1) * 10000)

abbrev wakes : List ℕ
wakes = 60000 ∷ 70000 ∷ 80000 ∷ 120000 ∷ []

firings-Increasing_example : Increasing none (firings often wakes none)
firings-Increasing_example =
    firings-Increasing often wakes none (tt, (omega arith, (omega arith, (omega arith, tt))))

twice_only : firings often wakes none ≡ 60000 ∷ 120000 ∷ []
unfolding firings is_due
twice_only = refl
