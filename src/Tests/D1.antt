-- ===== src/Tests/D1.antt =====
-- An event that src/d1_db.rs stores while a request fails.
use qhook.Prelude.{◌≡◌, refl, false, none, some, List, [], ◌∷◌, nat_beq}
use qhook.Prelude.Classes.{string_eq}
use qhook.Sql.{exists_where, find_where}
use qhook.Db.{Database}
use qhook.Db.Runs.{has_run_id}
use qhook.Db.Events.{JobSpec, has_key, has_event}
use qhook.Workflow.Engine.{Env}
use qhook.D1.{row_of, d1_insert_event_and_jobs}
use qhook.D1.Partial.{Outcome, d1_insert_event_and_jobs-Outcome}
use qhook.Tests.{tables, flow}
use qhook.Tests.Flow.{env, engine_on}

-- The second request fails.
abbrev shaky : Env
shaky = record env { fault = λ n. nat_beq n 1 }

abbrev specs : List JobSpec
specs =
    ("b1", "billing", "https://billing.example.com", 3)
    ∷ ("b2", "mail", "https://mail.test", 3)
    ∷ []

d1_insert_event_and_jobs-Outcome_example :
    Outcome (row_of shaky "e9" "shop" "order.created" "{}" none (some "k9")) specs tables (
      d1_insert_event_and_jobs shaky "e9" "shop" "order.created" "{}" none
        (some "k9")
        specs
        (engine_on tables))
d1_insert_event_and_jobs-Outcome_example =
    d1_insert_event_and_jobs-Outcome shaky "e9" "shop" "order.created" "{}" none (some "k9") specs
      (engine_on tables)

free_key : has_key "shop" "k9" tables.events ≡ false
unfolding has_key exists_where
free_key = refl

free_id : has_event "e9" tables.events ≡ false
unfolding has_event exists_where
free_id = refl

-- A run that waits for two branches.
abbrev forked : Database
forked = record tables { runs = (record flow { parallel_count = 2 }) ∷ [] }

run_found : find_where (has_run_id "r1") forked.runs ≡ some (record flow { parallel_count = 2 })
unfolding find_where has_run_id
run_found = refl
