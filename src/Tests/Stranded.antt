-- ===== src/Tests/Stranded.antt =====
-- Runs that stay where they are, for one call of the database fails.
use qhook.Prelude.{◌≡◌, refl, false, some, nat_beq}
use qhook.Prelude.Classes.{string_eq}
use qhook.Sql.{update_where, count_where, find_where}
use qhook.Db.{Database, ok, has_status}
use qhook.Db.Jobs.{update_jobs}
use qhook.Db.Steps.{resume_callback_job, get_callback_job, is_awaiting, has_token}
use qhook.Workflow.Engine.{Env, failed, done, connection_lost}
use qhook.Workflow.Callback.{resume_callback}
use qhook.Workflow.Stranded.{resume_callback_strands}
use qhook.Tests.{tables}
use qhook.Tests.Flow.{env, engine_on}

-- The second call fails.
abbrev shaky : Env
shaky = record env { fault = λ n. nat_beq n 1 }

abbrev answered : Database
answered = (resume_callback_job 100 "j4" "{}" tables).0

found : resume_callback_job 100 "j4" "{}" tables ≡ (answered, ok (some "j4"))
unfolding resume_callback_job update_jobs update_where count_where get_callback_job find_where
    is_awaiting has_token has_status
found = refl

resume_callback_strands_example :
    let (first, answer) = resume_callback shaky "j4" "{}" (engine_on tables) in
    let (second, answer') = resume_callback env "j4" "[]" first in
    (answer ≡ failed connection_lost)
    × (first.world.db.runs ≡ tables.runs)
    × (answer' ≡ done false)
    × (second.world ≡ first.world)
resume_callback_strands_example =
    resume_callback_strands shaky env "j4" "{}" "[]" "j4" (engine_on tables) answered refl refl refl
      found
