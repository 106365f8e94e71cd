-- ===== src/Tests/Config.antt =====
-- A configuration that src/config.rs accepts.
use Prim.Native.String.{◌++◌ as ◌++ᵗ◌}
use mathlib.Core.List.Memᴰ.{head}
use qhook.Prelude.{ℕ, ◌≡◌, refl, true, false, none, some, [], ◌∷◌}
use qhook.Prelude.Classes.{string_eq}
use qhook.Text.{strip_prefix, split_once}
use qhook.Sql.{exists_where}
use qhook.Json.Path.{split}
use qhook.Config.{SourceConfig, Config}
use qhook.Config.Urls.{validate_handler_url, validate_handler_url_user}
use qhook.Config.Validate.{Parsers, validate}
use qhook.Config.Targets.{catching, validate_goto}
use qhook.Workflow.{StepConfig, WorkflowConfig, all, find_step_from, error_type_matches}
use qhook.Workflow.Failure.{find_catch, catches}
use qhook.Tests.Flow.{env, checkout, step_named}

abbrev charge : StepConfig
charge = record (step_named "charge" none) {
  catch = some ((record { errors = all ∷ []; goto = "ship" }) ∷ []);
}

abbrev caught : WorkflowConfig
caught = record checkout { steps = charge ∷ step_named "ship" none ∷ [] }

abbrev pub shop : SourceConfig
shop = record {
  source_type = "webhook";
  verify = none;
  secret = none;
  skip_verify = false;
  schedule = none;
  timezone = none;
  schema = none;
  allowed_ips = [];
}

abbrev small : Config
small = record {
  driver = "sqlite";
  allow_private_urls = false;
  sources = ("shop", shop) ∷ [];
  handlers = [];
  workflows = ("checkout", caught) ∷ [];
  queues = [];
  alerts = none;
}

abbrev parsers : Parsers
parsers = record { cron = λ s. true; fixed_offset = λ s. true }

small_valid : validate parsers small ≡ none
unfolding validate exists_where validate_handler_url strip_prefix split_once split
small_valid = refl

all_caught :
    find_catch "timeout" (catches (some charge))
    ≡ some (record { errors = all ∷ []; goto = "ship" })
unfolding find_catch error_type_matches
all_caught = refl

validate_goto_example :
    (target : ℕ × StepConfig) × (find_step_from 0 "ship" caught.steps ≡ some target)
validate_goto_example =
    validate_goto parsers small small_valid env "ship" (head refl) (head refl)
      (catching "timeout" (record { errors = all ∷ []; goto = "ship" }) all_caught refl)

validate_handler_url_user_example :
    validate_handler_url false ("http://" ++ᵗ ("u@" ++ᵗ "127.0.0.1/hook")) ≡ true
validate_handler_url_user_example = validate_handler_url_user "127.0.0.1/hook"
