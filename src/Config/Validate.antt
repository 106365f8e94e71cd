-- ===== src/Config/Validate.antt =====
-- src/config.rs, `Config::validate`, `validate_http_method`, `parse_timezone` and `parse_duration`.
use Prim.Native.Char.{code}
use qhook.Prelude.{
  ℕ, ◌+◌, ◌*◌, ◌-◌, ◌%◌, Bool, true, false, not, ◌&&◌, ◌||◌, Option, none, some, String, List, [],
  ◌∷◌, ltb, leb, nat_beq, starts_with, if◌then◌else◌,
}
use qhook.Prelude.Classes.{◌==◌, string_eq}
use qhook.Text.{trim, strip_suffix, contains, is_found}
use qhook.Sql.{exists_where}
use qhook.Workflow.{StepConfig, BranchConfig, WorkflowConfig}
use qhook.Config.{SourceConfig, HandlerConfig, QueueConfig, AlertConfig, Config}
use qhook.Config.Urls.{validate_handler_url}

-- Why a configuration is refused, with the names that the message holds.
pub data ConfigError : Type 0 where
  invalid_type unknown_source no_schedule invalid_schedule invalid_timezone : String → ConfigError
  no_secret invalid_url invalid_method no_steps : String → ConfigError
  duplicate_step unknown_goto no_choices no_branches : String → String → ConfigError
  duplicate_branch no_wait no_items_path no_url : String → String → ConfigError
  no_workflow_name unknown_workflow recursive_workflow : String → String → ConfigError
  invalid_param queue_name handler_conflict invalid_timeout reserved_name : String → ConfigError
  invalid_alert_type invalid_alert_url unsupported_driver : ConfigError

-- `bail!` under a condition.
abbrev pub bail_if : Bool → ConfigError → Option ConfigError
bail_if true e = some e
bail_if false e = none

-- The first error ends the function.
infixl 5 ◌>>◌
abbrev pub ◌>>◌ : Option ConfigError → Option ConfigError → Option ConfigError
none >> next = next
some e >> next = some e

unfoldable pub for_each {ℓ} : {A : Type ℓ} → (A → Option ConfigError) → List A → Option ConfigError
for_each check [] = none
for_each check (a ∷ as') = check a >> for_each check as'

-- A field that is given is checked.
abbrev pub if_some : {A : Type 0} → (A → Option ConfigError) → Option A → Option ConfigError
if_some check none = none
if_some check (some a) = check a

abbrev pub list_or_empty : {A : Type 0} → Option (List A) → List A
list_or_empty none = []
list_or_empty (some as') = as'

abbrev is_empty : {A : Type 0} → List A → Bool
is_empty [] = true
is_empty (a ∷ as') = false

abbrev pub contains_key : {A : Type 0} → String → List (String × A) → Bool
contains_key name = exists_where (λ entry. entry.0 == name)

abbrev pub one_of : List String → String → Bool
one_of names s = exists_where (λ name. s == name) names

abbrev text_of : Option String → String
text_of none = ""
text_of (some s) = s

unfoldable pub validate_http_method : String → String → Option ConfigError
validate_http_method context method =
    bail_if (not (one_of ("GET" ∷ "POST" ∷ "PUT" ∷ "PATCH" ∷ "DELETE" ∷ []) method))
      (invalid_method context)

-- `parse::<u64>`: a sign + is read over; digits only, and below 2 ^ 64.
abbrev digit : ℕ → Option ℕ
digit c = if leb b'0' c && leb c b'9' then some (c - b'0') else none

unfoldable pub digits : ℕ → String → Option ℕ
digits n String.[] = some n
digits n (String.◌∷◌ c s) = elim (digit (code c)) [ none ↦ none | some d ↦ digits (n * 10 + d) s ]

abbrev u64_or_zero : Option ℕ → ℕ
u64_or_zero none = 0
u64_or_zero (some n) = if ltb n 18446744073709551616 then n else 0

unfoldable pub parse_u64 : String → ℕ
unfolding digits
parse_u64 String.[] = 0
parse_u64 (String.◌∷◌ c String.[]) = u64_or_zero (digits 0 (String.◌∷◌ c String.[]))
parse_u64 (String.◌∷◌ c (String.◌∷◌ d s)) =
    if nat_beq (code c) b'+'
    then u64_or_zero (digits 0 (String.◌∷◌ d s))
    else u64_or_zero (digits 0 (String.◌∷◌ c (String.◌∷◌ d s)))

abbrev in_unit : Option String → Option String → Option String → String → ℕ
in_unit (some s) m h plain = parse_u64 s
in_unit none (some s) h plain = parse_u64 s * 60 % 18446744073709551616
in_unit none none (some s) plain = parse_u64 s * 3600 % 18446744073709551616
in_unit none none none plain = parse_u64 plain

-- The products wrap, as they do in a release build.
unfoldable pub parse_duration : String → ℕ
unfolding parse_u64 trim strip_suffix
parse_duration s =
    let t = trim s in in_unit (strip_suffix "s" t) (strip_suffix "m" t) (strip_suffix "h" t) t

unfoldable pub check_handler : Config → String × HandlerConfig → Option ConfigError
unfolding validate_http_method
check_handler config (name, h) =
    bail_if (not (h.handler_type == "http")) (invalid_type name)
    >> bail_if (not (validate_handler_url config.allow_private_urls h.url)) (invalid_url name)
    >> validate_http_method name h.method
    >> bail_if (not (contains_key h.source config.sources)) (unknown_source name)

-- The parsers of the cron library and of the time library's offsets, for what they accept.
pub record Parsers : Type 0 where
  pub cron : String → Bool
  pub fixed_offset : String → Bool

unfoldable pub parse_timezone : Parsers → String → Bool
parse_timezone parsers tz = tz == "UTC" || parsers.fixed_offset tz

unfoldable pub check_source : Parsers → String × SourceConfig → Option ConfigError
unfolding parse_timezone
check_source parsers (name, s) =
    (if one_of ("webhook" ∷ "event" ∷ "sns" ∷ "outbound" ∷ []) s.source_type
      then none
      else if s.source_type == "cron"
      then bail_if (text_of s.schedule == "") (no_schedule name)
        >> bail_if (not (parsers.cron (text_of s.schedule))) (invalid_schedule name)
        >> if_some (λ tz. bail_if (not (parse_timezone parsers tz)) (invalid_timezone name))
            s.timezone
      else some (invalid_type name))
    >> bail_if (is_found s.verify && text_of s.secret == "") (no_secret name)

unfoldable pub check_alerts : AlertConfig → Option ConfigError
check_alerts a =
    bail_if (not (one_of ("generic" ∷ "slack" ∷ "discord" ∷ []) a.alert_type)) invalid_alert_type
    >> bail_if (not (starts_with a.url "http://") && not (starts_with a.url "https://"))
        invalid_alert_url

abbrev pub has_step : String → List StepConfig → Bool
has_step name = exists_where (λ s. s.name == name)

-- A target has to be a step of the workflow.
abbrev pub check_goto : String → List StepConfig → String → Option ConfigError
check_goto name steps goto = bail_if (not (has_step goto steps)) (unknown_goto name goto)

unfoldable pub check_choice : String → List StepConfig → StepConfig → Option ConfigError
check_choice name steps step =
    bail_if (is_empty (list_or_empty step.choices)) (no_choices name step.name)
    >> for_each (λ c. check_goto name steps c.goto) (list_or_empty step.choices)
    >> if_some (check_goto name steps) step.default

-- `insert` into the set of names returns false for a name that stands before.
unfoldable pub check_branches :
    Config → String → List String → List BranchConfig → Option ConfigError
unfolding validate_http_method
check_branches config name seen [] = none
check_branches config name seen (b ∷ bs) =
    bail_if (exists_where (λ n. n == b.name) seen) (duplicate_branch name b.name)
    >> bail_if (not (validate_handler_url config.allow_private_urls b.url)) (invalid_url name)
    >> validate_http_method name b.method
    >> check_branches config name (b.name ∷ seen) bs

unfoldable pub check_parallel : Config → String → StepConfig → Option ConfigError
unfolding check_branches
check_parallel config name step =
    bail_if (is_empty (list_or_empty step.branches)) (no_branches name step.name)
    >> check_branches config name [] (list_or_empty step.branches)

unfoldable pub check_map : String → StepConfig → Option ConfigError
check_map name step =
    bail_if (not (is_found step.items_path)) (no_items_path name step.name)
    >> bail_if (not (is_found step.url)) (no_url name step.name)

unfoldable pub check_subworkflow : Config → String → StepConfig → Option ConfigError
check_subworkflow config name step =
    bail_if (text_of step.workflow == "") (no_workflow_name name step.name)
    >> bail_if (not (contains_key (text_of step.workflow) config.workflows))
        (unknown_workflow name (text_of step.workflow))
    >> bail_if (text_of step.workflow == name) (recursive_workflow name step.name)

abbrev pub when : Bool → Option ConfigError → Option ConfigError
when true check = check
when false check = none

unfoldable pub check_step : Config → String → List StepConfig → StepConfig → Option ConfigError
unfolding validate_http_method check_choice check_parallel check_map check_subworkflow
check_step config name steps step =
    if_some
      (λ url. bail_if (not (validate_handler_url config.allow_private_urls url)) (invalid_url name))
      step.url
    >> validate_http_method name step.method
    >> for_each (λ c. check_goto name steps c.goto) (list_or_empty step.catch)
    >> when (step.handler_type == "choice") (check_choice name steps step)
    >> when (step.handler_type == "parallel") (check_parallel config name step)
    >> when (step.handler_type == "wait") (
        bail_if (not (is_found step.seconds) && not (is_found step.timestamp_path))
          (no_wait name step.name))
    >> when (step.handler_type == "map") (check_map name step)
    >> when (step.handler_type == "workflow") (check_subworkflow config name step)

unfoldable pub check_names : String → List String → List StepConfig → Option ConfigError
check_names name seen [] = none
check_names name seen (s ∷ ss) =
    bail_if (exists_where (λ n. n == s.name) seen) (duplicate_step name s.name)
    >> check_names name (s.name ∷ seen) ss

unfoldable pub check_workflow : Config → String × WorkflowConfig → Option ConfigError
unfolding check_step check_names
check_workflow config (name, w) =
    bail_if (not (contains_key w.source config.sources)) (unknown_source name)
    >> bail_if (is_empty w.steps) (no_steps name)
    >> check_names name [] w.steps
    >> for_each (check_step config name w.steps) w.steps
    >> for_each
        (λ p.
          bail_if
            (not (one_of ("string" ∷ "number" ∷ "boolean" ∷ "object" ∷ "array" ∷ []) p.param_type))
            (invalid_param p.name))
        w.params

unfoldable pub check_queue : Config → String × QueueConfig → Option ConfigError
unfolding parse_duration contains
check_queue config (name, q) =
    bail_if (contains name "/") (queue_name name)
    >> bail_if (contains_key name config.handlers) (handler_conflict name)
    >> bail_if (not (contains_key q.source config.sources)) (unknown_source name)
    >> bail_if (nat_beq (parse_duration q.visibility_timeout) 0) (invalid_timeout name)

-- The error that ends it, or none: the configuration is valid.
unfoldable pub validate : Parsers → Config → Option ConfigError
unfolding for_each check_handler check_source check_alerts check_workflow check_queue
validate parsers config =
    for_each (check_handler config) config.handlers
    >> for_each (check_source parsers) config.sources
    >> if_some check_alerts config.alerts
    >> for_each (check_workflow config) config.workflows
    >> for_each (check_queue config) config.queues
    >> for_each (λ h. bail_if (starts_with h.0 "queue/") (reserved_name h.0)) config.handlers
    >> bail_if (not (one_of ("sqlite" ∷ "postgres" ∷ "mysql" ∷ "d1" ∷ []) config.driver))
        unsupported_driver
