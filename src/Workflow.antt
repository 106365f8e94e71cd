-- ===== src/Workflow.antt =====
-- src/config.rs: the configuration of workflows and of their steps.
use qhook.Prelude.{ℕ, Bool, true, false, Option, none, some, String, List, [], ◌∷◌, if◌then◌else◌}
use qhook.Prelude.Classes.{◌==◌, string_eq}
pub mod Rows
pub mod Named
pub mod Rules
pub mod Failed
pub mod Output
pub mod Params
pub mod Handler
pub mod Engine
pub mod Advance
pub mod Success
pub mod Failure
pub mod Fanout
pub mod Route
pub mod Callback
pub mod Dispatch
pub mod Deliver
pub mod Sound
pub mod Parents
pub mod Progress
pub mod Fate
pub mod Forked
pub mod Once
pub mod Stranded
pub mod Halted
pub mod Choice
pub mod Start
pub mod Started

pub data ErrorType : Type 0 where
  timeout http_5xx http_4xx network all : ErrorType

pub data OnFailure : Type 0 where
  stop continue : OnFailure

pub record StepRetryConfig : Type 0 where
  pub max : ℕ
  pub backoff : String
  pub interval : String
  pub errors : List ErrorType

pub record CatchConfig : Type 0 where
  pub errors : List ErrorType
  pub goto : String

pub record ChoiceRule : Type 0 where
  pub when : String
  pub goto : String

pub record BranchConfig : Type 0 where
  pub name : String
  pub url : String
  pub method : String
  pub headers : List (String × String)

pub record StepConfig : Type 0 where
  pub name : String
  pub url : Option String
  pub handler_type : String
  pub method : String
  pub headers : List (String × String)
  pub input : Option String
  pub result_path : Option String
  pub output : Option String
  pub retry : Option StepRetryConfig
  pub catch : Option (List CatchConfig)
  pub timeout : Option ℕ
  pub on_failure : OnFailure
  pub end : Bool
  pub choices : Option (List ChoiceRule)
  pub default : Option String
  pub branches : Option (List BranchConfig)
  pub items_path : Option String
  pub max_concurrency : Option ℕ
  pub seconds : Option ℕ
  pub timestamp_path : Option String
  pub callback_timeout : Option ℕ
  pub workflow : Option String

pub record ParamConfig : Type 0 where
  pub name : String
  pub param_type : String
  pub required : Bool

pub record WorkflowConfig : Type 0 where
  pub source : String
  pub events : List String
  pub steps : List StepConfig
  pub timeout : Option ℕ
  pub params : List ParamConfig

-- `workflows.get(name)`
unfoldable pub find_workflow : String → List (String × WorkflowConfig) → Option WorkflowConfig
find_workflow name [] = none
find_workflow name ((k, w) ∷ ws) = if k == name then some w else find_workflow name ws

-- The step of a name with its index, counted from `i`: `iter().enumerate().find(..)`.
unfoldable pub find_step_from : ℕ → String → List StepConfig → Option (ℕ × StepConfig)
find_step_from i name [] = none
find_step_from i name (s ∷ ss) =
    let rest = find_step_from (ℕ.suc i) name ss in if s.name == name then some (i, s) else rest

-- `iter().find(|s| s.name == name)`
unfoldable pub find_step : String → List StepConfig → Option StepConfig
find_step name [] = none
find_step name (s ∷ ss) = if s.name == name then some s else find_step name ss

-- `steps[i]`
unfoldable pub step_at : List StepConfig → ℕ → Option StepConfig
step_at [] i = none
step_at (s ∷ ss) ℕ.zero = some s
step_at (s ∷ ss) (ℕ.suc i) = step_at ss i

-- Whether an error of the given name is of the type.
abbrev pub is_of_type : String → ErrorType → Bool
is_of_type error_type all = true
is_of_type error_type timeout = error_type == "timeout"
is_of_type error_type http_5xx = error_type == "5xx"
is_of_type error_type http_4xx = error_type == "4xx"
is_of_type error_type network = error_type == "network"

unfoldable pub error_type_matches : List ErrorType → String → Bool
error_type_matches [] error_type = false
error_type_matches (e ∷ es) error_type =
    if is_of_type error_type e then true else error_type_matches es error_type
