-- ===== src/Config.antt =====
-- src/config.rs: what is configured of sources, handlers, queues and workflows, and its checks.
use qhook.Prelude.{ℕ, Bool, Option, String, List}
use qhook.Workflow.{WorkflowConfig}
pub mod Network
pub mod Urls
pub mod Validate
pub mod Targets

pub record SourceConfig : Type 0 where
  pub source_type : String
  pub verify : Option String
  pub secret : Option String
  pub skip_verify : Bool
  pub schedule : Option String
  pub timezone : Option String
  pub schema : Option String
  pub allowed_ips : List String

pub record RetryConfig : Type 0 where
  pub max : ℕ
  pub backoff : String
  pub interval : String

pub record HandlerConfig : Type 0 where
  pub source : String
  pub events : List String
  pub url : String
  pub handler_type : String
  pub method : String
  pub retry : Option RetryConfig
  pub timeout : Option String
  pub idempotency_key : Option String
  pub rate_limit : Option ℕ
  pub filter : Option String
  pub transform : Option String
  pub headers : List (String × String)

pub record QueueConfig : Type 0 where
  pub source : String
  pub events : List String
  pub filter : Option String
  pub idempotency_key : Option String
  pub visibility_timeout : String
  pub max_attempts : Option ℕ
  pub api_key : Option String

pub record AlertConfig : Type 0 where
  pub url : String
  pub alert_type : String
  pub on : List String

-- A map of the source is a list of its entries, in the order in which they are iterated.
pub record Config : Type 0 where
  pub driver : String
  pub allow_private_urls : Bool
  pub sources : List (String × SourceConfig)
  pub handlers : List (String × HandlerConfig)
  pub workflows : List (String × WorkflowConfig)
  pub queues : List (String × QueueConfig)
  pub alerts : Option AlertConfig
