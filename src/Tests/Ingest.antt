-- ===== src/Tests/Ingest.antt =====
-- Events that src/api.rs takes in.
use qhook.Prelude.{◌≡◌, refl, true, false, none, some, List, [], ◌∷◌}
use qhook.Prelude.Classes.{string_eq}
use qhook.Sql.{exists_where, select_where}
use qhook.Json.{text, object, no_entries, entry, get_field}
use qhook.Json.Path.{resolve_path}
use qhook.Config.{HandlerConfig, QueueConfig, Config}
use qhook.Db.{Database}
use qhook.Db.Events.{has_key}
use qhook.Db.Endpoints.{Outbound}
use qhook.Workflow.Engine.{Env}
use qhook.Api.Ingest.{event_of, is_unwanted, process_event, matching, unique_key}
use qhook.Api.Ingest.Collected.{targets, numbered}
use qhook.Api.Ingest.Stored.{Fate, process_event-Fate, process_event_once}
use qhook.Workflow.Sound.Deliver.{Action, ingestion, delivery, callback, act_all, act_all-IsValid}
use qhook.Db.Invariant.Rows.{IsValid}
use qhook.Tests.{tables, tables-IsValid, order}
use qhook.Tests.Flow.{env, checkout, engine_on, client, charge_job}

abbrev pub billing : HandlerConfig
billing = record {
  source = "shop";
  events = "order.*" ∷ [];
  url = "https://billing.example.com";
  handler_type = "http";
  method = "POST";
  retry = none;
  timeout = none;
  idempotency_key = some "$.key";
  rate_limit = none;
  filter = none;
  transform = none;
  headers = [];
}

abbrev pub mail : QueueConfig
mail = record {
  source = "shop";
  events = [];
  filter = none;
  idempotency_key = none;
  visibility_timeout = "30s";
  max_attempts = some 2;
  api_key = none;
}

abbrev pub config : Config
config = record {
  driver = "postgres";
  allow_private_urls = false;
  sources = [];
  handlers = ("billing", billing) ∷ [];
  workflows = ("checkout", checkout) ∷ [];
  queues = ("mail", mail) ∷ [];
  alerts = none;
}

abbrev pub nobody : Outbound
nobody = record { endpoints = []; subscriptions = [] }

-- The key of the payload is "k1".
abbrev pub keyed : Env
keyed = record env {
  serde = record {
    from_str = λ s. some (object (entry "key" (text "k1") no_entries));
    to_string = λ v. "{}";
  };
}

abbrev stored : Database
stored = record tables { events = order ∷ [] }

process_event-Fate_example :
    Fate
      (is_unwanted config "shop" "order.created")
      (event_of keyed config (keyed.ulid 0) "shop" "order.created" "{}" [])
      (numbered keyed 1 (targets keyed config "shop" "order.created" "{}"))
      tables
      (process_event keyed config nobody "shop" "order.created" "{}" [] (engine_on tables))
process_event-Fate_example =
    process_event-Fate keyed config nobody "shop" "order.created" "{}" [] (engine_on tables)

-- Both the handler and the queue are asked.
two_targets :
    targets keyed config "shop" "order.created" "{}"
    ≡ ("billing", "https://billing.example.com", 5) ∷ ("queue/mail", "_pull", 2) ∷ []
unfolding targets matching select_where exists_where
two_targets = refl

key_found :
    (event_of keyed config (keyed.ulid 0) "shop" "order.created" "{}" []).unique_key ≡ some "k1"
unfolding matching unique_key resolve_path get_field exists_where
key_found = refl

key_taken : has_key "shop" "k1" stored.events ≡ true
unfolding has_key exists_where
key_taken = refl

process_event_once_example :
    (process_event keyed config nobody "shop" "order.created" "{}" [] (engine_on stored)).0.world.db
    ≡ stored
process_event_once_example =
    process_event_once keyed config nobody "shop" "order.created" "{}" [] "k1" (engine_on stored)
      key_found key_taken

abbrev steps : List (Env × Action)
steps =
    (keyed, ingestion config nobody "shop" "order.created" "{}" [])
    ∷ (env, delivery client charge_job)
    ∷ (env, callback "j4" "{}")
    ∷ []

act_all-IsValid_example : IsValid (act_all steps (engine_on tables)).world.db
act_all-IsValid_example = act_all-IsValid steps (engine_on tables) tables-IsValid
