-- ===== src/Api/Http.antt =====
-- src/api.rs: the handlers that take events in. What they answer is a value.
pub mod Admission
pub mod Events
pub mod Sns
use qhook.Prelude.{
  ℕ, Bool, true, false, not, ◌&&◌, ◌||◌, Option, none, some, String, List, [], ◌∷◌, nat_beq,
  if◌then◌else◌,
}
use qhook.Prelude.Classes.{◌==◌, string_eq}
use qhook.Text.{trim, strip_prefix, contains}
use qhook.Sql.{exists_where}
use qhook.Json.{Value, null, text, Serde}
use qhook.Json.Path.{split, get}
use qhook.Config.{SourceConfig, Config}
use qhook.Db.Endpoints.{Outbound}
use qhook.Metrics.{inc_verification_failure, inc_db_errors}
use qhook.Verify.{Bytes, Crypto, text_or_empty, verify_signature}
use qhook.Worker.Deliver.{verification_failure}
use qhook.Workflow.Engine.{Env, Task, pure, given, ◌>>◌, tally, alert, matched}
use qhook.Api.Ingest.{Headers, EventResult, process_event}

-- `HeaderMap`: its entries, and the first value of a name in any case, if there is one and it is a
-- text.
pub record HeaderMap : Type 0 where
  pub entries : Headers
  pub value : String → Option String

-- A request: its path, its headers, its body if it is not too large, and the address of the peer.
pub record Request : Type 0 where
  pub path : String
  pub headers : HeaderMap
  pub body : Option Bytes
  pub peer : Option ℕ

-- An answer: an error with its status, its code and its message; a field that is refused, with the
-- status 422; a text; or the result of an event.
pub data Response : Type 0 where
  error : ℕ → String → String → Response
  invalid : String → Response
  plain : ℕ → String → Response
  accepted : ℕ → EventResult → Response

-- What the libraries do: the cryptography with the clock in seconds, UTF-8, the addresses, and
-- whether a JSON Schema is one and holds of a value. An address is a number.
pub record Libraries : Type 0 where
  pub crypto : Crypto
  pub now : ℕ
  pub from_utf8 : Bytes → Option String
  pub parse_ip : String → Option ℕ
  pub parse_net : String → Option (ℕ → Bool)
  pub validates : Value → Value → Bool

-- The settings of the server, and the flag that the worker sets.
pub record Server : Type 0 where
  pub trust_proxy : Bool
  pub auth_token : Option String
  pub db_healthy : Bool

abbrev pub unavailable : Response
unavailable = error 503 "service_unavailable" "Database temporarily unavailable"

abbrev pub internal_error : Response
internal_error = error 500 "internal_error" "Internal error"

abbrev or_else : {A : Type 0} → Option A → Option A → Option A
or_else none later = later
or_else (some a) later = some a

abbrev first_part : List String → String
first_part [] = ""
first_part (p ∷ ps) = p

-- The first address of `x-forwarded-for`, or else `x-real-ip`.
unfoldable pub forwarded_ip : Libraries → HeaderMap → Option ℕ
unfolding split trim
forwarded_ip lib headers =
    or_else
      (elim (headers.value "x-forwarded-for") [
        | none ↦ none
        | some v ↦ lib.parse_ip (trim (first_part (split b',' v)))
      ])
      (elim (headers.value "x-real-ip") [ none ↦ none | some v ↦ lib.parse_ip (trim v) ])

unfoldable pub client_ip : Libraries → Server → Request → Option ℕ
unfolding forwarded_ip
client_ip lib server req =
    or_else (if server.trust_proxy then forwarded_ip lib req.headers else none) req.peer

abbrev in_net : Option (ℕ → Bool) → ℕ → Bool
in_net none ip = false
in_net (some contains_ip) ip = contains_ip ip

abbrev is_single : Option ℕ → ℕ → Bool
is_single none ip = false
is_single (some single) ip = nat_beq single ip

unfoldable pub is_ip_allowed : Libraries → List String → ℕ → Bool
is_ip_allowed lib [] ip = true
is_ip_allowed lib (e ∷ es) ip =
    exists_where (λ entry. in_net (lib.parse_net entry) ip || is_single (lib.parse_ip entry) ip)
      (e ∷ es)

-- A request whose address is not known is refused, if there is an allowlist.
abbrev ip_known : Libraries → List String → Option ℕ → Bool
ip_known lib ips none = false
ip_known lib ips (some ip) = is_ip_allowed lib ips ip

unfoldable pub check_ip : Libraries → Server → List String → Request → Bool
unfolding is_ip_allowed client_ip
check_ip lib server [] req = true
check_ip lib server (e ∷ es) req = ip_known lib (e ∷ es) (client_ip lib server req)

-- What came of a verification: an error is none of the others.
pub data Check : Type 0 where
  passed rejected broken : Check

abbrev pub checked : Option Bool → Check
checked none = broken
checked (some true) = passed
checked (some false) = rejected

unfoldable pub check_signature : Libraries → SourceConfig → Bytes → HeaderMap → Check
check_signature lib source body headers = elim source.verify [
  | none ↦ passed
  | some provider ↦ checked (
      verify_signature lib.crypto provider (text_or_empty source.secret) body headers.value lib.now)
]

-- Whether the result is no error.
unfoldable pub validate_event_schema : Libraries → Serde → String → String → Bool
validate_event_schema lib serde payload schema =
    if schema == "" then true else elim (serde.from_str schema) [
      | none ↦ false
      | some s ↦ elim (serde.from_str payload) [ none ↦ false | some v ↦ lib.validates s v ]
    ]

abbrev pub schema_holds : Libraries → Serde → String → Option String → Bool
schema_holds lib serde payload none = true
schema_holds lib serde payload (some schema) = validate_event_schema lib serde payload schema

abbrev pub string_at : String → Value → Option String
string_at key json = elim (get key json) [ some (text t) ↦ some t | _ ↦ none ]

abbrev parsed : Option Value → Value
parsed none = null
parsed (some v) = v

abbrev or_text : String → Option String → String
or_text other none = other
or_text other (some t) = t

-- By the name of the source.
unfoldable pub provider_type : String → Value → String
provider_type source json =
    if source == "stripe"
    then or_text "unknown" (string_at "type" json)
    else if source == "github"
    then or_text "push" (string_at "action" json)
    else if source == "shopify"
    then or_text "unknown" (string_at "topic" json)
    else "event"

-- The type of a structured CloudEvent, if the content type says that the request is one.
unfoldable pub structured_type : HeaderMap → Value → Option String
unfolding contains
structured_type headers json = elim (headers.value "content-type") [
  | none ↦ none
  | some ct ↦ if contains ct "application/cloudevents+json" then string_at "type" json else none
]

unfoldable pub extract_event_type : Serde → String → String → HeaderMap → String
unfolding provider_type structured_type
extract_event_type serde source payload headers =
    let json = parsed (serde.from_str payload) in
    or_text (or_text (provider_type source json) (structured_type headers json))
      (headers.value "ce-type")

unfoldable pub find_source : String → List (String × SourceConfig) → Option SourceConfig
find_source name [] = none
find_source name ((n, c) ∷ cs) =
    let rest = find_source name cs in if n == name then some c else rest

-- The event is processed, and its result or an error is the answer.
unfoldable pub answer_event :
    Env → Config → Outbound → ℕ → String → String → String → HeaderMap → Task Response
answer_event env config outbound status source event_type payload headers =
    matched (process_event env config outbound source event_type payload headers.entries)
      (tally inc_db_errors >> pure internal_error) λ r. pure (accepted status r)

module _ (lib : Libraries) (env : Env) (config : Config) (server : Server)
    (outbound : Outbound) where
  -- The payload of a request that is let in.
  unfoldable pub accept_webhook : String → SourceConfig → Bytes → HeaderMap → Task Response
  unfolding answer_event validate_event_schema extract_event_type
  accept_webhook name source body headers =
      given (lib.from_utf8 body) (pure (invalid "body")) λ payload.
        if schema_holds lib env.serde payload source.schema
        then answer_event env config outbound 200 name
            (extract_event_type env.serde name payload headers) payload headers
        else pure (invalid "payload")

  abbrev on_check : String → Task Response → Check → Task Response
  on_check name next passed = next
  on_check name next rejected =
      tally (inc_verification_failure name)
      >> alert (verification_failure name)
      >> pure (error 400 "signature_invalid" "Invalid signature")
  on_check name next broken = pure (error 500 "internal_error" "Verification error")

  -- A request for a source.
  unfoldable pub receive_webhook : String → SourceConfig → Bytes → Request → Task Response
  unfolding accept_webhook check_ip check_signature
  receive_webhook name source body req =
      if check_ip lib server source.allowed_ips req
      then on_check name (accept_webhook name source body req.headers)
          (check_signature lib source body req.headers)
      else pure (error 403 "forbidden" "IP not allowed")

  abbrev unknown_source : Response
  unknown_source = error 404 "not_found" "Unknown source"

  unfoldable pub find_webhook : String → Bytes → Request → Task Response
  unfolding find_source receive_webhook
  find_webhook name body req =
      given (find_source name config.sources) (pure unknown_source) λ source.
        if source.source_type == "webhook"
        then receive_webhook name source body req
        else pure unknown_source

  unfoldable pub handle_webhook : Request → Task Response
  unfolding find_webhook strip_prefix
  handle_webhook req =
      if not server.db_healthy
      then pure unavailable
      else given (strip_prefix "/webhooks/" req.path) (pure unknown_source) λ name.
        given req.body (pure (error 413 "payload_too_large" "Payload too large"))
          λ body. find_webhook name body req

  -- The token of the header `Authorization`, if one is configured; the comparison is of bytes.
  unfoldable pub check_token : HeaderMap → Option String → Bool
  unfolding strip_prefix
  check_token headers none = true
  check_token headers (some expected) = elim (headers.value "Authorization") [
    | none ↦ false
    | some v ↦ elim (strip_prefix "Bearer " v) [
      | none ↦ false
      | some token ↦ lib.crypto.ct_eq (lib.crypto.bytes token) (lib.crypto.bytes expected)
    ]
  ]

  unfoldable pub accept_event : String → SourceConfig → String → Bytes → HeaderMap → Task Response
  unfolding answer_event validate_event_schema
  accept_event name source event_type body headers =
      given (lib.from_utf8 body) (pure (invalid "body")) λ payload.
        if schema_holds lib env.serde payload source.schema
        then answer_event env config outbound 202 name
            (or_text event_type (headers.value "ce-type")) payload headers
        else pure (invalid "payload")

  unfoldable pub authorize_event :
      String → SourceConfig → String → Bytes → HeaderMap → Task Response
  unfolding check_token accept_event
  authorize_event name source event_type body headers =
      if check_token headers server.auth_token
      then accept_event name source event_type body headers
      else pure (error 401 "unauthorized" "Invalid token")

  -- `source` and `event_type` are the parts of the path.
  unfoldable pub handle_event : String → String → HeaderMap → Bytes → Task Response
  unfolding find_source authorize_event
  handle_event name event_type headers body =
      let unknown = error 404 "not_found" "Unknown event source" in
      if not server.db_healthy
      then pure unavailable
      else given (find_source name config.sources) (pure unknown) λ source.
        if source.source_type == "event" || source.source_type == "outbound"
        then authorize_event name source event_type body headers
        else pure unknown
