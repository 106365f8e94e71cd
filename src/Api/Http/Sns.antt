-- ===== src/Api/Http/Sns.antt =====
-- src/api.rs, `handle_sns` and `handle_callback`, and src/verify.rs, `verify_sns_message` with its
-- cache of certificates. Times of the cache are in seconds.
pub mod Genuine
pub mod Events
use qhook.Prelude.{
  ℕ, ◌-◌, Bool, true, false, not, ◌&&◌, ◌||◌, Option, none, some, String, List, [], ◌∷◌, length,
  ltb, leb, if◌then◌else◌,
}
use qhook.Prelude.Classes.{◌==◌, string_eq}
use qhook.Json.{Serde}
use qhook.Json.Path.{get}
use qhook.Config.{SourceConfig, Config}
use qhook.Db.Endpoints.{Outbound}
use qhook.Metrics.{inc_verification_failure}
use qhook.Verify.{Bytes}
use qhook.Verify.Sns.{SnsMessage, is_valid_sns_url, build_sns_string_to_sign}
use qhook.Worker.Deliver.{verification_failure}
use qhook.Workflow.Engine.{Env, Task, pure, given, ◌>>◌, tally, alert, matched}
use qhook.Workflow.Callback.{resume_callback}
use qhook.Api.Http.{
  HeaderMap, Response, error, invalid, plain, Libraries, Server, Check, passed, rejected, broken,
  or_else, string_at, find_source, answer_event, unavailable,
}

-- The certificates by their URL, each with the time at which it was fetched.
abbrev pub CertCache : Type 0
CertCache = List (String × (Bytes × ℕ))

-- What the libraries do: the parser of a message, the body and the status of a GET if there is an
-- answer, the public key of a certificate, whether bytes are a signature, the two verifiers, and the
-- times at which the cache is read and written.
pub record SnsLibraries : Type 0 where
  pub parse : String → Option SnsMessage
  pub fetch : String → Option Bytes
  pub confirm : String → Option ℕ
  pub public_key : Bytes → Option Bytes
  pub is_signature : Bytes → Bool
  pub verify_sha1 : Bytes → Bytes → Bytes → Bool
  pub verify_sha256 : Bytes → Bytes → Bytes → Bool
  pub read_at : ℕ
  pub written_at : ℕ

abbrev cert_cache_ttl : ℕ
cert_cache_ttl = 3600

abbrev pub is_within_ttl : ℕ → ℕ → Bool
is_within_ttl now ts = ltb (now - ts) cert_cache_ttl

unfoldable pub get_cached_cert : CertCache → ℕ → String → Option Bytes
get_cached_cert [] now url = none
get_cached_cert ((u, (pem, ts)) ∷ cache) now url =
    let rest = get_cached_cert cache now url in
    if u == url then (if is_within_ttl now ts then some pem else none) else rest

-- What `retain` and `insert` leave of the other certificates.
unfoldable pub retain_others : ℕ → String → CertCache → CertCache
retain_others now url [] = []
retain_others now url ((u, (pem, ts)) ∷ cache) =
    let rest = retain_others now url cache in
    if is_within_ttl now ts && not (u == url) then (u, (pem, ts)) ∷ rest else rest

unfoldable pub set_cached_cert : CertCache → ℕ → String → Bytes → CertCache
unfolding retain_others
set_cached_cert cache now url pem = (url, (pem, now)) ∷ retain_others now url cache

-- By the version of the signature.
unfoldable pub verify_version : SnsLibraries → String → Bytes → Bytes → Bytes → Check
verify_version sns version key message sig =
    if version == "1"
    then (if sns.verify_sha1 key message sig then passed else rejected)
    else if version == "2"
    then (if sns.verify_sha256 key message sig then passed else rejected)
    else rejected

-- The certificate is a PEM with an RSA key, and the signature is base64.
unfoldable pub verify_with : Libraries → SnsLibraries → SnsMessage → Bytes → Check
unfolding verify_version
verify_with lib sns msg pem = elim (sns.public_key pem) [
  | none ↦ broken
  | some key ↦ elim (lib.crypto.decode msg.signature) [
    | none ↦ broken
    | some sig ↦
        if sns.is_signature sig
        then verify_version sns msg.signature_version key
            (lib.crypto.bytes (build_sns_string_to_sign msg)) sig
        else broken
  ]
]

-- The certificate is fetched and kept, whatever the answer was.
unfoldable pub verify_fetched :
    Libraries → SnsLibraries → CertCache → SnsMessage → Option Bytes → CertCache × Check
unfolding verify_with
verify_fetched lib sns cache msg none = (cache, broken)
verify_fetched lib sns cache msg (some pem) =
    (set_cached_cert cache sns.written_at msg.signing_cert_url pem, verify_with lib sns msg pem)

unfoldable pub verify_sns_message :
    Libraries → SnsLibraries → CertCache → SnsMessage → CertCache × Check
unfolding verify_fetched verify_with get_cached_cert
verify_sns_message lib sns cache msg =
    if is_valid_sns_url msg.signing_cert_url
    then elim (get_cached_cert cache sns.read_at msg.signing_cert_url) [
      | none ↦ verify_fetched lib sns cache msg (sns.fetch msg.signing_cert_url)
      | some cached ↦ (cache, verify_with lib sns msg cached)
    ]
    else (cache, rejected)

abbrev nonempty : Option String → Option String
nonempty none = none
nonempty (some s) = if s == "" then none else some s

abbrev or_notification : Option String → String
or_notification none = "sns.notification"
or_notification (some s) = s

-- The type of a CloudEvent is read like any other.
unfoldable pub extract_sns_event_type : Serde → String → Option String → String
extract_sns_event_type serde message subject = or_notification (
    or_else
      (elim (serde.from_str message) [
        | none ↦ none
        | some json ↦ or_else (string_at "type" json) (string_at "detail-type" json)
      ])
      (nonempty subject))

-- Whether the status is one of success.
abbrev pub confirmed : Option ℕ → Bool
confirmed none = false
confirmed (some status) = leb 200 status && ltb status 300

unfoldable pub confirm_subscription : SnsLibraries → Option String → Response
confirm_subscription sns none = plain 400 "Missing SubscribeURL"
confirm_subscription sns (some url) =
    if is_valid_sns_url url
    then (if confirmed (sns.confirm url)
        then plain 200 "Subscription confirmed"
        else plain 500 "Subscription confirmation failed")
    else plain 400 "Invalid SubscribeURL"

module _ (lib : Libraries) (sns : SnsLibraries) (env : Env) (config : Config) (server : Server)
    (outbound : Outbound) where
  -- By the type of the message.
  unfoldable pub act_on : String → SnsMessage → HeaderMap → Task Response
  unfolding answer_event extract_sns_event_type confirm_subscription
  act_on name msg headers =
      if msg.message_type == "SubscriptionConfirmation"
      then pure (confirm_subscription sns msg.subscribe_url)
      else if msg.message_type == "Notification"
      then answer_event env config outbound 200 name
          (extract_sns_event_type env.serde msg.message msg.subject) msg.message headers
      else if msg.message_type == "UnsubscribeConfirmation"
      then pure (plain 200 "Unsubscribe acknowledged")
      else pure (plain 400 "Unknown message type")

  abbrev pub on_verified : String → Task Response → Check → Task Response
  on_verified name next passed = next
  on_verified name next rejected =
      tally (inc_verification_failure name)
      >> alert (verification_failure name)
      >> pure (plain 401 "Invalid signature")
  on_verified name next broken = pure (plain 500 "Verification error")

  -- The check of a message, unless the source skips it.
  unfoldable pub check_message : SourceConfig → CertCache → SnsMessage → CertCache × Check
  unfolding verify_sns_message
  check_message source cache msg =
      if source.skip_verify then (cache, passed) else verify_sns_message lib sns cache msg

  unfoldable pub receive_message :
      String → SourceConfig → CertCache → HeaderMap → SnsMessage → CertCache × Task Response
  unfolding act_on check_message
  receive_message name source cache headers msg =
      let (cache', check) = check_message source cache msg in
      (cache', on_verified name (act_on name msg headers) check)

  abbrev parse_message :
      String → SourceConfig → CertCache → HeaderMap → Option SnsMessage → CertCache × Task Response
  parse_message name source cache headers none = (cache, pure (plain 400 "Invalid SNS message"))
  parse_message name source cache headers (some msg) = receive_message name source cache headers msg

  unfoldable pub receive_body :
      String → SourceConfig → CertCache → HeaderMap → Option String → CertCache × Task Response
  unfolding receive_message
  receive_body name source cache headers none = (cache, pure (plain 400 "Invalid UTF-8"))
  receive_body name source cache headers (some body) =
      parse_message name source cache headers (sns.parse body)

  abbrev known_source :
      String
      → CertCache
      → HeaderMap
      → Option String
      → Option SourceConfig
      → CertCache × Task Response
  known_source name cache headers body none = (cache, pure (plain 404 "Unknown source"))
  known_source name cache headers body (some source) =
      if source.source_type == "sns"
      then receive_body name source cache headers body
      else (cache, pure (plain 404 "Unknown source"))

  -- The cache after the request, and the task that answers it.
  unfoldable pub handle_sns : CertCache → String → HeaderMap → Bytes → CertCache × Task Response
  unfolding find_source receive_body
  handle_sns cache name headers body =
      if not server.db_healthy
      then (cache, pure (plain 503 "Database temporarily unavailable"))
      else known_source name cache headers (lib.from_utf8 body) (find_source name config.sources)

  -- The answer to a callback: 404 is the same for a token that is too short and for one that no job
  -- waits for.
  abbrev pub callback_answer : Bool → Response
  callback_answer true = plain 200 "callback received"
  callback_answer false = plain 404 "not found"

  -- Whether `token[..8]` ends between two characters; `none` where the slice panics.
  unfoldable pub is_boundary : Bytes → ℕ → Bool
  is_boundary [] n = true
  is_boundary (b ∷ bs) ℕ.zero = ltb b 128 || leb 192 b
  is_boundary (b ∷ bs) (ℕ.suc n) = is_boundary bs n

  unfoldable pub handle_callback : String → String → Task (Option Response)
  unfolding resume_callback is_boundary
  handle_callback token payload =
      if not server.db_healthy
      then pure (some unavailable)
      else if ltb (length (lib.crypto.bytes token)) 26
      then pure (some (plain 404 "not found"))
      else if is_boundary (lib.crypto.bytes token) 8
      then matched (resume_callback env token payload) (pure (some (plain 500 "internal error")))
          (λ resumed. pure (some (callback_answer resumed)))
      else pure none
