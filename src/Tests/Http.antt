-- ===== src/Tests/Http.antt =====
-- Requests that the handlers of src/api.rs answer.
use Prim.Native.String.{◌++◌ as ◌++ᵗ◌}
use qhook.Prelude.{◌≡◌, ◌⊎◌, refl, true, false, ◌||◌, none, some, String, [], ◌∷◌, if◌then◌else◌}
use qhook.Prelude.Classes.{◌==◌, string_eq}
use qhook.Sql.{exists_where}
use qhook.Text.{strip_prefix, trim, trim_by, is_whitespace, trim_start, trim_end}
use qhook.Json.Path.{split}
use qhook.Config.{SourceConfig, Config}
use qhook.Verify.{text_or_empty}
use qhook.Verify.Tags.{github, header, tag_of}
use qhook.Verify.Sns.{SnsMessage}
use qhook.Api.Http.{
  HeaderMap, Request, Libraries, Server, is_ip_allowed, forwarded_ip, client_ip, check_ip,
  find_source, handle_webhook, handle_event,
}
use qhook.Api.Http.Admission.{
  Refused, Addressed, Trusted, Processed, handle_webhook-Admission, handle_webhook_authentic,
}
use qhook.Api.Http.Events.{Taken, handle_event-Admission}
use qhook.Api.Http.Sns.{SnsLibraries, handle_sns}
use qhook.Api.Http.Sns.Events.{Delivered, handle_sns-Admission}
use qhook.Tests.{tables}
use qhook.Tests.Config.{shop}
use qhook.Tests.Flow.{engine_on}
use qhook.Tests.Ingest.{config, nobody, keyed}
use qhook.Tests.Verify.{codes, crypto, equality, request}

-- Sources of the three kinds; the first lets in one address.
abbrev guarded : SourceConfig
guarded = record shop { verify = some "github"; secret = some "key"; allowed_ips = "10.0.0.7" ∷ [] }

abbrev feed : SourceConfig
feed = record shop { source_type = "event" }

abbrev topic : SourceConfig
topic = record shop { source_type = "sns" }

abbrev site : Config
site = record config { sources = ("shop", guarded) ∷ ("feed", feed) ∷ ("topic", topic) ∷ [] }

abbrev libraries : Libraries
libraries = record {
  crypto = crypto;
  now = 160;
  from_utf8 = λ b. some "{}";
  parse_ip = λ s. if s == "10.0.0.7" then some 7 else none;
  parse_net = λ s. none;
  validates = λ s v. true;
}

abbrev server : Server
server = record { trust_proxy = true; auth_token = some "key"; db_healthy = true }

abbrev sent : HeaderMap
sent = record {
  entries = [];
  value = λ name.
      if name == "x-forwarded-for"
      then some "10.0.0.7, 10.0.0.9"
      else if name == "Authorization"
      then some "Bearer key"
      else request name;
}

abbrev delivered : Request
delivered = record {
  path = "/webhooks/shop";
  headers = sent;
  body = some (codes "{}");
  peer = some 9;
}

near : check_ip libraries server guarded.allowed_ips delivered ≡ true
unfolding check_ip client_ip forwarded_ip is_ip_allowed exists_where split trim trim_by
    is_whitespace trim_start trim_end
near = refl

at_shop : strip_prefix "/webhooks/" delivered.path ≡ some "shop"
unfolding strip_prefix
at_shop = refl

shop_known : find_source "shop" site.sources ≡ some guarded
unfolding find_source
shop_known = refl

handle_webhook-Admission_example :
    let r = handle_webhook libraries keyed site server nobody delivered (engine_on tables) in
    Refused tables r
    ⊎ ((name : String) × (source : SourceConfig) × (body : _) × Addressed libraries keyed site
          server nobody delivered name source body
        × Trusted libraries keyed site server nobody delivered source body
        × Processed libraries keyed site server nobody delivered name source body
            (engine_on tables)
            r)
handle_webhook-Admission_example =
    handle_webhook-Admission libraries keyed site server nobody delivered (engine_on tables)

handle_webhook_authentic_example :
    Refused tables (handle_webhook libraries keyed site server nobody delivered (engine_on tables))
    ⊎ (text_or_empty (delivered.headers.value (header github))
        ≡ "sha256=" ++ᵗ tag_of crypto github "key" (codes "{}"))
handle_webhook_authentic_example =
    handle_webhook_authentic libraries keyed site server nobody delivered equality github "key"
      "shop" guarded (codes "{}") at_shop shop_known refl refl refl (engine_on tables)

handle_event-Admission_example :
    let r =
      handle_event libraries keyed site server nobody "feed" "order.created" sent
        (codes "{}")
        (engine_on tables) in
    Refused tables r
    ⊎ ((source : SourceConfig) × (find_source "feed" site.sources ≡ some source)
        × (((source.source_type == "event") || (source.source_type == "outbound")) ≡ true)
        × (sent.value "Authorization" ≡ some ("Bearer " ++ᵗ "key"))
        × Taken libraries keyed site server nobody "feed" "order.created" sent
            (codes "{}")
            source
            (engine_on tables)
            r)
handle_event-Admission_example =
    handle_event-Admission libraries keyed site server nobody "feed" "order.created" sent
      (codes "{}") equality (engine_on tables)

abbrev message : SnsMessage
message = record {
  message_type = "Notification";
  message_id = "m1";
  message = "{}";
  timestamp = "2026-01-01T00:00:00Z";
  topic_arn = "arn:aws:sns:us-east-1:1:orders";
  signature = "sig";
  signing_cert_url = "https://sns.us-east-1.amazonaws.com/cert.pem";
  signature_version = "2";
  subject = some "order.created";
  subscribe_url = none;
  token = none;
  unsubscribe_url = none;
}

abbrev sns : SnsLibraries
sns = record {
  parse = λ s. some message;
  fetch = λ url. some (1 ∷ []);
  confirm = λ url. some 200;
  public_key = λ pem. some pem;
  is_signature = λ sig. true;
  verify_sha1 = λ key text sig. false;
  verify_sha256 = λ key text sig. true;
  read_at = 100;
  written_at = 101;
}

handle_sns-Admission_example :
    let r =
      (handle_sns libraries sns keyed site server nobody [] "topic" sent (codes "{}")).1
        (engine_on tables) in
    Refused tables r
    ⊎ ((source : SourceConfig) × (text : String) × (msg : SnsMessage) × (find_source "topic"
            site.sources
          ≡ some source)
        × ((source.source_type == "sns") ≡ true)
        × (libraries.from_utf8 (codes "{}") ≡ some text)
        × (sns.parse text ≡ some msg)
        × Delivered libraries sns keyed site server nobody "topic" sent source [] msg
            (engine_on tables)
            r)
handle_sns-Admission_example =
    handle_sns-Admission libraries sns keyed site server nobody "topic" sent [] (codes "{}")
      (engine_on tables)
