-- ===== src/Verify.antt =====
-- src/verify.rs: the signatures of webhooks. The hashes, base64, hex and `ct_eq` are arguments.
use Prim.Native.Char.{code}
use qhook.Prelude.{
  ℕ, zero, suc, ◌+◌, ◌*◌, ◌-◌, Bool, true, false, not, ◌&&◌, ◌||◌, Option, none, some, String, List,
  [], ◌∷◌, ◌++◌, length, ltb, leb, nat_beq, if◌then◌else◌,
}
use qhook.Prelude.Classes.{◌==◌, string_eq}
use qhook.Text.{trim, strip_prefix}
use qhook.Json.Path.{split}
pub mod Tags
pub mod Fresh
pub mod Sns
pub mod Outbound

-- A sequence of bytes.
abbrev pub Bytes : Type 0
Bytes = List ℕ

-- `as_bytes`, the tags of HMAC over a key and a message as texts, base64's decoder, and `ct_eq`.
pub record Crypto : Type 0 where
  pub bytes : String → Bytes
  pub sha256_hex : Bytes → Bytes → String
  pub sha512_hex : Bytes → Bytes → String
  pub sha256_base64 : Bytes → Bytes → String
  pub sha1_base64 : Bytes → Bytes → String
  pub decode : String → Option Bytes
  pub ct_eq : Bytes → Bytes → Bool

-- The value of a header, if there is one and it is a text.
abbrev pub Headers : Type 0
Headers = String → Option String

abbrev pub text_or_empty : Option String → String
text_or_empty none = ""
text_or_empty (some s) = s

-- `parse::<i64>`: whether it is negative, and its distance from 0.
abbrev digit : ℕ → Option ℕ
digit c = if leb b'0' c && leb c b'9' then some (c - b'0') else none

unfoldable pub digits : ℕ → String → Option ℕ
digits n String.[] = some n
digits n (String.◌∷◌ c s) = elim (digit (code c)) [ none ↦ none | some d ↦ digits (n * 10 + d) s ]

abbrev signed : Bool → ℕ → Option ℕ → Option (Bool × ℕ)
signed negative limit none = none
signed negative limit (some n) = if ltb n limit then some (negative, n) else none

unfoldable pub parse_i64 : String → Option (Bool × ℕ)
unfolding digits
parse_i64 String.[] = none
parse_i64 (String.◌∷◌ c String.[]) =
    signed false 9223372036854775808 (digits 0 (String.◌∷◌ c String.[]))
parse_i64 (String.◌∷◌ c (String.◌∷◌ d s)) =
    if nat_beq (code c) b'-'
    then signed true 9223372036854775809 (digits 0 (String.◌∷◌ d s))
    else if nat_beq (code c) b'+'
    then signed false 9223372036854775808 (digits 0 (String.◌∷◌ d s))
    else signed false 9223372036854775808 (digits 0 (String.◌∷◌ c (String.◌∷◌ d s)))

-- `(now - ts).abs() > 300` on 64 bits, which wrap in a release build: the distance of -2 ^ 63 from 0
-- is that number itself, which is less than 300.
unfoldable pub is_stale : ℕ → Bool × ℕ → Bool
is_stale now (false, ts) = ltb 300 (now - ts + (ts - now))
is_stale now (true, ts) =
    if ltb (now + ts) 9223372036854775808
    then ltb 300 (now + ts)
    else not (nat_beq (now + ts) 9223372036854775808) && ltb 300 (18446744073709551616 - (now + ts))

-- The last part with each prefix counts: `t=..,v1=..` and `ts=..;h1=..`.
abbrev part : String → String → String → String × String → String × String
part of_time of_tag p (time, tag) = elim (strip_prefix of_time p) [
  | some t ↦ (t, tag)
  | none ↦ elim (strip_prefix of_tag p) [ some v ↦ (time, v) | none ↦ (time, tag) ]
]

unfoldable pub parts : String → String → List String → String × String → String × String
unfolding strip_prefix trim
parts of_time of_tag [] found = found
parts of_time of_tag (p ∷ ps) found = parts of_time of_tag ps (part of_time of_tag (trim p) found)

abbrev pub is_fresh : ℕ → Option (Bool × ℕ) → Bool
is_fresh now none = false
is_fresh now (some ts) = not (is_stale now ts)

module _ (crypto : Crypto) where
  open crypto use {bytes, sha256_hex, sha512_hex, sha256_base64, sha1_base64, decode, ct_eq}

  unfoldable pub constant_time_eq : String → String → Bool
  constant_time_eq a b =
      if nat_beq (length (bytes a)) (length (bytes b)) then ct_eq (bytes a) (bytes b) else false

  -- An empty tag is refused; another is compared.
  unfoldable pub check_tag : String → String → Bool
  unfolding constant_time_eq
  check_tag expected tag = if tag == "" then false else constant_time_eq expected tag

  unfoldable pub verify_github : String → Bytes → Headers → Bool
  unfolding check_tag strip_prefix
  verify_github secret payload headers =
      check_tag (sha256_hex (bytes secret) payload)
        (text_or_empty (strip_prefix "sha256=" (text_or_empty (headers "X-Hub-Signature-256"))))

  unfoldable pub verify_shopify : String → Bytes → Headers → Bool
  unfolding check_tag
  verify_shopify secret payload headers =
      check_tag (sha256_base64 (bytes secret) payload)
        (text_or_empty (headers "X-Shopify-Hmac-SHA256"))

  unfoldable pub verify_custom_hmac : String → Bytes → Headers → Bool
  unfolding check_tag
  verify_custom_hmac secret payload headers =
      check_tag (sha256_hex (bytes secret) payload) (text_or_empty (headers "X-Webhook-Signature"))

  unfoldable pub verify_pagerduty : String → Bytes → Headers → Bool
  unfolding check_tag strip_prefix
  verify_pagerduty secret payload headers =
      check_tag (sha256_hex (bytes secret) payload)
        (text_or_empty (strip_prefix "v1=" (text_or_empty (headers "X-PagerDuty-Signature"))))

  unfoldable pub verify_grafana : String → Bytes → Headers → Bool
  unfolding check_tag
  verify_grafana secret payload headers =
      check_tag (sha256_hex (bytes secret) payload)
        (text_or_empty (headers "X-Grafana-Alerting-Signature"))

  unfoldable pub verify_terraform : String → Bytes → Headers → Bool
  unfolding check_tag
  verify_terraform secret payload headers =
      check_tag (sha512_hex (bytes secret) payload)
        (text_or_empty (headers "X-TFE-Notification-Signature"))

  unfoldable pub verify_gitlab : String → Bytes → Headers → Bool
  unfolding check_tag
  verify_gitlab secret payload headers = check_tag secret (text_or_empty (headers "X-Gitlab-Token"))

  unfoldable pub verify_linear : String → Bytes → Headers → Bool
  unfolding check_tag
  verify_linear secret payload headers =
      check_tag (sha256_hex (bytes secret) payload) (text_or_empty (headers "Linear-Signature"))

  unfoldable pub verify_twilio : String → Bytes → Headers → Bool
  unfolding check_tag
  verify_twilio secret payload headers =
      check_tag (sha1_base64 (bytes secret) payload) (text_or_empty (headers "X-Twilio-Signature"))

  -- A tag over the time, a separator and the payload, at a time within five minutes.
  unfoldable pub check_timed : String → Bytes → ℕ → String → String × String → Bool
  unfolding constant_time_eq parse_i64 is_stale
  check_timed secret payload now separator (time, tag) =
      if time == "" || tag == ""
      then false
      else if is_fresh now (parse_i64 time)
      then constant_time_eq (sha256_hex (bytes secret) (bytes time ++ (bytes separator ++ payload)))
          tag
      else false

  unfoldable pub verify_stripe : String → Bytes → Headers → ℕ → Bool
  unfolding parts check_timed split
  verify_stripe secret payload headers now =
      check_timed secret payload now "."
        (parts "t=" "v1=" (split b',' (text_or_empty (headers "Stripe-Signature"))) ("", ""))

  unfoldable pub verify_paddle : String → Bytes → Headers → ℕ → Bool
  unfolding parts check_timed split
  verify_paddle secret payload headers now =
      check_timed secret payload now ":"
        (parts "ts=" "h1=" (split b';' (text_or_empty (headers "Paddle-Signature"))) ("", ""))

  abbrev decoded : String → Option Bytes → Bytes
  decoded secret none = bytes secret
  decoded secret (some key) = key

  -- What stands behind `whsec_` is decoded; if that fails, or without it, the secret is the key.
  abbrev pub key_of : String → Option String → Bytes
  key_of secret none = bytes secret
  key_of secret (some stripped) = decoded secret (decode stripped)

  unfoldable pub any_tag : String → List String → Bool
  unfolding constant_time_eq strip_prefix
  any_tag expected [] = false
  any_tag expected (entry ∷ entries) =
      let rest = any_tag expected entries in
      elim (strip_prefix "v1," entry) [
        | none ↦ rest
        | some tag ↦ if constant_time_eq expected tag then true else rest
      ]

  -- The tag of a Standard Webhooks message.
  unfoldable pub webhook_tag : String → String → String → Bytes → String
  webhook_tag secret id time payload =
      sha256_base64 (key_of secret (strip_prefix "whsec_" secret))
        (bytes id ++ (bytes "." ++ (bytes time ++ (bytes "." ++ payload))))

  unfoldable pub verify_standard_webhooks : String → Bytes → Headers → ℕ → Bool
  unfolding any_tag webhook_tag parse_i64 is_stale split
  verify_standard_webhooks secret payload headers now =
      let id = text_or_empty (headers "webhook-id") in
      let time = text_or_empty (headers "webhook-timestamp") in
      let tags = text_or_empty (headers "webhook-signature") in
      if id == "" || time == "" || tags == ""
      then false
      else if is_fresh now (parse_i64 time)
      then any_tag (webhook_tag secret id time payload) (split b' ' tags)
      else false

  -- None: the provider is unknown, which is an error.
  unfoldable pub verify_signature : String → String → Bytes → Headers → ℕ → Option Bool
  unfolding verify_stripe verify_github verify_shopify verify_custom_hmac verify_pagerduty
      verify_grafana verify_terraform verify_gitlab verify_standard_webhooks verify_linear
      verify_twilio verify_paddle
  verify_signature provider secret payload headers now =
      if provider == "stripe"
      then some (verify_stripe secret payload headers now)
      else if provider == "github"
      then some (verify_github secret payload headers)
      else if provider == "shopify"
      then some (verify_shopify secret payload headers)
      else if provider == "hmac"
      then some (verify_custom_hmac secret payload headers)
      else if provider == "pagerduty"
      then some (verify_pagerduty secret payload headers)
      else if provider == "grafana"
      then some (verify_grafana secret payload headers)
      else if provider == "terraform"
      then some (verify_terraform secret payload headers)
      else if provider == "gitlab"
      then some (verify_gitlab secret payload headers)
      else if provider == "standard-webhooks"
      then some (verify_standard_webhooks secret payload headers now)
      else if provider == "linear"
      then some (verify_linear secret payload headers)
      else if provider == "twilio"
      then some (verify_twilio secret payload headers)
      else if provider == "paddle"
      then some (verify_paddle secret payload headers now)
      else none
