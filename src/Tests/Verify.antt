-- ===== src/Tests/Verify.antt =====
-- Requests and URLs that src/verify.rs accepts, with a small stand-in for the cryptography.
use Prim.Native.Char.{code}
use Prim.Native.String.{◌++◌ as ◌++ᵗ◌}
use package.text.Mathlib.TextEquality.{Char-path}
use mathlib.Core.List.{Memᴰ}
use qhook.Prelude.{
  ℕ, ◌≡◌, ◌≢◌, ◌↔◌, refl, Bool, true, false, none, some, String, [], ◌∷◌, length, arith, nat_beq,
  nat_beq_iff, Bool-cases, inl, inr, if◌then◌else◌,
}
use qhook.Prelude.Classes.{◌==◌, string_eq}
use qhook.Text.{strip_prefix, trim, trim_by, is_whitespace, trim_start, trim_end}
use qhook.Json.Path.{split}
use qhook.Verify.{
  Bytes, Crypto, Headers, text_or_empty, digits, parse_i64, is_stale, parts, check_timed, any_tag,
  webhook_tag, constant_time_eq, verify_signature, verify_stripe, verify_standard_webhooks,
}
use qhook.Verify.Tags.{github, header, tag_of, IsEquality, verify_signature_plain}
use qhook.Verify.Fresh.{
  IsRecent, stripe, fields, timed_tag, verify_signature_fresh, verify_standard_webhooks_accepts,
}
use qhook.Verify.Outbound.{outbound_headers, sign_outbound_payload, sign-verify_signature}
use qhook.Verify.Sns.{is_valid_sns_url, is_valid_sns_url_any_host}

abbrev pub codes : String → Bytes
codes String.[] = []
codes (String.◌∷◌ c s) = code c ∷ codes s

abbrev same : Bytes → Bytes → Bool
same [] [] = true
same [] (b ∷ bs) = false
same (a ∷ rest) [] = false
same (a ∷ xs) (b ∷ ys) = let equal = same xs ys in if nat_beq a b then equal else false

same_sound : (a b : String) → same (codes a) (codes b) ≡ true → a ≡ b
same_sound String.[] String.[] h = refl
same_sound String.[] (String.◌∷◌ d t) h = cc
same_sound (String.◌∷◌ c s) String.[] h = cc
same_sound (String.◌∷◌ c s) (String.◌∷◌ d t) h = elim (Bool-cases (nat_beq (code c) (code d))) [
  | inl e ↦
      (let first : c ≡ d = Char-path c d ((nat_beq_iff (code c) (code d)).0 e) in
        let rest : s ≡ t = same_sound s t (rw e at h) in rw (first, rest) refl)
  | inr e ↦ (let no_match : false ≡ true = rw e at h in cc)
]

same_refl : (a : String) → same (codes a) (codes a) ≡ true
same_refl String.[] = refl
same_refl (String.◌∷◌ c s) = rw ((nat_beq_iff (code c) (code c)).1 refl, same_refl s) refl

-- The tag tells whether the key is as long as the message.
abbrev digest : Bytes → Bytes → String
digest key message = if nat_beq (length key) (length message) then "e0" else "d1"

abbrev pub crypto : Crypto
crypto = record {
  bytes = codes;
  sha256_hex = digest;
  sha512_hex = digest;
  sha256_base64 = digest;
  sha1_base64 = digest;
  decode = λ s. some (codes s);
  ct_eq = same;
}

pub equality : IsEquality crypto
equality a b = (same_sound a b, λ e. rw e (same_refl b))

abbrev pub request : Headers
request name =
    if name == "X-Hub-Signature-256"
    then some "sha256=d1"
    else if name == "Stripe-Signature"
    then some "t=100, v1=d1"
    else if name == "webhook-id"
    then some "m1"
    else if name == "webhook-timestamp"
    then some "100"
    else if name == "webhook-signature"
    then some "v1,e0 v1,d1"
    else none

-- A time that is a minute too old.
too_old : verify_signature crypto "stripe" "key" [] request 461 ≡ some false
unfolding verify_signature verify_stripe check_timed parts strip_prefix trim trim_by is_whitespace
    trim_start trim_end split digits parse_i64 is_stale constant_time_eq
too_old = refl

on_time : verify_signature crypto "stripe" "key" [] request 160 ≡ some true
unfolding verify_signature verify_stripe check_timed parts strip_prefix trim trim_by is_whitespace
    trim_start trim_end split digits parse_i64 is_stale constant_time_eq
on_time = refl

second_tag : verify_signature crypto "standard-webhooks" "whsec_key" [] request 160 ≡ some true
unfolding verify_signature verify_standard_webhooks any_tag webhook_tag strip_prefix split digits
    parse_i64 is_stale constant_time_eq
second_tag = refl

verify_signature_plain_example :
    (verify_signature crypto "github" "key" [] request 160 ≡ some true) ↔ (
      (text_or_empty (request (header github)) ≡ "sha256=" ++ᵗ tag_of crypto github "key" [])
      × (tag_of crypto github "key" [] ≢ ""))
verify_signature_plain_example = verify_signature_plain crypto equality github "key" [] request 160

verify_signature_fresh_example :
    let (time, tag) = fields stripe request in
    (verify_signature crypto "stripe" "key" [] request 160 ≡ some true) ↔ (
      (ts : Bool × ℕ) × (parse_i64 time ≡ some ts)
      × IsRecent 160 ts
      × (tag ≡ timed_tag crypto stripe "key" time [])
      × (tag ≢ ""))
verify_signature_fresh_example =
    verify_signature_fresh crypto equality stripe "key" [] request 160 (omega arith)

verify_standard_webhooks_accepts_example :
    let id = text_or_empty (request "webhook-id") in
    let time = text_or_empty (request "webhook-timestamp") in
    let tags = text_or_empty (request "webhook-signature") in
    (verify_signature crypto "standard-webhooks" "whsec_key" [] request 160 ≡ some true) ↔ (
      (id ≢ "")
      × (tags ≢ "")
      × (ts : Bool × ℕ) × (parse_i64 time ≡ some ts)
      × IsRecent 160 ts
      × Memᴰ ("v1," ++ᵗ webhook_tag crypto "whsec_key" id time []) (split b' ' tags))
verify_standard_webhooks_accepts_example =
    verify_standard_webhooks_accepts crypto equality "whsec_key" [] request 160 (omega arith)

-- The host of the URL is sns.example.org: `?` ends it.
is_valid_sns_url_any_host_example :
    is_valid_sns_url ("https://sns." ++ᵗ ("example.org?" ++ᵗ (".amazonaws.com/" ++ᵗ "cert.pem")))
    ≡ true
is_valid_sns_url_any_host_example = is_valid_sns_url_any_host "example.org?" "cert.pem" refl

no_space :
    (key message : Bytes)
    → split b' ' ("v1," ++ᵗ digest key message) ≡ ("v1," ++ᵗ digest key message) ∷ []
unfolding split
no_space key message = elim (Bool-cases (nat_beq (length key) (length message))) [
  | inl e ↦ rw e refl
  | inr e ↦ rw e refl
]

time_parsed : parse_i64 "100" ≡ some (false, 100)
unfolding parse_i64 digits
time_parsed = refl

sign-verify_signature_example :
    verify_signature crypto "standard-webhooks" "whsec_key" []
      (outbound_headers "j1" "100"
        (sign_outbound_payload crypto (λ n. "100") "whsec_key" "j1" 100 []))
      160
    ≡ some true
sign-verify_signature_example =
    sign-verify_signature crypto (λ n. "100") equality no_space "whsec_key" "j1" [] 100 160
      time_parsed (omega arith) (λ e. cc) (omega arith) (omega arith)
