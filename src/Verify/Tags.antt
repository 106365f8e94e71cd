-- ===== src/Verify/Tags.antt =====
-- src/verify.rs: the nine providers whose tag is over the payload alone.
use Prim.Native.String.{◌++◌ as ◌++ᵗ◌}
use mathlib.Core.Option.{some_inj}
use qhook.Prelude.{
  ℕ, ◌≡◌, ◌≢◌, ◌↔◌, refl, sym, ◌∙◌, ap, Bool, true, false, Option, some, String, length, nat_beq,
  nat_beq_iff, eq_iff, Bool-cases, Option-cases, inl, inr,
}
use qhook.Prelude.Classes.{◌==◌, string_eq}
use qhook.Text.{strip_prefix, strip_prefix-eq-some, strip_prefix-append}
use qhook.Verify.{
  Bytes, Crypto, Headers, text_or_empty, check_tag, constant_time_eq, verify_signature,
}

pub data Plain : Type 0 where
  github shopify custom_hmac pagerduty grafana terraform gitlab linear twilio : Plain

abbrev pub name : Plain → String
name github = "github"
name shopify = "shopify"
name custom_hmac = "hmac"
name pagerduty = "pagerduty"
name grafana = "grafana"
name terraform = "terraform"
name gitlab = "gitlab"
name linear = "linear"
name twilio = "twilio"

abbrev pub header : Plain → String
header github = "X-Hub-Signature-256"
header shopify = "X-Shopify-Hmac-SHA256"
header custom_hmac = "X-Webhook-Signature"
header pagerduty = "X-PagerDuty-Signature"
header grafana = "X-Grafana-Alerting-Signature"
header terraform = "X-TFE-Notification-Signature"
header gitlab = "X-Gitlab-Token"
header linear = "Linear-Signature"
header twilio = "X-Twilio-Signature"

abbrev pub prefix : Plain → String
prefix github = "sha256="
prefix pagerduty = "v1="
prefix _ = ""

-- The tag that the provider sends; GitLab sends the secret.
abbrev pub tag_of : Crypto → Plain → String → Bytes → String
tag_of c github secret payload = c.sha256_hex (c.bytes secret) payload
tag_of c shopify secret payload = c.sha256_base64 (c.bytes secret) payload
tag_of c custom_hmac secret payload = c.sha256_hex (c.bytes secret) payload
tag_of c pagerduty secret payload = c.sha256_hex (c.bytes secret) payload
tag_of c grafana secret payload = c.sha256_hex (c.bytes secret) payload
tag_of c terraform secret payload = c.sha512_hex (c.bytes secret) payload
tag_of c gitlab secret payload = secret
tag_of c linear secret payload = c.sha256_hex (c.bytes secret) payload
tag_of c twilio secret payload = c.sha1_base64 (c.bytes secret) payload

-- What `ct_eq` is documented to do, of texts: it is true exactly of equal sequences of bytes.
abbrev pub IsEquality : Crypto → Type 0
IsEquality c = (a b : String) → (c.ct_eq (c.bytes a) (c.bytes b) ≡ true) ↔ (a ≡ b)

module _ (c : Crypto) (equality : IsEquality c) where
  pub compared : (a b : String) → (constant_time_eq c a b ≡ true) ↔ (a ≡ b)
  unfolding constant_time_eq
  compared a b = (
    λ h. elim (Bool-cases (nat_beq (length (c.bytes a)) (length (c.bytes b)))) [
      | inl e ↦ (equality a b).0 (rw e at h)
      | inr e ↦ (let no_match : false ≡ true = rw e at h in cc)
    ],
    λ e.
        rw (e, (nat_beq_iff (length (c.bytes b)) (length (c.bytes b))).1 refl)
          ((equality b b).1 refl),
  )

  checked :
      (expected tag : String) → (check_tag c expected tag ≡ true) ↔ ((tag ≡ expected) × (tag ≢ ""))
  unfolding check_tag
  checked expected tag = (
    λ h. elim (Bool-cases (tag == "")) [
      | inl e ↦ (let no_match : false ≡ true = rw e at h in cc)
      | inr e ↦ (
        sym ((compared expected tag).0 (rw e at h)),
        λ k. (let empty : (tag == "") ≡ true = (eq_iff tag "").1 k in cc),
      )
    ],
    λ (same, some_tag). elim (Bool-cases (tag == "")) [
      | inl e ↦ absurd (some_tag ((eq_iff tag "").0 e))
      | inr e ↦ rw e ((compared expected tag).1 (sym same))
    ],
  )

  -- The header is the prefix with the tag behind it.
  tagged :
      (p expected : String) (h : Option String)
      → (check_tag c expected (text_or_empty (strip_prefix p (text_or_empty h))) ≡ true)
        ↔ ((text_or_empty h ≡ p ++ᵗ expected) × (expected ≢ ""))
  tagged p expected h = (
    λ k.
        let (same, full) =
          (checked expected (text_or_empty (strip_prefix p (text_or_empty h)))).0 k in
        elim (Option-cases (strip_prefix p (text_or_empty h))) [
          | inl e ↦ absurd (full (rw e refl))
          | inr (rest, e) ↦
              (let it : rest ≡ expected = rw e at same in
                let nonempty : rest ≢ "" = rw e at full in
                (
                  strip_prefix-eq-some p (text_or_empty h) e ∙ ap (λ r. p ++ᵗ r) it,
                  λ z. nonempty (it ∙ z),
                ))
        ],
    λ (e, full).
        rw (e, strip_prefix-append p expected) ((checked expected expected).1 (refl, full)),
  )

  known :
      (p expected : String) (h : Option String) (answer : Option Bool)
      → answer ≡ some (check_tag c expected (text_or_empty (strip_prefix p (text_or_empty h))))
      → (answer ≡ some true) ↔ ((text_or_empty h ≡ p ++ᵗ expected) × (expected ≢ ""))
  known p expected h answer e = (
    λ k. (tagged p expected h).0 (some_inj.0 (sym e ∙ k)),
    λ k. e ∙ ap some ((tagged p expected h).1 k),
  )

  -- If `ct_eq` decides equality, a request of one of the nine providers is accepted exactly if the
  -- provider's header is its prefix with the tag of the payload under the secret behind it, and this
  -- tag is not empty.
  pub verify_signature_plain :
      (p : Plain) (secret : String) (payload : Bytes) (headers : Headers) (now : ℕ)
      → (verify_signature c (name p) secret payload headers now ≡ some true) ↔ (
          (text_or_empty (headers (header p)) ≡ prefix p ++ᵗ tag_of c p secret payload)
          × (tag_of c p secret payload ≢ ""))
  unfolding verify_signature strip_prefix
  verify_signature_plain github secret payload headers now =
      known "sha256=" _ (headers "X-Hub-Signature-256") _ refl
  verify_signature_plain shopify secret payload headers now =
      known "" _ (headers "X-Shopify-Hmac-SHA256") _ refl
  verify_signature_plain custom_hmac secret payload headers now =
      known "" _ (headers "X-Webhook-Signature") _ refl
  verify_signature_plain pagerduty secret payload headers now =
      known "v1=" _ (headers "X-PagerDuty-Signature") _ refl
  verify_signature_plain grafana secret payload headers now =
      known "" _ (headers "X-Grafana-Alerting-Signature") _ refl
  verify_signature_plain terraform secret payload headers now =
      known "" _ (headers "X-TFE-Notification-Signature") _ refl
  verify_signature_plain gitlab secret payload headers now =
      known "" _ (headers "X-Gitlab-Token") _ refl
  verify_signature_plain linear secret payload headers now =
      known "" _ (headers "Linear-Signature") _ refl
  verify_signature_plain twilio secret payload headers now =
      known "" _ (headers "X-Twilio-Signature") _ refl
