-- ===== src/Verify/Outbound.antt =====
-- src/verify.rs and src/queue.rs: the signature of an outbound webhook, and its headers.
use Prim.Native.String.{◌++◌ as ◌++ᵗ◌}
use mathlib.Core.List.Memᴰ.{head}
use qhook.Prelude.{
  ℕ, ◌+◌, ◌<◌, ◌≤◌, ◌≡◌, ◌≢◌, refl, sym, ◌∙◌, ap, true, false, none, some, String, [], ◌∷◌, ◌++◌,
  if◌then◌else◌,
}
use qhook.Prelude.Classes.{◌==◌, string_eq}
use qhook.Text.{strip_prefix, strip_prefix-append}
use qhook.Json.Path.{split}
use qhook.Verify.{Bytes, Crypto, Headers, key_of, parse_i64, webhook_tag, verify_signature}
use qhook.Verify.Tags.{IsEquality}
use qhook.Verify.Fresh.{verify_standard_webhooks_accepts}

-- The time is in seconds, and `to_string` is an argument.
unfoldable pub sign_outbound_payload : Crypto → (ℕ → String) → String → String → ℕ → Bytes → String
unfolding strip_prefix
sign_outbound_payload c to_string secret id time payload =
    c.sha256_base64 (key_of c secret (strip_prefix "whsec_" secret))
      (c.bytes id ++ (c.bytes "." ++ (c.bytes (to_string time) ++ (c.bytes "." ++ payload))))

-- What `deliver_outbound` sends of the Standard Webhooks headers.
unfoldable pub outbound_headers : String → String → String → Headers
outbound_headers id time signature name =
    if name == "webhook-id"
    then some id
    else if name == "webhook-timestamp"
    then some time
    else if name == "webhook-signature"
    then some ("v1," ++ᵗ signature)
    else none

prefixed_nonempty : (s : String) → "v1," ++ᵗ s ≢ ""
unfolding strip_prefix
prefixed_nonempty s e =
    let stripped : none ≡ some s = ap (strip_prefix "v1,") (sym e) ∙ strip_prefix-append "v1," s in
    cc

-- If `ct_eq` decides equality, the printed time is parsed as it was, base64 has no space in it,
-- the clock is far from the end of its range and the job has an id, then an outbound request that is
-- signed with a secret is accepted by the check of Standard Webhooks with this secret for five
-- minutes from the time at which it was signed.
pub sign-verify_signature :
    (c : Crypto) (to_string : ℕ → String)
    → IsEquality c
    → ((key message : Bytes)
        → split b' ' ("v1," ++ᵗ c.sha256_base64 key message)
          ≡ ("v1," ++ᵗ c.sha256_base64 key message) ∷ [])
    → (secret id : String) (payload : Bytes) (sent now : ℕ)
    → parse_i64 (to_string sent) ≡ some (false, sent)
    → now + 300 < 9223372036854775808
    → id ≢ ""
    → now ≤ sent + 300
    → sent ≤ now + 300
    → verify_signature c "standard-webhooks" secret payload
        (outbound_headers id
          (to_string sent)
          (sign_outbound_payload c to_string secret id sent payload))
        now
      ≡ some true
unfolding outbound_headers sign_outbound_payload webhook_tag
sign-verify_signature c to_string equality no_space secret id payload sent now parsed small named
      late early =
    let signature = sign_outbound_payload c to_string secret id sent payload in
    (verify_standard_webhooks_accepts c equality secret payload
        (outbound_headers id (to_string sent) signature) now small).1
      (
        named,
        prefixed_nonempty signature,
        (false, sent),
        parsed,
        (late, early),
        rw (no_space _ _) (head refl),
      )
