-- ===== src/Api/Http/Sns/Events.antt =====
-- src/api.rs, `handle_sns`: which messages become events.
use qhook.Prelude.{
  ◌≡◌, refl, ◌⊎◌, inl, inr, true, Option, none, some, String, Bool-cases, Option-cases, eq_iff,
}
use qhook.Prelude.Classes.{◌==◌, string_eq}
use qhook.Config.{SourceConfig, Config}
use qhook.Db.Endpoints.{Outbound}
use qhook.Verify.{Bytes}
use qhook.Verify.Sns.{SnsMessage, is_valid_sns_url}
use qhook.Workflow.Engine.{Env, Engine, Answer, Task, pure}
use qhook.Api.Http.{
  plain, HeaderMap, Response, Libraries, Server, Check, passed, rejected, broken, find_source,
  answer_event,
}
use qhook.Api.Http.Admission.{Refused, report-Refused}
use qhook.Api.Http.Sns.{
  CertCache, SnsLibraries, confirm_subscription, extract_sns_event_type, act_on, on_verified,
  check_message, receive_message, receive_body, handle_sns, confirmed,
}
use qhook.Api.Http.Sns.Genuine.{Genuine, verify_sns_message-Genuine}

module _ (lib : Libraries) (sns : SnsLibraries) (env : Env) (config : Config) (server : Server)
    (outbound : Outbound) (name : String) (headers : HeaderMap) where
  unverified-Refused :
      (next : Task Response) (c : Check) (s : Engine)
      → (c ≡ passed)
        ⊎ Refused s.world.db (on_verified lib sns env config server outbound name next c s)
  unverified-Refused next passed s = inl refl
  unverified-Refused next rejected s =
      inr (report-Refused name (plain 401 "Invalid signature") s refl)
  unverified-Refused next broken s = inr (refl, refl)

  -- A notification is the event that it carries.
  abbrev pub Notified : SnsMessage → Engine → Engine × Answer Response → Type 0
  Notified msg s r =
      (msg.message_type ≡ "Notification")
      × (r
          ≡ answer_event env config outbound 200 name
              (extract_sns_event_type env.serde msg.message msg.subject) msg.message headers s)

  confirm_subscription-Refused :
      (url : Option String) (s : Engine)
      → Refused s.world.db (pure (confirm_subscription sns url) s)
  unfolding confirm_subscription
  confirm_subscription-Refused none s = (refl, refl)
  confirm_subscription-Refused (some url) s = elim (Bool-cases (is_valid_sns_url url)) [
    | inl v ↦ elim (Bool-cases (confirmed (sns.confirm url))) [
      | inl c ↦ rw (v, c) (refl, refl)
      | inr c ↦ rw (v, c) (refl, refl)
    ]
    | inr v ↦ rw v (refl, refl)
  ]

  act_on-Notified :
      (msg : SnsMessage) (s : Engine)
      → let r = act_on lib sns env config server outbound name msg headers s in
        Refused s.world.db r ⊎ Notified msg s r
  unfolding act_on
  act_on-Notified msg s = elim (Bool-cases (msg.message_type == "SubscriptionConfirmation")) [
    | inl c ↦ inl (simp c (confirm_subscription-Refused msg.subscribe_url s))
    | inr c ↦ elim (Bool-cases (msg.message_type == "Notification")) [
      | inl n ↦ inr ((eq_iff msg.message_type "Notification").0 n, rw (c, n) refl)
      | inr n ↦ elim (Bool-cases (msg.message_type == "UnsubscribeConfirmation")) [
        | inl u ↦ inl (rw (c, n, u) (refl, refl))
        | inr u ↦ inl (rw (c, n, u) (refl, refl))
      ]
    ]
  ]

  check_message-Genuine :
      (source : SourceConfig) (cache : CertCache) (msg : SnsMessage)
      → (check_message lib sns env config server outbound source cache msg).1 ≡ passed
      → (source.skip_verify ≡ true) ⊎ Genuine lib sns cache msg
  unfolding check_message
  check_message-Genuine source cache msg h = elim (Bool-cases source.skip_verify) [
    | inl k ↦ inl k
    | inr k ↦ inr (verify_sns_message-Genuine lib sns cache msg (rw (k, check_message) at h))
  ]

  -- What makes a message of the source an event.
  abbrev pub Delivered :
      SourceConfig → CertCache → SnsMessage → Engine → Engine × Answer Response → Type 0
  Delivered source cache msg s r =
      ((source.skip_verify ≡ true) ⊎ Genuine lib sns cache msg) × Notified msg s r

  receive_message-Delivered :
      (source : SourceConfig) (cache : CertCache) (msg : SnsMessage) (s : Engine)
      → let r =
          (receive_message lib sns env config server outbound name source cache headers msg).1 s in
        Refused s.world.db r ⊎ Delivered source cache msg s r
  unfolding receive_message
  receive_message-Delivered source cache msg s =
      let check = (check_message lib sns env config server outbound source cache msg).1 in
      elim (unverified-Refused (act_on lib sns env config server outbound name msg headers) check
        s) [
          | inl c ↦ elim (act_on-Notified msg s) [
            | inl h ↦ inl (rw c h)
            | inr h ↦ inr (check_message-Genuine source cache msg c, rw c h)
          ]
          | inr h ↦ inl h
        ]

  -- A request on `/sns/` either changes no table and its answer reports no event, or it names a source
  -- of the type `sns` and its body is a `Notification`, whose event is processed, and the source skips
  -- the verification or the message is signed: the URL of its certificate passes
  -- `is_valid_sns_url`, the certificate is in the cache for less than an hour or was fetched from this
  -- URL, and its key verifies the signature over the text to sign with the hash of the message's
  -- version.
  pub handle_sns-Admission :
      (cache : CertCache) (body : Bytes) (s : Engine)
      → let r = (handle_sns lib sns env config server outbound cache name headers body).1 s in
        Refused s.world.db r
        ⊎ ((source : SourceConfig) × (text : String) × (msg : SnsMessage) × (find_source name
                config.sources
              ≡ some source)
            × ((source.source_type == "sns") ≡ true)
            × (lib.from_utf8 body ≡ some text)
            × (sns.parse text ≡ some msg)
            × Delivered source cache msg s r)
  unfolding handle_sns receive_body
  handle_sns-Admission cache body s = elim (Bool-cases server.db_healthy) [
    | inl up ↦ elim (Option-cases (find_source name config.sources)) [
      | inl e ↦ inl (rw (up, e) (refl, refl))
      | inr (source, e) ↦ elim (Bool-cases (source.source_type == "sns")) [
        | inl k ↦ elim (Option-cases (lib.from_utf8 body)) [
          | inl b ↦ inl (rw (up, e, k, b) (refl, refl))
          | inr (text, b) ↦ elim (Option-cases (sns.parse text)) [
            | inl p ↦ inl (rw (up, e, k, b, p) (refl, refl))
            | inr (msg, p) ↦ elim (receive_message-Delivered source cache msg s) [
              | inl h ↦ inl (simp (up, e, k, b, p) h)
              | inr (t, (kind, h)) ↦
                  inr (source, text, msg, e, k, b, p, (t, (kind, simp (up, e, k, b, p) h)))
            ]
          ]
        ]
        | inr k ↦ inl (rw (up, e, k) (refl, refl))
      ]
    ]
    | inr down ↦ inl (rw down (refl, refl))
  ]
