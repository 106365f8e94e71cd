-- ===== src/Api/Http/Admission.antt =====
-- src/api.rs, `handle_webhook`: which requests reach `process_event`.
use Prim.Native.String.{◌++◌ as ◌++ᵗ◌}
use mathlib.Core.Option.{some_inj}
use qhook.Prelude.{
  ◌≡◌, refl, sym, ◌∙◌, ◌⊎◌, inl, inr, Bool, true, false, Option, none, some, String, Bool-cases,
  Option-cases,
}
use qhook.Prelude.Classes.{◌==◌, string_eq}
use qhook.Text.{strip_prefix}
use qhook.Config.{SourceConfig, Config}
use qhook.Db.{Database}
use qhook.Db.Endpoints.{Outbound}
use qhook.Verify.{Bytes, text_or_empty}
use qhook.Verify.Tags.{Plain, IsEquality, prefix, header, tag_of, verify_signature_plain}
use qhook.Verify.Tags as Tags
use qhook.Metrics.{inc_verification_failure}
use qhook.Worker.Deliver.{send, verification_failure}
use qhook.Workflow.Engine.{Env, Engine, Answer, done, Task, pure, ◌>>◌, tally, alert}
use qhook.Api.Http.{
  Request, Response, error, accepted, Libraries, Server, Check, passed, rejected, broken, checked,
  check_ip, check_signature, schema_holds, extract_event_type, find_source, answer_event,
  accept_webhook, on_check, receive_webhook, find_webhook, handle_webhook,
}

-- Whether an answer reports an event.
abbrev pub is_accepted : Answer Response → Bool
is_accepted (done (accepted status r)) = true
is_accepted _ = false

-- No table is changed, and no event is reported.
abbrev pub Refused : Database → Engine × Answer Response → Type 0
Refused db (s', a) = (s'.world.db ≡ db) × (is_accepted a ≡ false)

-- A failed verification is counted and reported, and the answer is an error.
pub report-Refused :
    (name : String) (r : Response) (s : Engine)
    → is_accepted (done r) ≡ false
    → Refused s.world.db
        ((tally (inc_verification_failure name) >> alert (verification_failure name) >> pure r) s)
unfolding tally alert ◌>>◌ send
report-Refused name r s h = elim (Bool-cases s.world.alerting) [
  | inl on ↦ rw on (refl, h)
  | inr off ↦ rw off (refl, h)
]

module _ (lib : Libraries) (env : Env) (config : Config) (server : Server) (outbound : Outbound)
    (req : Request) where
  -- The body is a text that the schema of the source takes, and its event is processed.
  abbrev pub Processed : String → SourceConfig → Bytes → Engine → Engine × Answer Response → Type 0
  Processed name source body s r =
      (payload : String) × (lib.from_utf8 body ≡ some payload)
      × (schema_holds lib env.serde payload source.schema ≡ true)
      × (r
          ≡ answer_event env config outbound 200 name
              (extract_event_type env.serde name payload req.headers) payload req.headers s)

  accept_webhook-Processed :
      (name : String) (source : SourceConfig) (body : Bytes) (s : Engine)
      → let r = accept_webhook lib env config server outbound name source body req.headers s in
        Refused s.world.db r ⊎ Processed name source body s r
  unfolding accept_webhook
  accept_webhook-Processed name source body s = elim (Option-cases (lib.from_utf8 body)) [
    | inl e ↦ inl (rw e (refl, refl))
    | inr (payload, e) ↦ elim (Bool-cases (schema_holds lib env.serde payload source.schema)) [
      | inl f ↦ inr (payload, e, f, rw (e, f) refl)
      | inr f ↦ inl (rw (e, f) (refl, refl))
    ]
  ]

  -- The guards on the address and on the signature let the request through.
  abbrev pub Trusted : SourceConfig → Bytes → Type 0
  Trusted source body =
      (check_ip lib server source.allowed_ips req ≡ true)
      × (check_signature lib source body req.headers ≡ passed)

  check-Refused :
      (name : String) (next : Task Response) (c : Check) (s : Engine)
      → (c ≡ passed) ⊎ Refused s.world.db (on_check lib env config server outbound name next c s)
  check-Refused name next passed s = inl refl
  check-Refused name next rejected s =
      inr (report-Refused name (error 400 "signature_invalid" "Invalid signature") s refl)
  check-Refused name next broken s = inr (refl, refl)

  receive_webhook-Trusted :
      (name : String) (source : SourceConfig) (body : Bytes) (s : Engine)
      → let r = receive_webhook lib env config server outbound name source body req s in
        Refused s.world.db r ⊎ (Trusted source body × Processed name source body s r)
  unfolding receive_webhook
  receive_webhook-Trusted name source body s =
      elim (Bool-cases (check_ip lib server source.allowed_ips req)) [
        | inl near ↦
            elim (check-Refused name
              (accept_webhook lib env config server outbound name source body req.headers)
              (check_signature lib source body req.headers) s) [
                | inl signed ↦ elim (accept_webhook-Processed name source body s) [
                  | inl h ↦ inl (rw (near, signed) h)
                  | inr h ↦ inr ((near, signed), rw (near, signed) h)
                ]
                | inr h ↦ inl (rw near h)
              ]
        | inr far ↦ inl (rw far (refl, refl))
      ]

  -- The request names a source of this kind in its path, and has a body.
  abbrev pub Addressed : String → SourceConfig → Bytes → Type 0
  Addressed name source body =
      (strip_prefix "/webhooks/" req.path ≡ some name)
      × (find_source name config.sources ≡ some source)
      × ((source.source_type == "webhook") ≡ true)
      × (req.body ≡ some body)

  find_webhook-Trusted :
      (name : String) (body : Bytes) (s : Engine)
      → let r = find_webhook lib env config server outbound name body req s in
        Refused s.world.db r
        ⊎ ((source : SourceConfig) × (find_source name config.sources ≡ some source)
            × ((source.source_type == "webhook") ≡ true)
            × Trusted source body
            × Processed name source body s r)
  unfolding find_webhook
  find_webhook-Trusted name body s = elim (Option-cases (find_source name config.sources)) [
    | inl e ↦ inl (rw e (refl, refl))
    | inr (source, e) ↦ elim (Bool-cases (source.source_type == "webhook")) [
      | inl k ↦ elim (receive_webhook-Trusted name source body s) [
        | inl h ↦ inl (rw (e, k) h)
        | inr (t, h) ↦ inr (source, e, k, t, rw (e, k) h)
      ]
      | inr k ↦ inl (rw (e, k) (refl, refl))
    ]
  ]

  -- A request on `/webhooks/` either changes no table and its answer reports no event, or it names a
  -- source of the type `webhook`, its address and its signature are accepted by that source's
  -- settings, its body is a text that the source's schema takes, and what happens is what
  -- `process_event` does with that text, the source and the extracted event type.
  pub handle_webhook-Admission :
      (s : Engine)
      → let r = handle_webhook lib env config server outbound req s in
        Refused s.world.db r
        ⊎ ((name : String) × (source : SourceConfig) × (body : Bytes) × Addressed name source body
            × Trusted source body
            × Processed name source body s r)
  unfolding handle_webhook
  handle_webhook-Admission s = elim (Bool-cases server.db_healthy) [
    | inl up ↦ elim (Option-cases (strip_prefix "/webhooks/" req.path)) [
      | inl p ↦ inl (rw (up, p) (refl, refl))
      | inr (name, p) ↦ elim (Option-cases req.body) [
        | inl b ↦ inl (rw (up, p, b) (refl, refl))
        | inr (body, b) ↦ elim (find_webhook-Trusted name body s) [
          | inl h ↦ inl (simp (up, p, b) h)
          | inr (source, e, k, t, h) ↦ inr (name, source, body, (p, e, k, b), t, simp (up, p, b) h)
        ]
      ]
    ]
    | inr down ↦ inl (rw down (refl, refl))
  ]

  passed_tag : (answer : Option Bool) → checked answer ≡ passed → answer ≡ some true
  passed_tag none h = cc
  passed_tag (some true) h = refl
  passed_tag (some false) h = cc

  -- Suppose that `ct_eq` decides equality, that a request names the source `source` in its path and
  -- has the body `body`, and that this source has a secret and is verified as one of the nine
  -- providers that tag the body alone. Then the request changes no table and its answer reports no
  -- event, unless the provider's header is its prefix with the tag of the body under the secret.
  pub handle_webhook_authentic :
      (equality : IsEquality lib.crypto) (p : Plain) (key name : String) (source : SourceConfig)
      (body : Bytes)
      → strip_prefix "/webhooks/" req.path ≡ some name
      → find_source name config.sources ≡ some source
      → req.body ≡ some body
      → source.verify ≡ some (Tags.name p)
      → source.secret ≡ some key
      → (s : Engine)
      → let r = handle_webhook lib env config server outbound req s in
        Refused s.world.db r
        ⊎ (text_or_empty (req.headers.value (header p)) ≡ prefix p ++ᵗ tag_of lib.crypto p key body)
  unfolding check_signature
  handle_webhook_authentic equality p key name source body at_path here full verified secret s =
      elim (handle_webhook-Admission s) [
        | inl h ↦ inl h
        | inr (name', source', body', (path', here', kind, full'), (near, signed), h) ↦
            let n : name' ≡ name = some_inj.0 (sym path' ∙ at_path) in
            let found : find_source name config.sources ≡ some source' = rw n at here' in
            let c : source' ≡ source = some_inj.0 (sym found ∙ here) in
            let b : body' ≡ body = some_inj.0 (sym full' ∙ full) in
            let it : check_signature lib source body req.headers ≡ passed = rw (c, b) at signed in
            inr
              ((verify_signature_plain lib.crypto equality p key body req.headers.value lib.now).0
                (passed_tag _ (rw (verified, secret) at it))).0
      ]
