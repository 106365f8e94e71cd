-- ===== src/Api/Http/Events.antt =====
-- src/api.rs, `handle_event`: which requests reach `process_event`.
use Prim.Native.String.{◌++◌ as ◌++ᵗ◌}
use qhook.Prelude.{
  ◌≡◌, refl, ◌∙◌, ap, ◌⊎◌, inl, inr, true, false, Option, none, some, String, ◌||◌, Bool-cases,
  Option-cases,
}
use qhook.Prelude.Classes.{◌==◌, string_eq}
use qhook.Text.{strip_prefix, strip_prefix-eq-some}
use qhook.Config.{SourceConfig, Config}
use qhook.Db.Endpoints.{Outbound}
use qhook.Verify.{Bytes}
use qhook.Verify.Tags.{IsEquality}
use qhook.Workflow.Engine.{Env, Engine, Answer}
use qhook.Api.Http.{
  HeaderMap, Response, Libraries, Server, schema_holds, or_text, find_source, answer_event,
  check_token, accept_event, authorize_event, handle_event,
}
use qhook.Api.Http.Admission.{Refused}

module _ (lib : Libraries) (env : Env) (config : Config) (server : Server) (outbound : Outbound)
    (name event_type : String) (headers : HeaderMap) (body : Bytes) where
  -- The header that a configured token asks for.
  abbrev pub Authorized : Option String → Type 0
  Authorized none = Unit
  Authorized (some expected) = headers.value "Authorization" ≡ some ("Bearer " ++ᵗ expected)

  -- The body is a text that the schema of the source takes, and its event is processed.
  abbrev pub Taken : SourceConfig → Engine → Engine × Answer Response → Type 0
  Taken source s r =
      (payload : String) × (lib.from_utf8 body ≡ some payload)
      × (schema_holds lib env.serde payload source.schema ≡ true)
      × (r
          ≡ answer_event env config outbound 202 name (or_text event_type (headers.value "ce-type"))
              payload headers s)

  accept_event-Taken :
      (source : SourceConfig) (s : Engine)
      → let r = accept_event lib env config server outbound name source event_type body headers s in
        Refused s.world.db r ⊎ Taken source s r
  unfolding accept_event
  accept_event-Taken source s = elim (Option-cases (lib.from_utf8 body)) [
    | inl e ↦ inl (rw e (refl, refl))
    | inr (payload, e) ↦ elim (Bool-cases (schema_holds lib env.serde payload source.schema)) [
      | inl f ↦ inr (payload, e, f, rw (e, f) refl)
      | inr f ↦ inl (rw (e, f) (refl, refl))
    ]
  ]

  module _ (equality : IsEquality lib.crypto) where
    bearer :
        (expected : String)
        → check_token lib env config server outbound headers (some expected) ≡ true
        → headers.value "Authorization" ≡ some ("Bearer " ++ᵗ expected)
    unfolding check_token
    bearer expected h = elim (Option-cases (headers.value "Authorization")) [
      | inl e ↦ (let no_token : false ≡ true = rw (e, check_token) at h in cc)
      | inr (v, e) ↦ elim (Option-cases (strip_prefix "Bearer " v)) [
        | inl n ↦ (let no_token : false ≡ true = rw (e, n, check_token) at h in cc)
        | inr (token, t) ↦
            let same : token ≡ expected =
              (equality token expected).0 (rw (e, t, check_token) at h) in
            e ∙ ap some (strip_prefix-eq-some "Bearer " v t ∙ ap (λ r. "Bearer " ++ᵗ r) same)
      ]
    ]

    token-Authorized :
        (token : Option String)
        → check_token lib env config server outbound headers token ≡ true
        → Authorized token
    token-Authorized none h = tt
    token-Authorized (some expected) h = bearer expected h

    authorize_event-Taken :
        (source : SourceConfig) (s : Engine)
        → let r =
            authorize_event lib env config server outbound name source event_type body headers s in
          Refused s.world.db r ⊎ (Authorized server.auth_token × Taken source s r)
    unfolding authorize_event
    authorize_event-Taken source s =
        elim (Bool-cases (check_token lib env config server outbound headers server.auth_token)) [
          | inl t ↦ elim (accept_event-Taken source s) [
            | inl h ↦ inl (simp t h)
            | inr h ↦ inr (token-Authorized server.auth_token t, simp t h)
          ]
          | inr t ↦ inl (simp t (refl, refl))
        ]

    -- If `ct_eq` decides equality, a request on `/events/` either changes no table and its answer
    -- reports no event, or it names a source of the type `event` or `outbound`, its header
    -- `Authorization` is `Bearer ` with the configured token behind it if one is configured, its body
    -- is a text that the source's schema takes, and what happens is what `process_event` does with
    -- that text, the source and the event type of the header `ce-type`, or else of the path.
    pub handle_event-Admission :
        (s : Engine)
        → let r = handle_event lib env config server outbound name event_type headers body s in
          Refused s.world.db r
          ⊎ ((source : SourceConfig) × (find_source name config.sources ≡ some source)
              × (((source.source_type == "event") || (source.source_type == "outbound")) ≡ true)
              × Authorized server.auth_token
              × Taken source s r)
    unfolding handle_event
    handle_event-Admission s = elim (Bool-cases server.db_healthy) [
      | inl up ↦ elim (Option-cases (find_source name config.sources)) [
        | inl e ↦ inl (simp (up, e) (refl, refl))
        | inr (source, e) ↦
            elim (Bool-cases
              ((source.source_type == "event") || (source.source_type == "outbound"))) [
                | inl k ↦ elim (authorize_event-Taken source s) [
                  | inl h ↦ inl (simp (up, e, k) h)
                  | inr (t, h) ↦ inr (source, e, k, t, simp (up, e, k) h)
                ]
                | inr k ↦ inl (simp (up, e, k) (refl, refl))
              ]
      ]
      | inr down ↦ inl (rw down (refl, refl))
    ]
