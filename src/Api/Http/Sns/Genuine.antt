-- ===== src/Api/Http/Sns/Genuine.antt =====
-- src/verify.rs, `verify_sns_message` with its cache: which messages pass.
use mathlib.Core.List.{Memᴰ}
use mathlib.Core.List.Memᴰ.{head, tail}
use mathlib.Core.Option.{some_inj}
use qhook.Prelude.{
  ℕ, ◌≡◌, refl, sym, ◌⊎◌, inl, inr, true, none, some, String, [], ◌∷◌, Bool-cases, Option-cases,
  eq_iff,
}
use qhook.Prelude.Classes.{◌==◌, string_eq}
use qhook.Verify.{Bytes}
use qhook.Verify.Sns.{SnsMessage, is_valid_sns_url, build_sns_string_to_sign}
use qhook.Api.Http.{Libraries, passed, rejected, broken}
use qhook.Api.Http.Sns.{
  CertCache, SnsLibraries, is_within_ttl, get_cached_cert, verify_version, verify_with,
  verify_fetched, verify_sns_message,
}

-- A certificate of the cache is one that was put there under this URL, less than an hour ago.
get_cached_cert-IsFresh :
    (cache : CertCache) (now : ℕ) (url : String) (pem : Bytes)
    → get_cached_cert cache now url ≡ some pem
    → (ts : ℕ) × Memᴰ (url, (pem, ts)) cache × (is_within_ttl now ts ≡ true)
unfolding get_cached_cert
get_cached_cert-IsFresh [] now url pem h = cc
get_cached_cert-IsFresh ((u, (p, ts)) ∷ cache) now url pem h = elim (Bool-cases (u == url)) [
  | inl e ↦ elim (Bool-cases (is_within_ttl now ts)) [
    | inl f ↦
        (let it : p ≡ pem = some_inj.0 (rw (e, f) at h) in
          let named : url ≡ u = sym ((eq_iff u url).0 e) in (ts, rw (named, it) (head refl), f))
    | inr f ↦ (let no : none ≡ some pem = rw (e, f) at h in cc)
  ]
  | inr e ↦
      (let (ts', m, f) = get_cached_cert-IsFresh cache now url pem (rw e at h) in (ts', tail m, f))
]

module _ (lib : Libraries) (sns : SnsLibraries) where
  -- The verifier of the message's version accepts the signature.
  abbrev pub Signed : String → Bytes → Bytes → Bytes → Type 0
  Signed version key message sig =
      ((version ≡ "1") × (sns.verify_sha1 key message sig ≡ true))
      ⊎ ((version ≡ "2") × (sns.verify_sha256 key message sig ≡ true))

  version-Signed :
      (version : String) (key message sig : Bytes)
      → verify_version sns version key message sig ≡ passed
      → Signed version key message sig
  unfolding verify_version
  version-Signed version key message sig h = elim (Bool-cases (version == "1")) [
    | inl one ↦ elim (Bool-cases (sns.verify_sha1 key message sig)) [
      | inl k ↦ inl ((eq_iff version "1").0 one, k)
      | inr k ↦ (let no : rejected ≡ passed = rw (one, k) at h in cc)
    ]
    | inr one ↦ elim (Bool-cases (version == "2")) [
      | inl two ↦ elim (Bool-cases (sns.verify_sha256 key message sig)) [
        | inl k ↦ inr ((eq_iff version "2").0 two, k)
        | inr k ↦ (let no : rejected ≡ passed = rw (one, two, k) at h in cc)
      ]
      | inr two ↦ (let no : rejected ≡ passed = rw (one, two) at h in cc)
    ]
  ]

  -- The key of the certificate verifies the signature over the text to sign.
  abbrev pub Verifies : SnsMessage → Bytes → Type 0
  Verifies msg pem =
      (key : Bytes) × (sig : Bytes) × (sns.public_key pem ≡ some key)
      × (lib.crypto.decode msg.signature ≡ some sig)
      × Signed msg.signature_version key (lib.crypto.bytes (build_sns_string_to_sign msg)) sig

  verify_with-Verifies :
      (msg : SnsMessage) (pem : Bytes) → verify_with lib sns msg pem ≡ passed → Verifies msg pem
  unfolding verify_with
  verify_with-Verifies msg pem h = elim (Option-cases (sns.public_key pem)) [
    | inl e ↦ (let no : broken ≡ passed = rw (e, verify_with) at h in cc)
    | inr (key, e) ↦ elim (Option-cases (lib.crypto.decode msg.signature)) [
      | inl d ↦ (let no : broken ≡ passed = rw (e, d, verify_with) at h in cc)
      | inr (sig, d) ↦ elim (Bool-cases (sns.is_signature sig)) [
        | inl i ↦ (key, sig, e, d, version-Signed _ key _ sig (rw (e, d, i, verify_with) at h))
        | inr i ↦ (let no : broken ≡ passed = rw (e, d, i, verify_with) at h in cc)
      ]
    ]
  ]

  -- The URL of the certificate passes the check, the certificate was kept under this URL less than an
  -- hour ago or is fetched from it, and it verifies the signature.
  abbrev pub Genuine : CertCache → SnsMessage → Type 0
  Genuine cache msg =
      (is_valid_sns_url msg.signing_cert_url ≡ true)
      × (pem : Bytes) × (((ts : ℕ) × Memᴰ (msg.signing_cert_url, (pem, ts)) cache
            × (is_within_ttl sns.read_at ts ≡ true))
          ⊎ (sns.fetch msg.signing_cert_url ≡ some pem))
      × Verifies msg pem

  fetched-Verifies :
      (cache : CertCache) (msg : SnsMessage)
      → (verify_fetched lib sns cache msg (sns.fetch msg.signing_cert_url)).1 ≡ passed
      → (pem : Bytes) × (sns.fetch msg.signing_cert_url ≡ some pem) × Verifies msg pem
  unfolding verify_fetched
  fetched-Verifies cache msg h = elim (Option-cases (sns.fetch msg.signing_cert_url)) [
    | inl e ↦ (let no : broken ≡ passed = rw e at h in cc)
    | inr (pem, e) ↦ (pem, e, verify_with-Verifies msg pem (rw e at h))
  ]

  pub verify_sns_message-Genuine :
      (cache : CertCache) (msg : SnsMessage)
      → (verify_sns_message lib sns cache msg).1 ≡ passed
      → Genuine cache msg
  unfolding verify_sns_message
  verify_sns_message-Genuine cache msg h =
      elim (Bool-cases (is_valid_sns_url msg.signing_cert_url)) [
        | inl v ↦ elim (Option-cases (get_cached_cert cache sns.read_at msg.signing_cert_url)) [
          | inl c ↦
              (let (pem, f, k) = fetched-Verifies cache msg (rw (v, c) at h) in (v, pem, inr f, k))
          | inr (pem, c) ↦ (
            v,
            pem,
            inl (get_cached_cert-IsFresh cache sns.read_at msg.signing_cert_url pem c),
            verify_with-Verifies msg pem (rw (v, c) at h),
          )
        ]
        | inr v ↦ (let no : rejected ≡ passed = rw v at h in cc)
      ]
