-- ===== src/Verify/Fresh.antt =====
-- src/verify.rs: the three providers whose tag is over a time too.
use Prim.Native.String.{◌++◌ as ◌++ᵗ◌}
use Prim.Native.Char.{code}
use mathlib.Core.List.{Memᴰ}
use mathlib.Core.List.Memᴰ.{head, tail}
use mathlib.Core.Option.{some_inj}
use qhook.Prelude.{
  ◌||◌, ℕ, ◌+◌, ◌<◌, ◌≤◌, ◌≡◌, refl, sym, ◌∙◌, ap, ◌⊎◌, inl, inr, Bool, true, false, not, Option,
  none, some, String, List, [], ◌∷◌, ◌++◌, arith, nat_beq, Bool-cases, eq_iff, ◌≢◌, ◌↔◌,
  Option-cases,
}
use qhook.Prelude.Classes.{◌==◌, string_eq}
use qhook.Text.{strip_prefix, strip_prefix-eq-some, strip_prefix-append}
use qhook.Json.Path.{split}
use qhook.Verify.{
  Bytes, Crypto, Headers, text_or_empty, digits, signed, parse_i64, is_stale, is_fresh, parts,
  check_timed, constant_time_eq, any_tag, webhook_tag, verify_signature,
}
use qhook.Verify.Tags.{IsEquality, compared}

-- A time is within five minutes of now, or it is the one number at the other end of the range whose
-- distance from now does not fit.
abbrev pub IsRecent : ℕ → Bool × ℕ → Type 0
IsRecent now (false, ts) = (now ≤ ts + 300) × (ts ≤ now + 300)
IsRecent now (true, ts) = (now + ts ≤ 300) ⊎ (now + ts ≡ 9223372036854775808)

signed_bound :
    (negative : Bool) (limit : ℕ) (o : Option ℕ) {ts : Bool × ℕ}
    → signed negative limit o ≡ some ts
    → limit ≤ 9223372036854775809
    → ts.1 < 9223372036854775809
signed_bound negative limit none h k = cc
signed_bound negative limit (some n) h k = ground arith

parse_i64_bound : (s : String) {ts : Bool × ℕ} → parse_i64 s ≡ some ts → ts.1 < 9223372036854775809
unfolding parse_i64
parse_i64_bound String.[] h = cc
parse_i64_bound (String.◌∷◌ c String.[]) h =
    signed_bound false 9223372036854775808 (digits 0 (String.◌∷◌ c String.[])) h (omega arith)
parse_i64_bound (String.◌∷◌ c (String.◌∷◌ d s)) h = elim (Bool-cases (nat_beq (code c) b'-')) [
  | inl e ↦
      signed_bound true 9223372036854775809 (digits 0 (String.◌∷◌ d s)) (rw e at h) (omega arith)
  | inr e ↦ elim (Bool-cases (nat_beq (code c) b'+')) [
    | inl f ↦
        signed_bound false 9223372036854775808 (digits 0 (String.◌∷◌ d s)) (rw (e, f) at h)
          (omega arith)
    | inr f ↦
        signed_bound false 9223372036854775808 (digits 0 (String.◌∷◌ c (String.◌∷◌ d s)))
          (rw (e, f) at h) (omega arith)
  ]
]

is_stale-IsRecent :
    (now : ℕ) (ts : Bool × ℕ)
    → now + 300 < 9223372036854775808
    → ts.1 < 9223372036854775809
    → is_stale now ts ≡ false
    → IsRecent now ts
unfolding is_stale
is_stale-IsRecent now (false, ts) small bound h = ground arith
is_stale-IsRecent now (true, ts) small bound h = ground arith

fresh_time :
    (now : ℕ) (time : String)
    → now + 300 < 9223372036854775808
    → is_fresh now (parse_i64 time) ≡ true
    → (ts : Bool × ℕ) × (parse_i64 time ≡ some ts) × IsRecent now ts
fresh_time now time small h = elim (Option-cases (parse_i64 time)) [
  | inl e ↦ (let no_time : false ≡ true = rw e at h in cc)
  | inr (ts, e) ↦
      (let good : not (is_stale now ts) ≡ true = rw e at h in
        let kept : is_stale now ts ≡ false = ground arith in
        (ts, e, is_stale-IsRecent now ts small (parse_i64_bound time e) kept))
]

IsRecent-is_stale : (now : ℕ) (ts : Bool × ℕ) → IsRecent now ts → is_stale now ts ≡ false
unfolding is_stale
IsRecent-is_stale now (false, ts) h = ground arith
IsRecent-is_stale now (true, ts) h = ground arith

parsed_nonempty : (time : String) {ts : Bool × ℕ} → parse_i64 time ≡ some ts → (time == "") ≡ false
unfolding parse_i64
parsed_nonempty time h = elim (Bool-cases (time == "")) [
  | inr e ↦ e
  | inl e ↦ (let empty : parse_i64 time ≡ none = ap parse_i64 ((eq_iff time "").0 e) in cc)
]

not_empty : (s : String) → s ≢ "" → (s == "") ≡ false
not_empty s full = elim (Bool-cases (s == "")) [
  | inl e ↦ absurd (full ((eq_iff s "").0 e))
  | inr e ↦ e
]

-- The providers, and what stands in their header.
pub data Timed : Type 0 where
  stripe paddle : Timed

abbrev pub name : Timed → String
name stripe = "stripe"
name paddle = "paddle"

abbrev pub separator : Timed → String
separator stripe = "."
separator paddle = ":"

-- The time and the tag: the last parts with their names.
abbrev pub fields : Timed → Headers → String × String
fields stripe headers =
    parts "t=" "v1=" (split b',' (text_or_empty (headers "Stripe-Signature"))) ("", "")
fields paddle headers =
    parts "ts=" "h1=" (split b';' (text_or_empty (headers "Paddle-Signature"))) ("", "")

-- The tag of a payload at a time.
abbrev pub timed_tag : Crypto → Timed → String → String → Bytes → String
timed_tag c p secret time payload =
    c.sha256_hex (c.bytes secret) (c.bytes time ++ (c.bytes (separator p) ++ payload))

module _ (c : Crypto) (equality : IsEquality c) where
  timed_sound :
      (p : Timed) (secret : String) (payload : Bytes) (now : ℕ) (time tag : String)
      → now + 300 < 9223372036854775808
      → check_timed c secret payload now (separator p) (time, tag) ≡ true
      → (ts : Bool × ℕ) × (parse_i64 time ≡ some ts)
        × IsRecent now ts
        × (tag ≡ timed_tag c p secret time payload)
        × (tag ≢ "")
  unfolding check_timed
  timed_sound p secret payload now time tag small h = elim (Bool-cases (time == "" || tag == "")) [
    | inl e ↦ (let no_match : false ≡ true = rw e at h in cc)
    | inr e ↦ elim (Bool-cases (is_fresh now (parse_i64 time))) [
      | inr f ↦ (let no_match : false ≡ true = rw (e, f) at h in cc)
      | inl f ↦
          (let (ts, parsed, recent) = fresh_time now time small f in
            let same =
              (compared c equality (timed_tag c p secret time payload) tag).0 (rw (e, f) at h) in
            (
              ts,
              parsed,
              recent,
              sym same,
              λ k. (let empty : (tag == "") ≡ true = (eq_iff tag "").1 k in ground arith),
            ))
    ]
  ]

  timed_complete :
      (p : Timed) (secret : String) (payload : Bytes) (now : ℕ) (time tag : String) {ts : Bool × ℕ}
      → parse_i64 time ≡ some ts
      → IsRecent now ts
      → tag ≡ timed_tag c p secret time payload
      → tag ≢ ""
      → check_timed c secret payload now (separator p) (time, tag) ≡ true
  unfolding check_timed
  timed_complete p secret payload now time tag {ts} parsed recent same full =
      let timed : (time == "") ≡ false = parsed_nonempty time parsed in
      let tagged : (tag == "") ≡ false = not_empty tag full in
      let fresh : is_stale now ts ≡ false = IsRecent-is_stale now ts recent in
      rw (timed, tagged, parsed, fresh) ((compared c equality _ tag).1 (sym same))

  -- If `ct_eq` decides equality and the clock is far from the end of its range, a request of Stripe or
  -- Paddle is accepted exactly if its time is a number, within five minutes of now or at the one place
  -- where the distance does not fit in 64 bits, and its tag is that of the time and the payload under
  -- the secret, and not empty.
  pub verify_signature_fresh :
      (p : Timed) (secret : String) (payload : Bytes) (headers : Headers) (now : ℕ)
      → now + 300 < 9223372036854775808
      → let (time, tag) = fields p headers in
        (verify_signature c (name p) secret payload headers now ≡ some true) ↔ (
          (ts : Bool × ℕ) × (parse_i64 time ≡ some ts)
          × IsRecent now ts
          × (tag ≡ timed_tag c p secret time payload)
          × (tag ≢ ""))
  unfolding verify_signature
  verify_signature_fresh stripe secret payload headers now small = (
    λ h. timed_sound stripe secret payload now _ _ small (some_inj.0 h),
    λ (ts, parsed, recent, same, full).
        ap some (timed_complete stripe secret payload now _ _ parsed recent same full),
  )
  verify_signature_fresh paddle secret payload headers now small = (
    λ h. timed_sound paddle secret payload now _ _ small (some_inj.0 h),
    λ (ts, parsed, recent, same, full).
        ap some (timed_complete paddle secret payload now _ _ parsed recent same full),
  )

  any_sound :
      (expected : String) (entries : List String)
      → any_tag c expected entries ≡ true
      → Memᴰ ("v1," ++ᵗ expected) entries
  unfolding any_tag
  any_sound expected [] h = cc
  any_sound expected (entry ∷ entries) h = elim (Option-cases (strip_prefix "v1," entry)) [
    | inl e ↦ tail (any_sound expected entries (ground arith))
    | inr (tag, e) ↦ elim (Bool-cases (constant_time_eq c expected tag)) [
      | inl f ↦
          (let same = (compared c equality expected tag).0 f in
            head (ap (λ t. "v1," ++ᵗ t) same ∙ sym (strip_prefix-eq-some "v1," entry e)))
      | inr f ↦ tail (any_sound expected entries (ground arith))
    ]
  ]

  any_complete :
      (expected : String) (entries : List String)
      → Memᴰ ("v1," ++ᵗ expected) entries
      → any_tag c expected entries ≡ true
  unfolding any_tag
  any_complete expected [] m = elim m [ ]
  any_complete expected (entry ∷ entries) (head e) =
      let stripped : strip_prefix "v1," entry ≡ some expected =
        rw (sym e) (strip_prefix-append "v1," expected) in
      let same = (compared c equality expected expected).1 refl in ground arith
  any_complete expected (entry ∷ entries) (tail m) =
      let later = any_complete expected entries m in
      elim (Option-cases (strip_prefix "v1," entry)) [
        | inl e ↦ ground arith
        | inr (tag, e) ↦ ground arith
      ]

  -- If `ct_eq` decides equality and the clock is far from the end of its range, a Standard Webhooks
  -- request is accepted exactly if it has an id and a signature, its time is a number, within five
  -- minutes of now or at the one place where the distance does not fit in 64 bits, and one of the
  -- entries of its signature is `v1,` with the tag of its id, its time and the payload.
  pub verify_standard_webhooks_accepts :
      (secret : String) (payload : Bytes) (headers : Headers) (now : ℕ)
      → now + 300 < 9223372036854775808
      → let id = text_or_empty (headers "webhook-id") in
        let time = text_or_empty (headers "webhook-timestamp") in
        let tags = text_or_empty (headers "webhook-signature") in
        (verify_signature c "standard-webhooks" secret payload headers now ≡ some true) ↔ (
          (id ≢ "")
          × (tags ≢ "")
          × (ts : Bool × ℕ) × (parse_i64 time ≡ some ts)
          × IsRecent now ts
          × Memᴰ ("v1," ++ᵗ webhook_tag c secret id time payload) (split b' ' tags))
  unfolding verify_signature
  verify_standard_webhooks_accepts secret payload headers now small =
      let id = text_or_empty (headers "webhook-id") in
      let time = text_or_empty (headers "webhook-timestamp") in
      let tags = text_or_empty (headers "webhook-signature") in
      (
        λ h.
            (let accepted = some_inj.0 h in
              elim (Bool-cases (id == "" || time == "" || tags == "")) [
                | inl e ↦ (let no_match : false ≡ true = rw e at accepted in cc)
                | inr e ↦ elim (Bool-cases (is_fresh now (parse_i64 time))) [
                  | inr f ↦ (let no_match : false ≡ true = rw (e, f) at accepted in cc)
                  | inl f ↦
                      (let (ts, parsed, recent) = fresh_time now time small f in
                        let listed =
                          any_sound (webhook_tag c secret id time payload) (split b' ' tags)
                            (rw (e, f) at accepted) in
                        (
                          λ k. (let empty : (id == "") ≡ true = (eq_iff id "").1 k in ground arith),
                          λ k.
                              (let empty : (tags == "") ≡ true = (eq_iff tags "").1 k in
                                ground arith),
                          ts,
                          parsed,
                          recent,
                          listed,
                        ))
                ]
              ]),
        λ (named, signed, ts, parsed, recent, listed). ap some (
            rw
              (
                not_empty id named,
                parsed_nonempty time parsed,
                not_empty tags signed,
                parsed,
                IsRecent-is_stale now ts recent,
              )
              (any_complete (webhook_tag c secret id time payload) (split b' ' tags) listed)),
      )
