-- ===== src/Verify/Sns.antt =====
-- src/verify.rs: the certificate URL and the text to sign of an SNS message.
use Prim.Native.Char.{code}
use Prim.Native.String.{◌++◌ as ◌++ᵗ◌}
use package.text.Mathlib.TextLemmas.{nil-append, cons-append, append_assoc}
use qhook.Prelude.{
  ℕ, zero, suc, ◌+◌, ◌-◌, ◌≡◌, refl, sym, ◌∙◌, ap, Bool, true, false, ◌&&◌, ◌||◌, Option, none,
  some, String, List, [], ◌∷◌, ◌++◌, length, length-append, leb, nat_beq, arith, Bool-cases, inl,
  inr, if◌then◌else◌,
}
use qhook.Prelude.Classes.{◌==◌, string_eq}
use qhook.Text.{strip_prefix, strip_prefix-append, split_once, is_found}
use qhook.Json.Path.{split}

pub record SnsMessage : Type 0 where
  pub message_type : String
  pub message_id : String
  pub message : String
  pub timestamp : String
  pub topic_arn : String
  pub signature : String
  pub signing_cert_url : String
  pub signature_version : String
  pub subject : Option String
  pub subscribe_url : Option String
  pub token : Option String
  pub unsubscribe_url : Option String

unfoldable pub get_elem? : List String → ℕ → Option String
get_elem? [] i = none
get_elem? (p ∷ ps) zero = some p
get_elem? (p ∷ ps) (suc i) = get_elem? ps i

abbrev is_part : String → Option String → Bool
is_part name none = false
is_part name (some p) = p == name

-- At least three parts, of which the last two are these.
unfoldable pub is_amazon : List String → Bool
unfolding get_elem?
is_amazon parts =
    leb 3 (length parts)
    && is_part "com" (get_elem? parts (length parts - 1))
    && is_part "amazonaws" (get_elem? parts (length parts - 2))

-- What stands ahead of the first slash.
abbrev host_is_amazon : Option (String × String) → Bool
host_is_amazon none = false
host_is_amazon (some (host, path)) = is_amazon (split b'.' host)

abbrev rest_is_amazon : Option String → Bool
rest_is_amazon none = false
rest_is_amazon (some rest) = host_is_amazon (split_once "/" rest)

unfoldable pub is_valid_sns_url : String → Bool
unfolding is_amazon split split_once strip_prefix
is_valid_sns_url url =
    if is_found (strip_prefix "https://sns." url)
    then rest_is_amazon (strip_prefix "https://" url)
    else false

-- A name and a value, each with a line break behind it.
abbrev line : String → String → String
line name value = name ++ᵗ ("\n" ++ᵗ (value ++ᵗ "\n"))

abbrev line_if : String → Option String → String
line_if name none = ""
line_if name (some value) = line name value

unfoldable pub build_sns_string_to_sign : SnsMessage → String
build_sns_string_to_sign m =
    if m.message_type == "Notification"
    then line "Message" m.message
      ++ᵗ (line "MessageId" m.message_id
          ++ᵗ (line_if "Subject" m.subject
              ++ᵗ (line "Timestamp" m.timestamp
                  ++ᵗ (line "TopicArn" m.topic_arn ++ᵗ line "Type" m.message_type))))
    else if m.message_type == "SubscriptionConfirmation"
        || m.message_type == "UnsubscribeConfirmation"
    then line "Message" m.message
      ++ᵗ (line "MessageId" m.message_id
          ++ᵗ (line_if "SubscribeURL" m.subscribe_url
              ++ᵗ (line "Timestamp" m.timestamp
                  ++ᵗ (line_if "Token" m.token
                      ++ᵗ (line "TopicArn" m.topic_arn ++ᵗ line "Type" m.message_type)))))
    else ""

-- A text with no slash.
abbrev pub has_slash : String → Bool
has_slash String.[] = false
has_slash (String.◌∷◌ c s) = let rest = has_slash s in if nat_beq (code c) b'/' then true else rest

-- The first slash behind a text without one.
split_at_slash :
    (s t : String) → has_slash s ≡ false → split_once "/" (s ++ᵗ ("/" ++ᵗ t)) ≡ some (s, t)
unfolding split_once strip_prefix
split_at_slash String.[] t h = rw (nil-append, cons-append, nil-append) refl
split_at_slash (String.◌∷◌ c s) t h = elim (Bool-cases (nat_beq (code c) b'/')) [
  | inl e ↦ (let no_match : true ≡ false = rw e at h in cc)
  | inr e ↦
      (let rest : has_slash s ≡ false = rw e at h in
        rw (cons-append c s ("/" ++ᵗ t), split_at_slash s t rest) (ground arith))
]

has_slash-append : (s t : String) → has_slash (s ++ᵗ t) ≡ has_slash s || has_slash t
has_slash-append String.[] t = rw (nil-append t) refl
has_slash-append (String.◌∷◌ c s) t = rw (cons-append c s t, has_slash-append s t) (ground arith)

split_nonempty : (s : String) → (p : String) × (ps : List String) × (split b'.' s ≡ p ∷ ps)
unfolding split
split_nonempty String.[] = ("", [], refl)
split_nonempty (String.◌∷◌ c s) =
    let (p, ps, e) = split_nonempty s in
    elim (Bool-cases (nat_beq (code c) b'.')) [
      | inl f ↦ ("", split b'.' s, rw f refl)
      | inr f ↦ (String.◌∷◌ c p, ps, rw (f, e) refl)
    ]

abbrev amazon : List String
amazon = "amazonaws" ∷ "com" ∷ []

split-append : (s : String) → split b'.' (s ++ᵗ ".amazonaws.com") ≡ split b'.' s ++ amazon
unfolding split
split-append String.[] = refl
split-append (String.◌∷◌ c s) =
    let (p, ps, e) = split_nonempty s in
    elim (Bool-cases (nat_beq (code c) b'.')) [
      | inl f ↦ rw (cons-append c s ".amazonaws.com", f, split-append s) refl
      | inr f ↦ rw (cons-append c s ".amazonaws.com", f, split-append s, e) refl
    ]

get_elem?-append :
    (xs ys : List String) (i : ℕ) → get_elem? (xs ++ ys) (length xs + i) ≡ get_elem? ys i
unfolding get_elem?
get_elem?-append [] ys i = ap (get_elem? ys) (omega arith)
get_elem?-append (x ∷ xs) ys i =
    let next : length (x ∷ xs) + i ≡ suc (length xs + i) = omega arith in
    rw next (get_elem?-append xs ys i)

is_amazon_behind : (x : String) (xs : List String) → is_amazon ((x ∷ xs) ++ amazon) ≡ true
unfolding is_amazon
is_amazon_behind x xs =
    let n : length ((x ∷ xs) ++ amazon) ≡ length (x ∷ xs) + 2 = length-append (x ∷ xs) amazon in
    let last : length (x ∷ xs) + 2 - 1 ≡ length (x ∷ xs) + 1 = omega arith in
    let previous : length (x ∷ xs) + 2 - 2 ≡ length (x ∷ xs) + 0 = omega arith in
    let long : leb 3 (length (x ∷ xs) + 2) ≡ true = ground arith in
    let final : get_elem? ((x ∷ xs) ++ amazon) (length (x ∷ xs) + 1) ≡ some "com" =
      get_elem?-append (x ∷ xs) amazon 1 in
    let second : get_elem? ((x ∷ xs) ++ amazon) (length (x ∷ xs) + 0) ≡ some "amazonaws" =
      get_elem?-append (x ∷ xs) amazon 0 in
    rw (n, last, previous, long, final, second) refl

host : String → String
host m = ("sns." ++ᵗ m) ++ᵗ ".amazonaws.com"

-- A URL is accepted if it starts with `https://sns.`, goes on with any text that has no slash in it,
-- and then with `.amazonaws.com/` and anything.
pub is_valid_sns_url_any_host :
    (m rest : String)
    → has_slash m ≡ false
    → is_valid_sns_url ("https://sns." ++ᵗ (m ++ᵗ (".amazonaws.com/" ++ᵗ rest))) ≡ true
unfolding is_valid_sns_url host
is_valid_sns_url_any_host m rest h =
    let url = "https://sns." ++ᵗ (m ++ᵗ (".amazonaws.com/" ++ᵗ rest)) in
    let cut : url ≡ "https://" ++ᵗ (host m ++ᵗ ("/" ++ᵗ rest)) =
      append_assoc "https://" "sns." (m ++ᵗ (".amazonaws.com/" ++ᵗ rest))
      ∙ ap (λ s. "https://" ++ᵗ s)
          (sym (append_assoc "sns." m (".amazonaws.com/" ++ᵗ rest))
            ∙ ap (λ s. ("sns." ++ᵗ m) ++ᵗ s) (append_assoc ".amazonaws.com" "/" rest)
            ∙ sym (append_assoc ("sns." ++ᵗ m) ".amazonaws.com" ("/" ++ᵗ rest))) in
    let stripped : strip_prefix "https://" url ≡ some (host m ++ᵗ ("/" ++ᵗ rest)) =
      rw cut (strip_prefix-append "https://" (host m ++ᵗ ("/" ++ᵗ rest))) in
    let no_slash : has_slash (host m) ≡ false =
      rw (has_slash-append ("sns." ++ᵗ m) ".amazonaws.com", has_slash-append "sns." m, h) refl in
    let (p, ps, parts) = split_nonempty ("sns." ++ᵗ m) in
    rw
      (
        strip_prefix-append "https://sns." (m ++ᵗ (".amazonaws.com/" ++ᵗ rest)),
        stripped,
        split_at_slash (host m) rest no_slash,
        split-append ("sns." ++ᵗ m),
        parts,
        is_amazon_behind p ps,
      )
      refl
