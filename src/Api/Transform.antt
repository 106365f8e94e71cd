-- ===== src/Api/Transform.antt =====
-- src/api.rs, `apply_transform`: a template with the values of a payload.
use Prim.Native.Char.{code}
use Prim.Native.String.{◌++◌ as ◌++ᵗ◌}
use package.text.Mathlib.TextLemmas.{nil-append, cons-append}
use qhook.Prelude.{
  ℕ, zero, suc, ◌+◌, ◌<◌, ◌≡◌, refl, ap, ◌∙◌, Option, none, some, String, arith, nat_beq,
  if◌then◌else◌, Bool-cases, Option-cases, inl, inr,
}
use qhook.Prelude.Classes.{string_eq}
use qhook.Text.{strip_prefix, split_once, trim}
use qhook.Json.{Value, null, bool, number, text, array, object, Serde}
use qhook.Json.Path.{resolve_path, drop_text}
use qhook.Api.Filter.{show_bool}

-- `s[..s.len() - 1]`
abbrev pub drop_last : String → String
drop_last String.[] = String.[]
drop_last (String.◌∷◌ c String.[]) = String.[]
drop_last (String.◌∷◌ c (String.◌∷◌ d s)) = String.◌∷◌ c (drop_last (String.◌∷◌ d s))

module _ (serde : Serde) where
  -- A text is escaped, without its quotes.
  unfoldable pub replacement : Option Value → String
  replacement none = "null"
  replacement (some null) = "null"
  replacement (some (bool b)) = show_bool b
  replacement (some (number n)) = n
  replacement (some (text s)) = drop_last (drop_text 1 (serde.to_string (text s)))
  replacement (some (object fs)) = serde.to_string (object fs)
  replacement (some (array vs)) = serde.to_string (array vs)

  -- The first placeholder: what stands ahead of it, its path, and what stands behind it.
  abbrev close : String → Option (String × String) → Option (String × String × String)
  close ahead none = none
  close ahead (some (path, behind)) = some (ahead, path, behind)

  abbrev open_at : Option (String × String) → Option (String × String × String)
  open_at none = none
  open_at (some (ahead, rest)) = close ahead (split_once "}}" rest)

  unfoldable pub placeholder : String → Option (String × String × String)
  placeholder template = open_at (split_once "{{" template)

  unfoldable pub fill : Value → String × String × String → String
  fill json (ahead, path, behind) =
      ahead ++ᵗ (replacement (resolve_path json (trim path)) ++ᵗ behind)

  -- The loop: the first argument bounds how often it runs.
  unfoldable pub fill_within : ℕ → Value → String → Option String
  unfolding placeholder fill
  fill_within zero json template = none
  fill_within (suc fuel) json template = elim (placeholder template) [
    | none ↦ some template
    | some found ↦ fill_within fuel json (fill json found)
  ]

  -- A payload that is no JSON is returned as it is.
  unfoldable pub apply_transform_within : ℕ → String → String → Option String
  unfolding fill_within
  apply_transform_within fuel payload template = elim (serde.from_str payload) [
    | none ↦ some payload
    | some json ↦ fill_within fuel json template
  ]

  fill_again :
      (fuel : ℕ) (json : Value) (template : String) {found : String × String × String}
      → placeholder template ≡ some found
      → fill json found ≡ template
      → fill_within fuel json template ≡ none
  unfolding fill_within
  fill_again zero json template h again = refl
  fill_again (suc fuel) json template h again =
      rw (h, fill_within) (ap (fill_within fuel json) again ∙ fill_again fuel json template h again)

  -- If what stands in the place of a template's first placeholder gives the template again, as a
  -- text of the payload that holds the placeholder itself does, then the loop never ends.
  pub apply_transform_loops :
      (fuel : ℕ) (payload template : String) {json : Value} {found : String × String × String}
      → serde.from_str payload ≡ some json
      → placeholder template ≡ some found
      → fill json found ≡ template
      → apply_transform_within fuel payload template ≡ none
  unfolding apply_transform_within
  apply_transform_loops fuel payload template {json} parsed h again =
      rw (parsed, apply_transform_within) (fill_again fuel json template h again)

-- How many opening braces a text has.
abbrev pub braces : String → ℕ
braces String.[] = 0
braces (String.◌∷◌ c s) = let n = braces s in if nat_beq (code c) b'{' then suc n else n

braces-append : (s t : String) → braces (s ++ᵗ t) ≡ braces s + braces t
braces-append String.[] t = rw (nil-append t) (omega arith)
braces-append (String.◌∷◌ c s) t =
    rw (cons-append c s t) (elim (Bool-cases (nat_beq (code c) b'{')) [
      | inl e ↦ rw e (omega (arith, braces-append s t))
      | inr e ↦ rw e (braces-append s t)
    ])

braces-strip_prefix :
    (p s : String) {rest : String}
    → strip_prefix p s ≡ some rest
    → braces s ≡ braces p + braces rest
unfolding strip_prefix
braces-strip_prefix String.[] s h = ground arith
braces-strip_prefix (String.◌∷◌ c p) String.[] h = cc
braces-strip_prefix (String.◌∷◌ c p) (String.◌∷◌ d s) {rest} h =
    elim (Bool-cases (nat_beq (code c) (code d))) [
      | inl e ↦
          (let h' : strip_prefix p s ≡ some rest = ground arith in
            ground (arith, braces-strip_prefix p s h'))
      | inr e ↦ ground arith
    ]

-- A text that is split has the braces of its parts and of the separator.
braces-split_once :
    (p s : String) {ahead behind : String}
    → split_once p s ≡ some (ahead, behind)
    → braces s ≡ braces ahead + (braces p + braces behind)
unfolding split_once
braces-split_once p String.[] {ahead} {behind} h = elim (Option-cases (strip_prefix p "")) [
  | inl other ↦ ground arith
  | inr (rest, here) ↦
      (let same : (ahead ≡ "") × (behind ≡ rest) = ground arith in
        rw (same.0, same.1) (ground (arith, braces-strip_prefix p "" here)))
]
braces-split_once p (String.◌∷◌ c s) {ahead} {behind} h =
    elim (Option-cases (strip_prefix p (String.◌∷◌ c s))) [
      | inl other ↦ elim (Option-cases (split_once p s)) [
        | inl never ↦ ground arith
        | inr ((a, b), later) ↦
            (let same : (ahead ≡ String.◌∷◌ c a) × (behind ≡ b) = ground arith in
              rw (same.0, same.1) (ground (arith, braces-split_once p s later)))
      ]
      | inr (rest, here) ↦
          (let same : (ahead ≡ "") × (behind ≡ rest) = ground arith in
            rw (same.0, same.1) (omega (arith, braces-strip_prefix p (String.◌∷◌ c s) here)))
    ]

module _ (serde : Serde) (json : Value) where
  -- No value that stands in the place of a path has an opening brace.
  abbrev pub IsPlain : Type 0
  IsPlain = (path : String) → braces (replacement serde (resolve_path json path)) ≡ 0

  -- The parts of a template around its first placeholder have the braces of the whole.
  placeholder-braces :
      (template ahead path behind : String)
      → placeholder serde template ≡ some (ahead, path, behind)
      → braces template ≡ braces ahead + (2 + (braces path + braces behind))
  unfolding placeholder
  placeholder-braces template ahead path behind h = elim (Option-cases (split_once "{{" template)) [
    | inl none_there ↦ ground arith
    | inr ((a, rest), opened) ↦ elim (Option-cases (split_once "}}" rest)) [
      | inl not_closed ↦ ground arith
      | inr ((p, b), closed) ↦
          (let same : (ahead ≡ a) × (path ≡ p) × (behind ≡ b) = ground arith in
            rw (same.0, same.1, same.2)
              (omega (
                arith,
                braces-split_once "{{" template opened,
                braces-split_once "}}" rest closed,
              )))
    ]
  ]

  -- A round takes the braces of a placeholder away.
  fill-braces :
      (template ahead path behind : String)
      → IsPlain
      → placeholder serde template ≡ some (ahead, path, behind)
      → braces (fill serde json (ahead, path, behind)) < braces template
  unfolding fill
  fill-braces template ahead path behind plain h =
      let r = replacement serde (resolve_path json (trim path)) in
      omega (
        arith,
        placeholder-braces template ahead path behind h,
        plain (trim path),
        braces-append ahead (r ++ᵗ behind),
        braces-append r behind,
      )

  fill_enough :
      (fuel : ℕ) (template : String)
      → IsPlain
      → braces template < fuel
      → (filled : String) × (fill_within serde fuel json template ≡ some filled)
  unfolding fill_within
  fill_enough zero template plain h = ground arith
  fill_enough (suc fuel) template plain h = elim (Option-cases (placeholder serde template)) [
    | inl done ↦ rw (done, fill_within) (template, refl)
    | inr ((ahead, path, behind), found) ↦
        (let rest =
            fill_enough fuel (fill serde json (ahead, path, behind)) plain
              (omega (arith, fill-braces template ahead path behind plain found, h)) in
          rw (found, fill_within) rest)
  ]

  -- If no value that a path of the payload gives has an opening brace, then a template is filled in
  -- at most one round more than it has opening braces.
  pub apply_transform_ends :
      (payload template : String)
      → serde.from_str payload ≡ some json
      → IsPlain
      → (filled : String) × (apply_transform_within serde (suc (braces template)) payload template
          ≡ some filled)
  unfolding apply_transform_within
  apply_transform_ends payload template parsed plain =
      rw (parsed, apply_transform_within)
        (fill_enough (suc (braces template)) template plain (omega arith))
