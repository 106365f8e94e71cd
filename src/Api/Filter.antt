-- ===== src/Api/Filter.antt =====
-- src/api.rs, `evaluate_filter`: the conditions of handlers and of choice steps.
use qhook.Prelude.{
  ℕ, zero, suc, ◌<◌, ◌≡◌, sym, ap, ◌∙◌, Bool, true, false, not, Option, none, some, String, List,
  [], ◌∷◌, arith, starts_with, if◌then◌else◌, Option-cases, inl, inr,
}
use qhook.Prelude.Classes.{◌==◌, string_eq}
use qhook.Text.{
  size, trim, trim_quotes, strip_prefix, strip_suffix, split_once, contains, ends_with, size-trim,
  size-strip_prefix,
}
use qhook.Json.{Value, null, bool, number, text, array, Serde, elements}
use qhook.Json.Path.{split, extract_json_path_value}

-- An `f64` as its 64 bits.
abbrev pub F64 : Type 0
F64 = ℕ

-- The texts of numbers as `f64`: `parse`, and the value of a number of JSON; the comparisons, which
-- are false of NaN; whether a number is zero. And `regex_lite`: whether a pattern is valid and
-- matches.
pub record Matchers : Type 0 where
  pub parse : String → Option F64
  pub as_f64 : String → Option F64
  pub ge : F64 → F64 → Bool
  pub le : F64 → F64 → Bool
  pub gt : F64 → F64 → Bool
  pub lt : F64 → F64 → Bool
  pub is_zero : F64 → Bool
  pub is_match : String → String → Bool

-- `n.to_string()` and `b.to_string()`
abbrev pub show_bool : Bool → String
show_bool true = "true"
show_bool false = "false"

module _ (serde : Serde) (matchers : Matchers) where
  abbrev compared : (F64 → F64 → Bool) → Option F64 → Option F64 → Bool
  compared cmp (some a) (some b) = cmp a b
  compared cmp _ _ = false

  abbrev number_of : Option Value → Option F64
  number_of (some (number n)) = matchers.as_f64 n
  number_of _ = none

  unfoldable pub compare_numeric : (F64 → F64 → Bool) → String → String → String → Bool
  compare_numeric cmp payload path expected =
      compared cmp (number_of (extract_json_path_value serde payload path))
        (matchers.parse expected)

  abbrev equals : String → Option Value → Bool
  equals expected (some (text s)) = s == expected
  equals expected (some (number n)) = n == expected
  equals expected (some (bool b)) = show_bool b == expected
  equals expected _ = false

  abbrev differs : String → Option Value → Bool
  differs expected (some (text s)) = not (s == expected)
  differs expected (some (number n)) = not (n == expected)
  differs expected (some (bool b)) = not (show_bool b == expected)
  differs expected _ = true

  abbrev is_element : String → Value → Bool
  is_element needle (text s) = s == needle
  is_element needle (number n) = n == needle
  is_element needle _ = false

  unfoldable pub any_element : String → List Value → Bool
  any_element needle [] = false
  any_element needle (v ∷ vs) = if is_element needle v then true else any_element needle vs

  abbrev holds_element : String → Option Value → Bool
  holds_element needle (some (text s)) = contains s needle
  holds_element needle (some (array vs)) = any_element needle (elements vs)
  holds_element needle _ = false

  -- A test of a text, false of anything else.
  abbrev of_text : (String → Bool) → Option Value → Bool
  of_text test (some (text s)) = test s
  of_text test _ = false

  unfoldable pub is_member : String → List String → Bool
  is_member s [] = false
  is_member s (v ∷ vs) = if trim_quotes (trim v) == s then true else is_member s vs

  abbrev member_of : List String → Option Value → Bool
  member_of values (some (text s)) = is_member s values
  member_of values (some (number n)) = is_member n values
  member_of values _ = false

  abbrev truthy : Option Value → Bool
  truthy none = false
  truthy (some null) = false
  truthy (some (bool b)) = b
  truthy (some (text s)) = not (s == "")
  truthy (some (number n)) = elim (matchers.as_f64 n) [
    | none ↦ false
    | some f ↦ not (matchers.is_zero f)
  ]
  truthy (some _) = true

  -- `if let Some((path, value)) = filter.split_once(op)`: a form of the filter with an operator.
  abbrev with_operator : String → String → (String → String → Bool) → Option Bool
  with_operator filter op test = elim (split_once op filter) [
    | none ↦ none
    | some parts ↦ some (test (trim parts.0) (trim parts.1))
  ]

  unfoldable exists_form : String → String → Option Bool
  exists_form payload filter = elim (strip_suffix " exists" filter) [
    | none ↦ none
    | some path ↦ elim (extract_json_path_value serde payload (trim path)) [
      | none ↦ some false
      | some v ↦ some true
    ]
  ]

  -- `strip_prefix('[')` and `strip_suffix(']')`
  abbrev bracketed : String → Option String
  bracketed s = elim (strip_prefix "[" s) [ none ↦ none | some rest ↦ strip_suffix "]" rest ]

  -- A set that stands in no brackets is no form.
  unfoldable in_form : String → String → Option Bool
  in_form payload filter = elim (split_once " in " filter) [
    | none ↦ none
    | some parts ↦ elim (bracketed (trim parts.1)) [
      | none ↦ none
      | some inner ↦
          some (member_of (split b',' inner) (extract_json_path_value serde payload (trim parts.0)))
    ]
  ]

  -- The first form that the filter has decides.
  abbrev first_form : List (Option Bool) → Bool → Bool
  first_form [] otherwise = otherwise
  first_form (some b ∷ forms) otherwise = b
  first_form (none ∷ forms) otherwise = first_form forms otherwise

  abbrev numeric : String → String → String → (F64 → F64 → Bool) → Option Bool
  numeric payload filter op cmp =
      with_operator filter op λ path value. compare_numeric cmp payload path (trim_quotes value)

  abbrev valued : String → String → String → (String → Option Value → Bool) → Option Bool
  valued payload filter op test =
      with_operator filter op
        λ path value. test (trim_quotes value) (extract_json_path_value serde payload path)

  -- A filter that is trimmed and has no `not`, in the order in which the forms are tried.
  unfoldable pub evaluate_form : String → String → Bool
  unfolding exists_form in_form
  evaluate_form payload filter =
      first_form
        (exists_form payload filter
          ∷ numeric payload filter ">=" matchers.ge
          ∷ numeric payload filter "<=" matchers.le
          ∷ numeric payload filter ">" matchers.gt
          ∷ numeric payload filter "<" matchers.lt
          ∷ valued payload filter "==" equals
          ∷ valued payload filter "!=" differs
          ∷ valued payload filter " contains " holds_element
          ∷ valued payload filter " starts_with " (λ prefix. of_text λ s. starts_with s prefix)
          ∷ valued payload filter " ends_with " (λ suffix. of_text λ s. ends_with s suffix)
          ∷ with_operator filter " matches " (λ path pattern.
            of_text (matchers.is_match pattern) (extract_json_path_value serde payload path))
          ∷ in_form payload filter
          ∷ [])
        (truthy (extract_json_path_value serde payload filter))

  abbrev negated : Option Bool → Option Bool
  negated none = none
  negated (some b) = some (not b)

  abbrev on_not : Bool → (String → Option Bool) → Option String → Option Bool
  on_not form evaluate none = some form
  on_not form evaluate (some inner) = negated (evaluate (trim inner))

  -- The recursion is on what follows a `not`; the first argument bounds it.
  unfoldable pub evaluate_within : ℕ → String → String → Option Bool
  unfolding evaluate_form
  evaluate_within zero payload filter = none
  evaluate_within (suc fuel) payload filter =
      on_not (evaluate_form payload (trim filter)) (λ inner. evaluate_within fuel payload inner)
        (strip_prefix "not " (trim filter))

  abbrev or_false : Option Bool → Bool
  or_false none = false
  or_false (some b) = b

  unfoldable pub evaluate_filter : String → String → Bool
  unfolding evaluate_within
  evaluate_filter payload filter = or_false (evaluate_within (suc (size filter)) payload filter)

  inner_smaller :
      (filter : String) {inner : String}
      → strip_prefix "not " (trim filter) ≡ some inner
      → size (trim inner) < size filter
  inner_smaller filter {inner} h =
      omega (arith, size-strip_prefix "not " (trim filter) h, size-trim inner, size-trim filter)

  within-plain :
      (n : ℕ) (payload filter : String)
      → strip_prefix "not " (trim filter) ≡ none
      → evaluate_within (suc n) payload filter ≡ some (evaluate_form payload (trim filter))
  unfolding evaluate_within
  within-plain n payload filter h =
      ap (on_not (evaluate_form payload (trim filter)) (λ inner. evaluate_within n payload inner)) h

  within-not :
      (n : ℕ) (payload filter : String) {inner : String} {b : Bool}
      → strip_prefix "not " (trim filter) ≡ some inner
      → evaluate_within n payload (trim inner) ≡ some b
      → evaluate_within (suc n) payload filter ≡ some (not b)
  unfolding evaluate_within
  within-not n payload filter h e =
      ap (on_not (evaluate_form payload (trim filter)) (λ inner. evaluate_within n payload inner)) h
      ∙ ap negated e

  -- Two bounds above the size of the filter give one answer.
  same_within :
      (n m : ℕ) (payload filter : String)
      → size filter < n
      → size filter < m
      → (b : Bool) × (evaluate_within n payload filter ≡ some b)
        × (evaluate_within m payload filter ≡ some b)
  unfolding evaluate_within
  same_within zero m payload filter h k = ground arith
  same_within (suc n) zero payload filter h k = ground arith
  same_within (suc n) (suc m) payload filter h k =
      elim (Option-cases (strip_prefix "not " (trim filter))) [
        | inl plain ↦ (
          evaluate_form payload (trim filter),
          within-plain n payload filter plain,
          within-plain m payload filter plain,
        )
        | inr (inner, negation) ↦
            (let less = inner_smaller filter negation in
              let (b, e, e') =
                same_within n m payload (trim inner) (omega (arith, less, h))
                  (omega (arith, less, k)) in
              (
                not b,
                within-not n payload filter negation e,
                within-not m payload filter negation e',
              ))
      ]

  abbrev pub negation_or_form : String → String → Option String → Bool
  negation_or_form payload filter none = evaluate_form payload (trim filter)
  negation_or_form payload filter (some inner) = not (evaluate_filter payload (trim inner))

  -- The evaluation of a filter ends, and it is what the program's recursion says: a filter that
  -- starts with `not` is true exactly if the rest is not, and any other is decided by its form.
  pub evaluate_filter-unrolled :
      (payload filter : String)
      → evaluate_filter payload filter
        ≡ negation_or_form payload filter (strip_prefix "not " (trim filter))
  unfolding evaluate_filter
  evaluate_filter-unrolled payload filter =
      elim (Option-cases (strip_prefix "not " (trim filter))) [
        | inl plain ↦
            ap or_false (within-plain (size filter) payload filter plain)
            ∙ sym (ap (negation_or_form payload filter) plain)
        | inr (inner, negation) ↦
            (let less = inner_smaller filter negation in
              let (b, e, e') =
                same_within (size filter) (suc (size (trim inner))) payload (trim inner) less
                  (omega arith) in
              ap or_false (within-not (size filter) payload filter negation e)
              ∙ ap not (sym (ap or_false e'))
              ∙ sym (ap (negation_or_form payload filter) negation))
      ]
