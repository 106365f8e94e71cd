-- ===== src/Workflow/Output.antt =====
-- src/queue.rs, `merge_result_path` and the `output` of a step: what a step hands on, case by case.
use qhook.Prelude.{
  ◌≡◌, ◌≢◌, true, false, Option, none, some, String, starts_with, Bool-cases, inl, inr, eq_iff,
}
use qhook.Prelude.Classes.{◌==◌, string_eq}
use qhook.Json.{Value, null, object, no_entries, Serde, set_field}
use qhook.Json.Path.{drop_text}
use qhook.Json.Merge.{merge_field, merge_result_path}
use qhook.Workflow.{StepConfig}
use qhook.Workflow.Engine.{Env}
use qhook.Workflow.Rows.{filled}
use qhook.Workflow.Success.{output_payload}

-- A text as a value: `none` is what is no JSON.
abbrev pub parsed_or : Value → Option Value → Value
parsed_or v none = v
parsed_or v (some w) = w

-- The input with the response at a field, if the input is an object, and the input otherwise.
abbrev pub with_field : String → Value → Value → Value
with_field f response (object fs) = object (set_field f response fs)
with_field f response v = v

-- What a step with the given `result_path` makes of its input and its response.
pub data Merged (serde : Serde) (input response : String) : Option String → String → Type 0 where
  no_path : Merged serde input response none response
  root : Merged serde input response (some "$") response
  discarded : Merged serde input response (some "null") input
  at_field :
      (path : String)
      → starts_with path "$." ≡ true
      → Merged serde input response (some path) (
          serde.to_string (
            with_field
              (drop_text 2 path)
              (parsed_or null (serde.from_str response))
              (parsed_or (object no_entries) (serde.from_str input))))
  elsewhere :
      (path : String)
      → path ≢ "$"
      → path ≢ "null"
      → starts_with path "$." ≡ false
      → Merged serde input response (some path) response

-- What the step of a row hands on: with no step the response, and otherwise the merged text through
-- the step's template.
pub data Output (env : Env) (input response : String) : Option StepConfig → String → Type 0 where
  unknown : Output env input response none response
  handed_on :
      (step : StepConfig) (text : String)
      → Merged env.serde input response step.result_path text
      → Output env input response (some step) (filled env step.output text)

path-Merged :
    (serde : Serde) (input response path : String)
    → Merged serde input response (some path) (merge_result_path serde input response (some path))
unfolding merge_result_path merge_field
path-Merged serde input response path = elim (Bool-cases (path == "$")) [
  | inl r ↦ rw ((eq_iff path "$").0 r) root
  | inr r ↦ elim (Bool-cases (path == "null")) [
    | inl n ↦ rw ((eq_iff path "null").0 n) discarded
    | inr n ↦ elim (Bool-cases (starts_with path "$.")) [
      | inl f ↦ rw (r, n, f) (at_field path f)
      | inr f ↦
          rw (r, n, f)
            (elsewhere path (λ e. (let yes : (path == "$") ≡ true = (eq_iff path "$").1 e in cc))
              (λ e. (let yes : (path == "null") ≡ true = (eq_iff path "null").1 e in cc)) f)
    ]
  ]
]

result-Merged :
    (serde : Serde) (input response : String) (path : Option String)
    → Merged serde input response path (merge_result_path serde input response path)
unfolding merge_result_path
result-Merged serde input response none = no_path
result-Merged serde input response (some path) = path-Merged serde input response path

pub output_payload-Output :
    (env : Env) (step : Option StepConfig) (input response : String)
    → Output env input response step (output_payload env step input response)
unfolding output_payload
output_payload-Output env none input response = unknown
output_payload-Output env (some step) input response =
    handed_on step _ (result-Merged env.serde input response step.result_path)
