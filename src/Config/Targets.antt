-- ===== src/Config/Targets.antt =====
-- src/config.rs and src/queue.rs: where the steps of a valid configuration can go.
use mathlib.Core.List.{Memᴰ}
use mathlib.Core.List.Memᴰ.{head, tail}
use qhook.Prelude.{
  ℕ, suc, ◌≡◌, refl, Bool, true, false, not, Option, none, some, String, List, [], ◌∷◌, arith,
  Bool-cases, Option-cases, inl, inr,
}
use qhook.Prelude.Classes.{◌==◌, string_eq}
use qhook.Sql.{exists_where}
use qhook.Workflow.{
  StepConfig, CatchConfig, ChoiceRule, WorkflowConfig, find_step_from, error_type_matches,
}
use qhook.Api.Filter.{evaluate_filter}
use qhook.Workflow.Engine.{Env}
use qhook.Workflow.Route.{choices_of, first_choice, goto_of}
use qhook.Workflow.Failure.{find_catch, catches}
use qhook.Config.{Config}
use qhook.Config.Validate.{
  ConfigError, Parsers, bail_if, ◌>>◌, for_each, list_or_empty, has_step, check_goto, check_choice,
  check_step, check_workflow, validate,
}

>>-none : (a b : Option ConfigError) → (a >> b) ≡ none → (a ≡ none) × (b ≡ none)
>>-none none b h = (refl, h)
>>-none (some e) b h = cc

for_each-none {ℓ} :
    {A : Type ℓ} (check : A → Option ConfigError) (as' : List A) {a : A}
    → for_each check as' ≡ none
    → Memᴰ a as'
    → check a ≡ none
unfolding for_each
for_each-none check [] h m = elim m [ ]
for_each-none check (a ∷ as') h (head e) = rw e ((>>-none (check a) (for_each check as') h).0)
for_each-none check (a ∷ as') h (tail m) =
    for_each-none check as' ((>>-none (check a) (for_each check as') h).1) m

bail-none : (b : Bool) (e : ConfigError) → bail_if (not b) e ≡ none → b ≡ true
bail-none true e h = refl
bail-none false e h = cc

-- A step of a name is found.
found_step :
    (goto : String) (i : ℕ) (steps : List StepConfig)
    → has_step goto steps ≡ true
    → (target : ℕ × StepConfig) × (find_step_from i goto steps ≡ some target)
unfolding exists_where find_step_from
found_step goto i [] h = cc
found_step goto i (s ∷ ss) h = elim (Bool-cases (s.name == goto)) [
  | inl e ↦ ((i, s), rw e refl)
  | inr e ↦
      (let rest : has_step goto ss ≡ true = rw e at h in
        let (target, found) = found_step goto (suc i) ss rest in (target, rw e found))
]

caught :
    (t : String) (cs : List CatchConfig) {c : CatchConfig} → find_catch t cs ≡ some c → Memᴰ c cs
unfolding find_catch
caught t [] h = cc
caught t (c ∷ cs) h = elim (Bool-cases (error_type_matches c.errors t)) [
  | inl e ↦ (let same : some c ≡ some _ = rw e at h in head (cc))
  | inr e ↦ (let rest : find_catch t cs ≡ some _ = rw e at h in tail (caught t cs rest))
]

chosen :
    (env : Env) (payload : String) (cs : List ChoiceRule) {goto : String}
    → first_choice env payload cs ≡ some goto
    → (c : ChoiceRule) × Memᴰ c cs × (c.goto ≡ goto)
unfolding first_choice
chosen env payload [] h = cc
chosen env payload (c ∷ cs) {goto} h =
    elim (Bool-cases (evaluate_filter env.serde env.matchers payload c.when)) [
      | inl e ↦ (let same : some c.goto ≡ some goto = rw e at h in (c, head refl, cc))
      | inr e ↦
          (let rest : first_choice env payload cs ≡ some goto = rw e at h in
            let (d, m, k) = chosen env payload cs rest in (d, tail m, k))
    ]

-- Where a step can send its run: to the target of a rule that catches an error, and, from a choice
-- step, to the target of a choice or to the default.
pub data GoesTo (env : Env) (step : StepConfig) (goto : String) : Type 0 where
  catching :
      (error_type : String) (c : CatchConfig)
      → find_catch error_type (catches (some step)) ≡ some c
      → c.goto ≡ goto
      → GoesTo env step goto
  choosing :
      (payload : String)
      → (step.handler_type == "choice") ≡ true
      → goto_of env step payload ≡ some goto
      → GoesTo env step goto

goto_checked :
    (name : String) (steps : List StepConfig) (goto : String)
    → check_goto name steps goto ≡ none
    → (target : ℕ × StepConfig) × (find_step_from 0 goto steps ≡ some target)
goto_checked name steps goto h = found_step goto 0 steps (bail-none (has_step goto steps) _ h)

catches_checked :
    (config : Config) (name : String) (steps : List StepConfig) (step : StepConfig)
    → check_step config name steps step ≡ none
    → for_each (λ c. check_goto name steps c.goto) (list_or_empty step.catch) ≡ none
unfolding check_step
catches_checked config name steps step h = ground arith

catch_checked :
    (name : String) (steps : List StepConfig) (error_type : String)
    (rules : Option (List CatchConfig)) (step : StepConfig) (c : CatchConfig)
    → for_each (λ d. check_goto name steps d.goto) (list_or_empty rules) ≡ none
    → step.catch ≡ rules
    → find_catch error_type (catches (some step)) ≡ some c
    → check_goto name steps c.goto ≡ none
unfolding find_catch
catch_checked name steps error_type none step c all e f =
    let none_found : find_catch error_type [] ≡ some c = rw e at f in cc
catch_checked name steps error_type (some cs) step c all e f =
    let found : find_catch error_type cs ≡ some c = rw e at f in
    for_each-none (λ d. check_goto name steps d.goto) cs all (caught error_type cs found)

choice_checked :
    (env : Env) (name payload : String) (steps : List StepConfig) (step : StepConfig)
    {goto : String}
    → check_choice name steps step ≡ none
    → goto_of env step payload ≡ some goto
    → check_goto name steps goto ≡ none
unfolding check_choice goto_of
choice_checked env name payload steps step {goto} h g =
    let cs = choices_of step.choices in
    elim (Option-cases (first_choice env payload cs)) [
      | inl e ↦ (let default : step.default ≡ some goto = rw e at g in ground arith)
      | inr (target, e) ↦
          (let (c, m, k) = chosen env payload cs e in
            let all : for_each (λ d. check_goto name steps d.goto) cs ≡ none = ground arith in
            let same : target ≡ goto = ground arith in
            let ok : check_goto name steps c.goto ≡ none =
              for_each-none (λ d. check_goto name steps d.goto) cs all m in
            rw (← same, ← k) ok)
    ]

module _ (parsers : Parsers) (config : Config) (valid : validate parsers config ≡ none) where
  workflow_checked :
      {name : String} {w : WorkflowConfig}
      → Memᴰ (name, w) config.workflows
      → check_workflow config (name, w) ≡ none
  unfolding validate
  workflow_checked m =
      let all : for_each (check_workflow config) config.workflows ≡ none = ground arith in
      for_each-none (check_workflow config) config.workflows all m

  step_checked :
      {name : String} {w : WorkflowConfig} {step : StepConfig}
      → Memᴰ (name, w) config.workflows
      → Memᴰ step w.steps
      → check_step config name w.steps step ≡ none
  unfolding check_workflow
  step_checked {name} {w} m k =
      let ok : check_workflow config (name, w) ≡ none = workflow_checked m in
      let all : for_each (check_step config name w.steps) w.steps ≡ none = ground arith in
      for_each-none (check_step config name w.steps) w.steps all k

  -- In a valid configuration, wherever a step of a workflow sends its run, be it by a rule that
  -- catches an error or by a choice, there is a step of the same workflow: routing does not fail for
  -- want of one.
  pub validate_goto :
      (env : Env) (goto : String) {name : String} {w : WorkflowConfig} {step : StepConfig}
      → Memᴰ (name, w) config.workflows
      → Memᴰ step w.steps
      → GoesTo env step goto
      → (target : ℕ × StepConfig) × (find_step_from 0 goto w.steps ≡ some target)
  validate_goto env goto {name} {w} {step} m k (catching error_type c f e) =
      let all = catches_checked config name w.steps step (step_checked m k) in
      let ok = catch_checked name w.steps error_type step.catch step c all refl f in
      goto_checked name w.steps goto (rw (← e) ok)
  validate_goto env goto {name} {w} {step} m k (choosing payload kind g) =
      let ok : check_choice name w.steps step ≡ none =
        unfold check_step in (let h = step_checked m k in ground arith) in
      goto_checked name w.steps goto (choice_checked env name payload w.steps step ok g)
