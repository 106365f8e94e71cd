-- ===== src/Workflow/Named.antt =====
-- src/queue.rs, `iter().enumerate().find(..)` over the steps: the first step of a name.
use mathlib.Core.Option.{some_inj}
use qhook.Prelude.{
  ℕ, suc, ◌+◌, ◌≡◌, ◌≢◌, refl, ap, ◌∙◌, true, false, none, some, String, List, [], ◌∷◌, ◌++◌, All,
  length, arith, Bool-cases, inl, inr, eq_iff,
}
use qhook.Prelude.Classes.{◌==◌, string_eq}
use qhook.Workflow.{StepConfig, find_step_from}

-- The first step of a name, with its index.
abbrev pub NotNamed : String → List StepConfig → Type 0
NotNamed name = All (λ t. t.name ≢ name)

abbrev pub FirstNamed : String → List StepConfig → ℕ → StepConfig → Type 0
FirstNamed name steps i target =
    (before : List StepConfig) × (after : List StepConfig) × (steps ≡ before ++ target ∷ after)
    × (length before ≡ i)
    × (target.name ≡ name)
    × NotNamed name before

other_name : (name : String) (t : StepConfig) → (t.name == name) ≡ false → t.name ≢ name
other_name name t h e = (let same : (t.name == name) ≡ true = (eq_iff t.name name).1 e in cc)

pub find_step_from-NotNamed :
    (n : ℕ) (name : String) (steps : List StepConfig)
    → find_step_from n name steps ≡ none
    → NotNamed name steps
unfolding find_step_from
find_step_from-NotNamed n name [] h = tt
find_step_from-NotNamed n name (t ∷ ts) h = elim (Bool-cases (t.name == name)) [
  | inl e ↦ (let no : some (n, t) ≡ none = rw (e, find_step_from) at h in cc)
  | inr e ↦
      (other_name name t e, find_step_from-NotNamed (suc n) name ts (rw (e, find_step_from) at h))
]

named_from :
    (n : ℕ) (name : String) (steps : List StepConfig) {i : ℕ} {target : StepConfig}
    → find_step_from n name steps ≡ some (i, target)
    → (j : ℕ) × (n + j ≡ i) × FirstNamed name steps j target
unfolding find_step_from
named_from n name [] h = cc
named_from n name (t ∷ ts) {i} {target} h = elim (Bool-cases (t.name == name)) [
  | inl e ↦
      (let it : (n, t) ≡ (i, target) = some_inj.0 (rw (e, find_step_from) at h) in
        let same : t ≡ target = ap (λ p. p.1) it in
        let index : n ≡ i = ap (λ p. p.0) it in
        (
          0,
          (let z : n + 0 ≡ n = omega arith in z ∙ index),
          ([], ts, ap (λ y. y ∷ ts) same, refl, rw same at ((eq_iff t.name name).0 e), tt),
        ))
  | inr e ↦
      (let (j, index, (before, after, all', len, named, others)) =
          named_from (suc n) name ts (rw (e, find_step_from) at h) in
        (
          suc j,
          (let z : n + suc j ≡ suc n + j = omega arith in z ∙ index),
          (
            t ∷ before,
            after,
            ap (λ l. t ∷ l) all',
            ap suc len,
            named,
            (other_name name t e, others),
          ),
        ))
]

pub find_step_from-FirstNamed :
    (name : String) (steps : List StepConfig) {i : ℕ} {target : StepConfig}
    → find_step_from 0 name steps ≡ some (i, target)
    → FirstNamed name steps i target
find_step_from-FirstNamed name steps {i} {target} h =
    let (j, index, (before, after, all', len, named, others)) = named_from 0 name steps h in
    (before, after, all', len ∙ (let z : j ≡ 0 + j = omega arith in z ∙ index), named, others)
