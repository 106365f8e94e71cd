-- ===== src/Workflow/Handler.antt =====
-- src/queue.rs: the handler of a step's job, `workflow/step`, and its parts.
use Prim.Native.Char.{Char, code}
use Prim.Native.String.{◌∷◌ as ◌∷ᵗ◌, ◌++◌ as ◌++ᵗ◌}
use text.Mathlib.TextLemmas.{nil-append, cons-append}
use qhook.Prelude.{
  ℕ, zero, suc, ◌≡◌, refl, ◌∙◌, ap, Bool, true, false, List, [], ◌∷◌, String, nat_beq, arith,
  Bool-cases, inl, inr, if◌then◌else◌,
}
use qhook.Json.Path.{split}

-- `format!("{}/{}", workflow_name, step.name)`
abbrev pub handler_of : String → String → String
handler_of workflow step = workflow ++ᵗ "/" ++ᵗ step

-- `nth(i).unwrap_or("")`
abbrev pub part : ℕ → List String → String
part i [] = ""
part zero (p ∷ ps) = p
part (suc i) (p ∷ ps) = part i ps

-- `job.handler.split('/').next().unwrap_or("")`
unfoldable pub workflow_part : String → String
unfolding split
workflow_part handler = part 0 (split b'/' handler)

-- `job.handler.split('/').nth(1).unwrap_or("")`
unfoldable pub step_part : String → String
unfolding split
step_part handler = part 1 (split b'/' handler)

-- The character does not occur.
abbrev pub lacks : ℕ → String → Bool
lacks sep String.[] = true
lacks sep (String.◌∷◌ c s) = let rest = lacks sep s in if nat_beq (code c) sep then false else rest

split_lacking : (sep : ℕ) (s : String) → lacks sep s ≡ true → split sep s ≡ s ∷ []
unfolding split
split_lacking sep String.[] h = refl
split_lacking sep (String.◌∷◌ c s) h = elim (Bool-cases (nat_beq (code c) sep)) [
  | inl e ↦ ground arith
  | inr e ↦ (let h' : lacks sep s ≡ true = ground arith in rw (e, split_lacking sep s h') refl)
]

split_after :
    (sep : ℕ) (s rest : String)
    → lacks sep s ≡ true
    → (c : Char) → nat_beq (code c) sep ≡ true
    → split sep (s ++ᵗ (c ∷ᵗ rest)) ≡ s ∷ split sep rest
unfolding split
split_after sep String.[] rest h c k = rw (nil-append (c ∷ᵗ rest)) (ground arith)
split_after sep (String.◌∷◌ d s) rest h c k = elim (Bool-cases (nat_beq (code d) sep)) [
  | inl e ↦ ground arith
  | inr e ↦
      (let h' : lacks sep s ≡ true = ground arith in
        rw (cons-append d s (c ∷ᵗ rest), e, split_after sep s rest h' c k) refl)
]

slash : (workflow step : String) → handler_of workflow step ≡ workflow ++ᵗ ("/" ∷ᵗ step)
slash workflow step =
    ap (λ t. workflow ++ᵗ t) (cons-append "/" "" step ∙ ap (λ t. "/" ∷ᵗ t) (nil-append step))

-- A handler that is made of a workflow's name and a step's name gives both back, if neither has a
-- slash in it.
pub handler_parts :
    (workflow step : String)
    → lacks b'/' workflow ≡ true
    → lacks b'/' step ≡ true
    → (workflow_part (handler_of workflow step) ≡ workflow)
      × (step_part (handler_of workflow step) ≡ step)
unfolding workflow_part step_part
handler_parts workflow step h k =
    let e : split b'/' (handler_of workflow step) ≡ workflow ∷ step ∷ [] =
      ap (split b'/') (slash workflow step)
      ∙ split_after b'/' workflow step h "/" refl
      ∙ ap (λ ps. workflow ∷ ps) (split_lacking b'/' step k) in
    (ap (part 0) e, ap (part 1) e)
