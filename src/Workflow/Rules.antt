-- ===== src/Workflow/Rules.antt =====
-- src/queue.rs and src/config.rs: which errors a step retries and which rule catches one, described
-- without the tests of the code.
use mathlib.Core.List.{Memᴰ}
use mathlib.Core.List.Memᴰ.{head, tail}
use mathlib.Core.Option.{some_inj}
use qhook.Prelude.{
  ◌≡◌, refl, sym, ap, ◌⊎◌, inl, inr, ◌↔◌, true, false, Option, none, some, String, List, [], ◌∷◌,
  ◌++◌, All, Bool-cases, eq_iff,
}
use qhook.Prelude.Classes.{string_eq}
use qhook.Workflow.{
  StepConfig, StepRetryConfig, CatchConfig, OnFailure, stop, ErrorType, all, timeout, http_5xx,
  http_4xx, network, is_of_type, error_type_matches,
}
use qhook.Workflow.Failure.{retries, should_retry, find_catch}

-- The error that a type names; `all` names none, but admits every one.
abbrev error_of : ErrorType → Option String
error_of timeout = some "timeout"
error_of http_5xx = some "5xx"
error_of http_4xx = some "4xx"
error_of network = some "network"
error_of all = none

-- One of the types names the error, or is `all`.
abbrev pub Matches : String → List ErrorType → Type 0
Matches kind types = (t : ErrorType) × Memᴰ t types × ((t ≡ all) ⊎ (error_of t ≡ some kind))

of_type :
    (kind : String) (t : ErrorType)
    → is_of_type kind t ≡ true
    → (t ≡ all) ⊎ (error_of t ≡ some kind)
of_type kind all h = inl refl
of_type kind timeout h = inr (ap some (sym ((eq_iff kind "timeout").0 h)))
of_type kind http_5xx h = inr (ap some (sym ((eq_iff kind "5xx").0 h)))
of_type kind http_4xx h = inr (ap some (sym ((eq_iff kind "4xx").0 h)))
of_type kind network h = inr (ap some (sym ((eq_iff kind "network").0 h)))

type_of :
    (kind : String) (t : ErrorType)
    → (t ≡ all) ⊎ (error_of t ≡ some kind)
    → is_of_type kind t ≡ true
type_of kind all h = refl
type_of kind timeout (inl e) = cc
type_of kind timeout (inr e) = (eq_iff kind "timeout").1 (cc)
type_of kind http_5xx (inl e) = cc
type_of kind http_5xx (inr e) = (eq_iff kind "5xx").1 (cc)
type_of kind http_4xx (inl e) = cc
type_of kind http_4xx (inr e) = (eq_iff kind "4xx").1 (cc)
type_of kind network (inl e) = cc
type_of kind network (inr e) = (eq_iff kind "network").1 (cc)

matches-Matches :
    (kind : String) (types : List ErrorType)
    → error_type_matches types kind ≡ true
    → Matches kind types
unfolding error_type_matches
matches-Matches kind [] h = cc
matches-Matches kind (t ∷ ts) h = elim (Bool-cases (is_of_type kind t)) [
  | inl e ↦ (t, head refl, of_type kind t e)
  | inr e ↦
      (let (u, m, k) = matches-Matches kind ts (rw (e, error_type_matches) at h) in (u, tail m, k))
]

Matches-matches :
    (kind : String) (types : List ErrorType) (t : ErrorType)
    → Memᴰ t types
    → is_of_type kind t ≡ true
    → error_type_matches types kind ≡ true
unfolding error_type_matches
Matches-matches kind [] t m h = elim m [ ]
Matches-matches kind (x ∷ ts) t (head e) h = rw (sym e, h) refl
Matches-matches kind (x ∷ ts) t (tail m) h = elim (Bool-cases (is_of_type kind x)) [
  | inl e ↦ rw e refl
  | inr e ↦ rw (e, Matches-matches kind ts t m h) refl
]

unmatched :
    (kind : String) (types : List ErrorType)
    → error_type_matches types kind ≡ false
    → ¬ (Matches kind types)
unmatched kind types h (t, m, k) =
    (let yes : error_type_matches types kind ≡ true =
        Matches-matches kind types t m (type_of kind t k) in
      cc)

-- The retries that a step admits: all of them, if it does not say which.
abbrev AdmitsRetry : String → Option StepRetryConfig → Type 0
AdmitsRetry kind none = Unit
AdmitsRetry kind (some r) = Matches kind r.errors

abbrev pub Admits : String → Option StepConfig → Type 0
Admits kind none = Unit
Admits kind (some step) = AdmitsRetry kind step.retry

abbrev listed : Option (List CatchConfig) → List CatchConfig
listed none = []
listed (some rules) = rules

abbrev pub rules_of : Option StepConfig → List CatchConfig
rules_of none = []
rules_of (some step) = listed step.catch

abbrev pub ending_of : Option StepConfig → OnFailure
ending_of none = stop
ending_of (some step) = step.on_failure

abbrev pub NoRule : String → List CatchConfig → Type 0
NoRule kind = All (λ c. ¬ (Matches kind c.errors))

-- The first rule that the error meets.
abbrev pub FirstRule : String → List CatchConfig → CatchConfig → Type 0
FirstRule kind rules c =
    (skipped : List CatchConfig) × (rest : List CatchConfig) × (rules ≡ skipped ++ c ∷ rest)
    × NoRule kind skipped
    × Matches kind c.errors

pub find_catch-none :
    (kind : String) (rules : List CatchConfig) → find_catch kind rules ≡ none → NoRule kind rules
unfolding find_catch
find_catch-none kind [] h = tt
find_catch-none kind (c ∷ cs) h = elim (Bool-cases (error_type_matches c.errors kind)) [
  | inl e ↦ (let no : some c ≡ none = rw (e, find_catch) at h in cc)
  | inr e ↦ (unmatched kind c.errors e, find_catch-none kind cs (rw (e, find_catch) at h))
]

pub find_catch-FirstRule :
    (kind : String) (rules : List CatchConfig) {c : CatchConfig}
    → find_catch kind rules ≡ some c
    → FirstRule kind rules c
unfolding find_catch
find_catch-FirstRule kind [] h = cc
find_catch-FirstRule kind (x ∷ cs) {c} h = elim (Bool-cases (error_type_matches x.errors kind)) [
  | inl e ↦
      (let it : x ≡ c = some_inj.0 (rw (e, find_catch) at h) in
        let met : Matches kind c.errors = rw it at (matches-Matches kind x.errors e) in
        ([], cs, ap (λ y. y ∷ cs) it, tt, met))
  | inr e ↦
      (let (skipped, rest, all', none', met) =
          find_catch-FirstRule kind cs (rw (e, find_catch) at h) in
        (x ∷ skipped, rest, ap (λ l. x ∷ l) all', (unmatched kind x.errors e, none'), met))
]

retries-AdmitsRetry :
    (kind : String) (r : Option StepRetryConfig) → (retries kind r ≡ true) ↔ AdmitsRetry kind r
retries-AdmitsRetry kind none = (λ h. tt, λ h. refl)
retries-AdmitsRetry kind (some r) = (
  matches-Matches kind r.errors,
  λ (t, m, k). Matches-matches kind r.errors t m (type_of kind t k),
)

pub should_retry-Admits :
    (kind : String) (step : Option StepConfig) → (should_retry kind step ≡ true) ↔ Admits kind step
should_retry-Admits kind none = (λ h. tt, λ h. refl)
should_retry-Admits kind (some step) = retries-AdmitsRetry kind step.retry
