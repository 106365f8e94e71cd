-- ===== src/Workflow/Params.antt =====
-- src/api.rs, `validate_workflow_params`: the input that a workflow declares.
use mathlib.Core.List.{Memᴰ}
use mathlib.Core.List.Memᴰ.{head, tail}
use qhook.Prelude.{
  ◌≡◌, refl, sym, ◌∙◌, ◌↔◌, Bool, true, false, not, Option, none, some, String, List, [], ◌∷◌,
  arith, Option-cases, ◌||◌, eq_iff, if◌then◌else◌, Bool-cases, inl, inr,
}
use qhook.Prelude.Classes.{◌==◌, string_eq}
use qhook.Json.{Value, null, bool, number, text, array, object, Entries, Serde, get_field}
use qhook.Workflow.{ParamConfig}

pub data ParamError : Type 0 where
  invalid_json not_an_object : ParamError
  missing_param : String → ParamError
  wrong_type : String → String → Value → ParamError

-- `is_string`, `is_number`, `is_boolean`, `is_object` and `is_array`
abbrev is_string : Value → Bool
is_string (text s) = true
is_string _ = false

abbrev is_number : Value → Bool
is_number (number n) = true
is_number _ = false

abbrev is_boolean : Value → Bool
is_boolean (bool b) = true
is_boolean _ = false

abbrev is_object : Value → Bool
is_object (object fs) = true
is_object _ = false

abbrev is_array : Value → Bool
is_array (array vs) = true
is_array _ = false

-- A type that is none of the five accepts every value.
unfoldable pub type_ok : String → Value → Bool
type_ok param_type v =
    if param_type == "string"
    then is_string v
    else if param_type == "number"
    then is_number v
    else if param_type == "boolean"
    then is_boolean v
    else if param_type == "object"
    then is_object v
    else if param_type == "array"
    then is_array v
    else true

-- What one parameter is refused for.
unfoldable pub check_param : ParamConfig → Option Value → Option ParamError
unfolding type_ok
check_param p none = if p.required then some (missing_param p.name) else none
check_param p (some v) =
    if type_ok p.param_type v then none else some (wrong_type p.name p.param_type v)

-- The loop over the parameters, which ends with the first error.
unfoldable pub check_params : List ParamConfig → Entries → Option ParamError
unfolding check_param
check_params [] obj = none
check_params (p ∷ ps) obj =
    let rest = check_params ps obj in
    elim (check_param p (get_field p.name obj)) [ none ↦ rest | some e ↦ some e ]

abbrev pub check_value : List ParamConfig → Option Value → Option ParamError
check_value ps none = some invalid_json
check_value ps (some (object obj)) = check_params ps obj
check_value ps (some _) = some not_an_object

-- The error, or none if the payload is accepted.
unfoldable pub validate_workflow_params : Serde → List ParamConfig → String → Option ParamError
unfolding check_params
validate_workflow_params serde ps payload = check_value ps (serde.from_str payload)

-- The name of a value's type, and whether a text is one of the five that parameters can have.
abbrev kind_of : Value → String
kind_of null = "null"
kind_of (bool b) = "boolean"
kind_of (number n) = "number"
kind_of (text s) = "string"
kind_of (object fs) = "object"
kind_of (array vs) = "array"

abbrev is_kind : String → Bool
is_kind t = t == "string" || (t == "number" || (t == "boolean" || (t == "object" || t == "array")))

-- A value of the declared type, or of any if that is none of the five, or no value of an optional
-- parameter.
abbrev pub conforms : ParamConfig → Option Value → Bool
conforms p none = not p.required
conforms p (some v) = not (is_kind p.param_type) || kind_of v == p.param_type

string_ok : (v : Value) → type_ok "string" v ≡ (kind_of v == "string")
unfolding type_ok
string_ok null = refl
string_ok (bool b) = refl
string_ok (number n) = refl
string_ok (text s) = refl
string_ok (object fs) = refl
string_ok (array vs) = refl

number_ok : (v : Value) → type_ok "number" v ≡ (kind_of v == "number")
unfolding type_ok
number_ok null = refl
number_ok (bool b) = refl
number_ok (number n) = refl
number_ok (text s) = refl
number_ok (object fs) = refl
number_ok (array vs) = refl

boolean_ok : (v : Value) → type_ok "boolean" v ≡ (kind_of v == "boolean")
unfolding type_ok
boolean_ok null = refl
boolean_ok (bool b) = refl
boolean_ok (number n) = refl
boolean_ok (text s) = refl
boolean_ok (object fs) = refl
boolean_ok (array vs) = refl

object_ok : (v : Value) → type_ok "object" v ≡ (kind_of v == "object")
unfolding type_ok
object_ok null = refl
object_ok (bool b) = refl
object_ok (number n) = refl
object_ok (text s) = refl
object_ok (object fs) = refl
object_ok (array vs) = refl

array_ok : (v : Value) → type_ok "array" v ≡ (kind_of v == "array")
unfolding type_ok
array_ok null = refl
array_ok (bool b) = refl
array_ok (number n) = refl
array_ok (text s) = refl
array_ok (object fs) = refl
array_ok (array vs) = refl

-- At a text that is one of the five.
at_kind :
    (t k : String) (v : Value)
    → (t == k) ≡ true
    → is_kind k ≡ true
    → type_ok k v ≡ (kind_of v == k)
    → type_ok t v ≡ (not (is_kind t) || kind_of v == t)
at_kind t k v e known h = let same : t ≡ k = (eq_iff t k).0 e in rw (same, known) h

type_ok_lem : (t : String) (v : Value) → type_ok t v ≡ (not (is_kind t) || kind_of v == t)
type_ok_lem t v = elim (Bool-cases (t == "string")) [
  | inl e ↦ at_kind t "string" v e refl (string_ok v)
  | inr e₁ ↦ elim (Bool-cases (t == "number")) [
    | inl e ↦ at_kind t "number" v e refl (number_ok v)
    | inr e₂ ↦ elim (Bool-cases (t == "boolean")) [
      | inl e ↦ at_kind t "boolean" v e refl (boolean_ok v)
      | inr e₃ ↦ elim (Bool-cases (t == "object")) [
        | inl e ↦ at_kind t "object" v e refl (object_ok v)
        | inr e₄ ↦ elim (Bool-cases (t == "array")) [
          | inl e ↦ at_kind t "array" v e refl (array_ok v)
          | inr e₅ ↦ (unfold type_ok in rw (e₁, e₂, e₃, e₄, e₅) refl)
        ]
      ]
    ]
  ]
]

check_param_lem :
    (p : ParamConfig) (v : Option Value) → (check_param p v ≡ none) ↔ (conforms p v ≡ true)
unfolding check_param
check_param_lem p none = elim (Bool-cases p.required) [
  | inl e ↦ rw e ((λ h. cc), (λ h. cc))
  | inr e ↦ rw e ((λ h. refl), (λ h. refl))
]
check_param_lem p (some v) = elim (Bool-cases (type_ok p.param_type v)) [
  | inl e ↦ rw e ((λ h. sym (type_ok_lem p.param_type v) ∙ e), (λ h. refl))
  | inr e ↦ rw e (
    (λ h. cc),
    (λ h. let k : type_ok p.param_type v ≡ true = type_ok_lem p.param_type v ∙ h in cc),
  )
]

-- Each parameter has a value that conforms to it.
abbrev pub Conform : List ParamConfig → Entries → Type 0
Conform ps obj = (p : ParamConfig) → Memᴰ p ps → conforms p (get_field p.name obj) ≡ true

check_params_sound :
    (ps : List ParamConfig) (obj : Entries) → check_params ps obj ≡ none → Conform ps obj
unfolding check_params
check_params_sound [] obj h p m = elim m [ ]
check_params_sound (q ∷ qs) obj h p m = elim (Option-cases (check_param q (get_field q.name obj))) [
  | inl e ↦
      (let rest : check_params qs obj ≡ none = ground arith in
        elim m [
          | head same ↦ rw same ((check_param_lem q (get_field q.name obj)).0 e)
          | tail m' ↦ check_params_sound qs obj rest p m'
        ])
  | inr (x, e) ↦ ground arith
]

check_params_complete :
    (ps : List ParamConfig) (obj : Entries) → Conform ps obj → check_params ps obj ≡ none
unfolding check_params
check_params_complete [] obj h = refl
check_params_complete (q ∷ qs) obj h =
    let first : check_param q (get_field q.name obj) ≡ none =
      (check_param_lem q (get_field q.name obj)).1 (h q (head refl)) in
    let rest : check_params qs obj ≡ none = check_params_complete qs obj (λ p m. h p (tail m)) in
    ground (arith, first, rest)

checked_object :
    (ps : List ParamConfig) (v : Option Value)
    → check_value ps v ≡ none
    → (obj : Entries) × (v ≡ some (object obj)) × Conform ps obj
checked_object ps none h = cc
checked_object ps (some (object obj)) h = (obj, refl, check_params_sound ps obj h)
checked_object ps (some null) h = cc
checked_object ps (some (bool b)) h = cc
checked_object ps (some (number n)) h = cc
checked_object ps (some (text s)) h = cc
checked_object ps (some (array vs)) h = cc

-- A payload is accepted exactly if it is a JSON object in which each parameter that is required has
-- a value, and each value of a parameter is of the parameter's type, if that is one of the five.
pub validate_workflow_params_accepts :
    (serde : Serde) (ps : List ParamConfig) (payload : String)
    → (validate_workflow_params serde ps payload ≡ none)
      ↔ ((obj : Entries) × (serde.from_str payload ≡ some (object obj)) × Conform ps obj)
unfolding validate_workflow_params
validate_workflow_params_accepts serde ps payload = (
  checked_object ps (serde.from_str payload),
  λ (obj, parsed, h). rw parsed (check_params_complete ps obj h),
)
