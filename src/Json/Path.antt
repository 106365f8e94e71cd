-- ===== src/Json/Path.antt =====
-- src/api.rs, `resolve_path` and `extract_json_path_value`.
use Prim.Native.Char.{Char, code}
use Prim.Native.String.{String}
use qhook.Prelude.{ℕ, Option, none, some, List, [], ◌∷◌, nat_beq, starts_with, if◌then◌else◌}
use qhook.Json.{Value, object, Serde, get_field}

-- The first part of a split, put before the others.
abbrev pub grow : Char → List String → List String
grow c [] = String.◌∷◌ c String.[] ∷ []
grow c (p ∷ ps) = String.◌∷◌ c p ∷ ps

-- `str::split` at a character
unfoldable pub split : ℕ → String → List String
split sep String.[] = String.[] ∷ []
split sep (String.◌∷◌ c s) =
    let rest = split sep s in if nat_beq (code c) sep then String.[] ∷ rest else grow c rest

abbrev pub drop_text : ℕ → String → String
drop_text ℕ.zero s = s
drop_text (ℕ.suc n) String.[] = String.[]
drop_text (ℕ.suc n) (String.◌∷◌ c s) = drop_text n s

-- `path.strip_prefix("$.").unwrap_or(path)`
unfoldable pub strip_root : String → String
strip_root path = if starts_with path "$." then drop_text 2 path else path

-- `Value::get` of a name
abbrev pub get : String → Value → Option Value
get k (object fs) = get_field k fs
get k _ = none

unfoldable pub walk : List String → Value → Option Value
walk [] v = some v
walk (p ∷ ps) v = elim (get p v) [ none ↦ none | some w ↦ walk ps w ]

unfoldable pub resolve_path : Value → String → Option Value
unfolding split strip_root walk get_field
resolve_path json path = walk (split b'.' (strip_root path)) json

unfoldable pub extract_json_path_value : Serde → String → String → Option Value
extract_json_path_value serde payload path = elim (serde.from_str payload) [
  | none ↦ none
  | some json ↦ resolve_path json path
]
