-- ===== src/Tests/Template.antt =====
-- Runs of the templates of src/api.rs.
use Prim.Native.String.{◌++◌ as ◌++ᵗ◌}
use qhook.Prelude.{◌≡◌, refl, some, String, List, [], ◌∷◌}
use qhook.Prelude.Classes.{string_eq}
use qhook.Text.{trim, strip_prefix, split_once}
use qhook.Json.{Value, null, text, object, no_entries, entry, Serde}
use qhook.Json.Path.{strip_root, walk, split, resolve_path}
use qhook.Api.Transform.{
  replacement, placeholder, fill, apply_transform_within, braces, IsPlain, apply_transform_ends,
}

-- A payload whose value at `a` is the placeholder of `a`.
abbrev hostile : Value
hostile = object (entry "a" (text "{{a}}") no_entries)

abbrev quoted : Value → String
quoted (text s) = "\"" ++ᵗ s ++ᵗ "\""
quoted _ = "null"

abbrev serde_of : Value → Serde
serde_of json = record { from_str = λ s. some json; to_string = quoted }

hostile_found : placeholder (serde_of hostile) "{{a}}" ≡ some ("", "a", "")
unfolding placeholder split_once strip_prefix
hostile_found = refl

filled_again : fill (serde_of hostile) hostile ("", "a", "") ≡ "{{a}}"
unfolding fill replacement trim resolve_path
filled_again = refl

walk_plain : (ps : List String) → braces (replacement (serde_of null) (walk ps null)) ≡ 0
unfolding walk replacement
walk_plain [] = refl
walk_plain (p ∷ ps) = refl

null_plain : IsPlain (serde_of null) null
unfolding resolve_path
null_plain path = walk_plain (split b'.' (strip_root path))

apply_transform_ends_example :
    (filled : String) × (apply_transform_within (serde_of null) 5 "payload" "{{a}} and {{b}}"
      ≡ some filled)
apply_transform_ends_example =
    apply_transform_ends (serde_of null) null "payload" "{{a}} and {{b}}" refl null_plain
