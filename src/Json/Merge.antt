-- ===== src/Json/Merge.antt =====
-- src/queue.rs, `merge_result_path`: where the response of a step goes.
use qhook.Prelude.{Option, none, some, String, starts_with, if◌then◌else◌}
use qhook.Prelude.Classes.{◌==◌, string_eq}
use qhook.Json.{Value, null, object, no_entries, Serde, set_field}
use qhook.Json.Path.{drop_text}

abbrev pub value_or : Value → Option Value → Value
value_or v none = v
value_or v (some w) = w

-- `map.insert(field, response)` where the input is an object
abbrev pub insert_response : String → Value → Value → Value
insert_response f response (object fs) = object (set_field f response fs)
insert_response f response v = v

unfoldable pub merge_field : Serde → String → String → String → String
merge_field serde input response f = serde.to_string (
    insert_response f (value_or null (serde.from_str response))
      (value_or (object no_entries) (serde.from_str input)))

unfoldable pub merge_result_path : Serde → String → String → Option String → String
merge_result_path serde input response none = response
merge_result_path serde input response (some path) =
    if path == "$"
    then response
    else (if path == "null"
        then input
        else (if starts_with path "$."
            then merge_field serde input response (drop_text 2 path)
            else response))
