-- ===== src/Json.antt =====
-- serde_json's values, as src/api.rs and src/queue.rs use them. Parsing and printing are the
-- library's: they are arguments of what uses them.
use qhook.Prelude.{Bool, Option, none, some, String, List, [], ◌∷◌, if◌then◌else◌}
use qhook.Prelude.Classes.{◌==◌, string_eq}
pub mod Path
pub mod Merge

-- A number is the text that it prints as.
mutual
  pub data Value : Type 0 where
    null : Value
    bool : Bool → Value
    number text : String → Value
    object : Entries → Value
    array : Values → Value

  pub data Entries : Type 0 where
    no_entries : Entries
    entry : String → Value → Entries → Entries

  pub data Values : Type 0 where
    no_values : Values
    one_value : Value → Values → Values

-- `serde_json::from_str` into a value, and `serde_json::to_string` of one, which prints the entries
-- of an object in the order of their names.
pub record Serde : Type 0 where
  pub from_str : String → Option Value
  pub to_string : Value → String

-- The order of the entries is not kept: a new one goes to the end.
unfoldable pub set_field : String → Value → Entries → Entries
set_field k v no_entries = entry k v no_entries
set_field k v (entry j w fs) = if j == k then entry k v fs else entry j w (set_field k v fs)

unfoldable pub get_field : String → Entries → Option Value
get_field k no_entries = none
get_field k (entry j w fs) = if j == k then some w else get_field k fs

abbrev pub elements : Values → List Value
elements no_values = []
elements (one_value v vs) = v ∷ elements vs

abbrev pub items_of : List Value → Values
items_of [] = no_values
items_of (v ∷ vs) = one_value v (items_of vs)
