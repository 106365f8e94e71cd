-- ===== src/Metrics/Counter.antt =====
-- src/metrics.rs, `LabeledCounter`: one u64 for each label that has been counted.
use qhook.Prelude.{ℕ, ◌+◌, ◌%◌, ◌≡◌, List, [], ◌∷◌, String, length, arith, eq_iff, if◌then◌else◌}
use qhook.Prelude.Classes.{◌==◌, string_eq}

abbrev pub u64_mod : ℕ
u64_mod = 18446744073709551616

-- `fetch_add`, and the addition of `sum`
abbrev pub add_u64 : ℕ → ℕ → ℕ
add_u64 a b = (a + b) % u64_mod

abbrev pub LabeledCounter : Type 0
LabeledCounter = List (String × ℕ)

-- The value of a label, 0 if it has not been counted.
unfoldable pub value : String → LabeledCounter → ℕ
value label [] = 0
value label ((k, n) ∷ c) = if k == label then n else value label c

-- The counter of the label is raised where it is there; else it is inserted as 0 and raised.
unfoldable pub inc_by : String → ℕ → LabeledCounter → LabeledCounter
inc_by label n [] = (label, add_u64 0 n) ∷ []
inc_by label n ((k, v) ∷ c) = if k == label then (k, add_u64 v n) ∷ c else (k, v) ∷ inc_by label n c

unfoldable pub inc : String → LabeledCounter → LabeledCounter
inc label = inc_by label 1

unfoldable pub total : LabeledCounter → ℕ
total [] = 0
total ((k, n) ∷ c) = add_u64 n (total c)

unfoldable pub label_count : LabeledCounter → ℕ
label_count c = length c

-- A count reaches its own label and no other, and the total grows by it, both modulo 2^64.
pub inc_by-value :
    (label other : String) (n : ℕ) (c : LabeledCounter)
    → (value other (inc_by label n c)
        ≡ (if label == other then add_u64 (value other c) n else value other c))
      × (total (inc_by label n c) ≡ add_u64 (total c) n)
unfolding value inc_by total
inc_by-value label other n [] = (ground arith, omega arith)
inc_by-value label other n ((k, v) ∷ c) =
    let (values, totals) = inc_by-value label other n c in
    (
      ground (arith, values, eq_iff k label, eq_iff k other, eq_iff label other),
      ground (arith, totals),
    )
