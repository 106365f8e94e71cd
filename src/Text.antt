-- ===== src/Text.antt =====
-- What src/api.rs uses of `str` in Rust's standard library.
use Prim.Native.Char.{Char, code}
use Prim.Native.String.{String, ◌++◌ as ◌++ᵗ◌}
use package.text.Mathlib.TextEquality.{Char-path}
use package.text.Mathlib.TextLemmas.{nil-append, cons-append}
use qhook.Prelude.{
  ℕ, zero, suc, ◌+◌, ◌≤◌, ◌≡◌, Bool, true, false, ◌&&◌, ◌||◌, Option, none, some, arith, leb,
  nat_beq, if◌then◌else◌, Bool-cases, inl, inr, refl, sym, nat_beq_iff,
}
use qhook.Prelude.Classes.{◌==◌, string_eq}

-- The number of characters.
abbrev pub size : String → ℕ
size String.[] = zero
size (String.◌∷◌ c s) = suc (size s)

-- `char::is_whitespace`: the property White_Space of Unicode
unfoldable pub is_whitespace : Char → Bool
is_whitespace c =
    let n = code c in
    leb 9 n && leb n 13
    || nat_beq n 32
    || nat_beq n 133
    || nat_beq n 160
    || nat_beq n 5760
    || leb 8192 n && leb n 8202
    || nat_beq n 8232
    || nat_beq n 8233
    || nat_beq n 8239
    || nat_beq n 8287
    || nat_beq n 12288

unfoldable pub trim_start : (Char → Bool) → String → String
trim_start p String.[] = String.[]
trim_start p (String.◌∷◌ c s) = let rest = trim_start p s in if p c then rest else String.◌∷◌ c s

-- A character ahead of a text that is trimmed at its end.
abbrev put_back : (Char → Bool) → Char → String → String
put_back p c String.[] = if p c then String.[] else String.◌∷◌ c String.[]
put_back p c (String.◌∷◌ d s) = String.◌∷◌ c (String.◌∷◌ d s)

unfoldable pub trim_end : (Char → Bool) → String → String
trim_end p String.[] = String.[]
trim_end p (String.◌∷◌ c s) = put_back p c (trim_end p s)

unfoldable pub trim_by : (Char → Bool) → String → String
unfolding trim_start trim_end
trim_by p s = trim_end p (trim_start p s)

-- `trim` and `trim_matches('"')`
unfoldable pub trim : String → String
unfolding trim_by is_whitespace
trim = trim_by is_whitespace

unfoldable pub trim_quotes : String → String
unfolding trim_by
trim_quotes = trim_by λ c. nat_beq (code c) b'"'

unfoldable pub strip_prefix : String → String → Option String
strip_prefix String.[] s = some s
strip_prefix (String.◌∷◌ c p) String.[] = none
strip_prefix (String.◌∷◌ c p) (String.◌∷◌ d s) =
    let rest = strip_prefix p s in if nat_beq (code c) (code d) then rest else none

abbrev behind : Char → Option String → Option String
behind c none = none
behind c (some s) = some (String.◌∷◌ c s)

unfoldable pub strip_suffix : String → String → Option String
strip_suffix p String.[] = if p == "" then some "" else none
strip_suffix p (String.◌∷◌ c s) =
    let rest = strip_suffix p s in if p == String.◌∷◌ c s then some "" else behind c rest

abbrev pub before : Char → Option (String × String) → Option (String × String)
before c none = none
before c (some (s, t)) = some (String.◌∷◌ c s, t)

abbrev pub split_here : Option String → Option (String × String) → Option (String × String)
split_here none later = later
split_here (some rest) later = some ("", rest)

-- `split_once`: at the first place where the separator stands
unfoldable pub split_once : String → String → Option (String × String)
unfolding strip_prefix
split_once p String.[] = split_here (strip_prefix p "") none
split_once p (String.◌∷◌ c s) =
    split_here (strip_prefix p (String.◌∷◌ c s)) (before c (split_once p s))

abbrev pub is_found : {A : Type 0} → Option A → Bool
is_found none = false
is_found (some a) = true

unfoldable pub contains : String → String → Bool
unfolding split_once
contains s p = is_found (split_once p s)

unfoldable pub ends_with : String → String → Bool
unfolding strip_suffix
ends_with s p = is_found (strip_suffix p s)

size-trim_start : (p : Char → Bool) (s : String) → size (trim_start p s) ≤ size s
unfolding trim_start
size-trim_start p String.[] = omega arith
size-trim_start p (String.◌∷◌ c s) = elim (Bool-cases (p c)) [
  | inl e ↦ rw e (omega (arith, size-trim_start p s))
  | inr e ↦ rw e (omega arith)
]

size-put_back : (p : Char → Bool) (c : Char) (s : String) → size (put_back p c s) ≤ suc (size s)
size-put_back p c String.[] = elim (Bool-cases (p c)) [
  | inl e ↦ rw e (omega arith)
  | inr e ↦ rw e (omega arith)
]
size-put_back p c (String.◌∷◌ d s) = omega arith

size-trim_end : (p : Char → Bool) (s : String) → size (trim_end p s) ≤ size s
unfolding trim_end
size-trim_end p String.[] = omega arith
size-trim_end p (String.◌∷◌ c s) =
    omega (arith, size-trim_end p s, size-put_back p c (trim_end p s))

pub size-trim : (s : String) → size (trim s) ≤ size s
unfolding trim trim_by
size-trim s = omega (
  arith,
  size-trim_end is_whitespace (trim_start is_whitespace s),
  size-trim_start is_whitespace s,
)

pub size-strip_prefix :
    (p s : String) {rest : String} → strip_prefix p s ≡ some rest → size p + size rest ≡ size s
unfolding strip_prefix
size-strip_prefix String.[] s h = ground arith
size-strip_prefix (String.◌∷◌ c p) String.[] h = cc
size-strip_prefix (String.◌∷◌ c p) (String.◌∷◌ d s) {rest} h =
    elim (Bool-cases (nat_beq (code c) (code d))) [
      | inl e ↦
          (let h' : strip_prefix p s ≡ some rest = ground arith in
            omega (arith, size-strip_prefix p s h'))
      | inr e ↦ ground arith
    ]

pub strip_prefix-eq-some :
    (p s : String) {rest : String} → strip_prefix p s ≡ some rest → s ≡ p ++ᵗ rest
unfolding strip_prefix
strip_prefix-eq-some String.[] s {rest} h = rw (nil-append rest) (cc)
strip_prefix-eq-some (String.◌∷◌ c p) String.[] h = cc
strip_prefix-eq-some (String.◌∷◌ c p) (String.◌∷◌ d s) {rest} h =
    elim (Bool-cases (nat_beq (code c) (code d))) [
      | inl e ↦
          (let same : d ≡ c = sym (Char-path c d ((nat_beq_iff (code c) (code d)).0 e)) in
            let stripped : strip_prefix p s ≡ some rest = rw e at h in
            rw (cons-append c p rest, same, strip_prefix-eq-some p s stripped) refl)
      | inr e ↦ ground arith
    ]

pub strip_prefix-append : (p s : String) → strip_prefix p (p ++ᵗ s) ≡ some s
unfolding strip_prefix
strip_prefix-append String.[] s = rw (nil-append s) refl
strip_prefix-append (String.◌∷◌ c p) s =
    rw (cons-append c p s, strip_prefix-append p s) (ground arith)
