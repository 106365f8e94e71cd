-- ===== src/Config/Urls.antt =====
-- src/config.rs, `validate_handler_url`: to which hosts a URL may point.
use Prim.Native.Char.{code}
use Prim.Native.String.{◌++◌ as ◌++ᵗ◌}
use package.text.Mathlib.TextLemmas.{nil-append, cons-append}
use qhook.Prelude.{
  ℕ, ◌+◌, ◌*◌, ◌-◌, ◌≡◌, refl, Bool, true, false, not, ◌&&◌, ◌||◌, Option, none, some, String, List,
  [], ◌∷◌, leb, nat_beq, arith, ap, eq_iff, Bool-cases, Option-cases, inl, inr, if◌then◌else◌,
}
use qhook.Prelude.Classes.{◌==◌, string_eq}
use qhook.Text.{size, strip_prefix, split_once, is_found, strip_prefix-append}
use qhook.Json.Path.{grow, split}
use qhook.Sql.{exists_where}
use qhook.Config.Network.{Ipv4Addr, is_private_ipv4}

-- `split(c).next()`: what stands ahead of a character.
unfoldable pub ahead_of : ℕ → String → String
ahead_of c String.[] = String.[]
ahead_of c (String.◌∷◌ d s) =
    let rest = ahead_of c s in if nat_beq (code d) c then String.[] else String.◌∷◌ d rest

-- Up to the first closing bracket, with it, if there is one; else what stands ahead of a colon.
abbrev without_port : Option (String × String) → String → String
without_port none s = ahead_of b':' s
without_port (some (ahead, behind)) s = ahead ++ᵗ "]"

abbrev or_strip : Option String → Option String → String → String
or_strip (some s) other url = s
or_strip none (some s) url = s
or_strip none none url = url

unfoldable pub host_of : String → String
unfolding ahead_of split_once strip_prefix
host_of url =
    let host =
      ahead_of b'/' (or_strip (strip_prefix "http://" url) (strip_prefix "https://" url) url) in
    without_port (split_once "]" host) host

-- A decimal number of one to three digits, below 256 and with no zero ahead.
abbrev digit : ℕ → Option ℕ
digit c = if leb b'0' c && leb c b'9' then some (c - b'0') else none

unfoldable pub octet_from : ℕ → String → Option ℕ
octet_from n String.[] = some n
octet_from n (String.◌∷◌ c s) = elim (digit (code c)) [
  | none ↦ none
  | some d ↦ octet_from (n * 10 + d) s
]

abbrev in_byte : Option ℕ → Option ℕ
in_byte none = none
in_byte (some n) = if leb n 255 then some n else none

unfoldable pub octet : String → Option ℕ
unfolding octet_from
octet String.[] = none
octet (String.◌∷◌ c s) =
    if nat_beq (code c) b'0' && not (nat_beq (size s) 0) || not (leb (size s) 2)
    then none
    else in_byte (octet_from 0 (String.◌∷◌ c s))

abbrev four : Option ℕ → Option ℕ → Option ℕ → Option ℕ → Option Ipv4Addr
four (some a) (some b) (some c) (some d) = some (record { o0 = a; o1 = b; o2 = c; o3 = d })
four _ _ _ _ = none

abbrev of_octets : List String → Option Ipv4Addr
of_octets [] = none
of_octets (a ∷ []) = none
of_octets (a ∷ b ∷ []) = none
of_octets (a ∷ b ∷ c ∷ []) = none
of_octets (a ∷ b ∷ c ∷ d ∷ []) = four (octet a) (octet b) (octet c) (octet d)
of_octets (a ∷ b ∷ c ∷ d ∷ e ∷ rest) = none

-- `parse::<Ipv4Addr>`: four decimal bytes with points between them.
unfoldable pub parse_ipv4 : String → Option Ipv4Addr
unfolding octet split
parse_ipv4 s = of_octets (split b'.' s)

abbrev is_private_host : Option Ipv4Addr → Bool
is_private_host none = false
is_private_host (some ip) =
    nat_beq ip.o0 127
    || (nat_beq ip.o0 0 && nat_beq ip.o1 0 && nat_beq ip.o2 0 && nat_beq ip.o3 0)
    || is_private_ipv4 ip

abbrev blocked : List String
blocked = "localhost" ∷ "127.0.0.1" ∷ "0.0.0.0" ∷ "[::1]" ∷ "[::0]" ∷ "[::]" ∷ []

unfoldable pub points_inside : String → Bool
unfolding parse_ipv4 exists_where
points_inside host = exists_where (λ b. host == b) blocked || is_private_host (parse_ipv4 host)

unfoldable pub has_scheme : String → Bool
unfolding strip_prefix
has_scheme url = is_found (strip_prefix "http://" url) || is_found (strip_prefix "https://" url)

-- Whether the URL is accepted; the first argument is `allow_private`.
unfoldable pub validate_handler_url : Bool → String → Bool
unfolding has_scheme host_of points_inside
validate_handler_url allow_private url =
    has_scheme url && (not (points_inside (host_of url)) || allow_private)

-- A text that begins with "u@".
abbrev user : String → String
user s = String.◌∷◌ "u" (String.◌∷◌ "@" s)

abbrev first_code : String → ℕ
first_code String.[] = 0
first_code (String.◌∷◌ c s) = code c

differs : (s t : String) → nat_beq (first_code s) (first_code t) ≡ false → (s == t) ≡ false
differs s t h = elim (Bool-cases (s == t)) [
  | inl e ↦
      (let same : first_code s ≡ first_code t = ap first_code ((eq_iff s t).0 e) in ground arith)
  | inr e ↦ e
]

user_host :
    (s : String) → (rest : String) × (without_port (split_once "]" (user s)) (user s) ≡ user rest)
unfolding split_once strip_prefix ahead_of
user_host s = elim (Option-cases (split_once "]" s)) [
  | inl e ↦ (ahead_of b':' s, rw e refl)
  | inr ((a, b), e) ↦ (a ++ᵗ "]", rw (e, cons-append, cons-append) refl)
]

no_octet : (s : String) → octet (String.◌∷◌ "u" s) ≡ none
unfolding octet octet_from
no_octet s = ground arith

of_octets-none : (p : String) (ps : List String) → octet p ≡ none → of_octets (p ∷ ps) ≡ none
of_octets-none p [] h = refl
of_octets-none p (b ∷ []) h = refl
of_octets-none p (b ∷ c ∷ []) h = refl
of_octets-none p (b ∷ c ∷ d ∷ []) h = rw h refl
of_octets-none p (b ∷ c ∷ d ∷ e ∷ rest) h = refl

grown : (ps : List String) → of_octets (grow "u" (grow "@" ps)) ≡ none
grown [] = of_octets-none _ [] (no_octet "@")
grown (p ∷ ps) = of_octets-none _ ps (no_octet (String.◌∷◌ "@" p))

user_outside : (s : String) → points_inside (user s) ≡ false
unfolding points_inside parse_ipv4 split exists_where
user_outside s =
    rw
      (
        differs (user s) "localhost" refl,
        differs (user s) "127.0.0.1" refl,
        differs (user s) "0.0.0.0" refl,
        differs (user s) "[::1]" refl,
        differs (user s) "[::0]" refl,
        differs (user s) "[::]" refl,
        grown (split b'.' s),
      )
      refl

-- A URL that begins with `http://u@` is accepted, whatever host follows, a loopback or private one
-- included, also where private addresses are not allowed.
pub validate_handler_url_user :
    (rest : String) → validate_handler_url false ("http://" ++ᵗ ("u@" ++ᵗ rest)) ≡ true
unfolding validate_handler_url has_scheme host_of ahead_of
validate_handler_url_user rest =
    let cut : ("u@" ++ᵗ rest) ≡ user rest = rw (cons-append, cons-append, nil-append) refl in
    let (host, e) = user_host (ahead_of b'/' rest) in
    rw (strip_prefix-append "http://" ("u@" ++ᵗ rest), cut, e, user_outside host) refl
