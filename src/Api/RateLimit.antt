-- ===== src/Api/RateLimit.antt =====
-- src/api.rs, `IpRateLimiter`: requests counted in windows of one second for each address. A time
-- is in milliseconds; an address is a number. The map is an association list.
use qhook.Prelude.{
  ℕ, ◌+◌, ◌-◌, ◌/◌, ◌≤◌, ◌<◌, ◌≡◌, ◌≢◌, Bool, true, false, not, ◌&&◌, Option, none, some, List, [],
  ◌∷◌, length, arith, nat_beq, leb, ltb, if◌then◌else◌, Bool-cases, inl, inr, min,
}

-- What is kept of an address: the count of the window, and when it began.
abbrev pub Entry : Type 0
Entry = ℕ × ℕ

pub record IpRateLimiter : Type 0 where
  pub limit : ℕ  -- u32
  pub entries : List (ℕ × Entry)

abbrev pub max_ip_entries : ℕ
max_ip_entries = 100000

unfoldable pub get : ℕ → List (ℕ × Entry) → Option Entry
get ip [] = none
get ip ((k, e) ∷ m) = if nat_beq k ip then some e else get ip m

unfoldable pub insert : ℕ → Entry → List (ℕ × Entry) → List (ℕ × Entry)
insert ip e [] = (ip, e) ∷ []
insert ip e ((k, f) ∷ m) = if nat_beq k ip then (ip, e) ∷ m else (k, f) ∷ insert ip e m

-- `now.duration_since(at).as_secs()`
abbrev pub secs_since : ℕ → ℕ → ℕ
secs_since now at = (now - at) / 1000

-- The entry after a request, and whether the request is allowed.
unfoldable pub count_request : ℕ → ℕ → Entry → Entry × Bool
count_request limit now (n, at) =
    if leb 1 (secs_since now at)
    then ((1, now), true)
    else if ltb n limit
    then ((n + 1, at), true)
    else ((n, at), false)

-- `or_insert((0, now))`
abbrev pub entry_or : ℕ → Option Entry → Entry
entry_or now none = (0, now)
entry_or now (some e) = e

abbrev pub is_known : Option Entry → Bool
is_known none = false
is_known (some _) = true

unfoldable pub check : ℕ → ℕ → IpRateLimiter → IpRateLimiter × Bool
check now ip l =
    if leb max_ip_entries (length l.entries) && not (is_known (get ip l.entries))
    then (l, false)
    else (let (e, allowed) = count_request l.limit now (entry_or now (get ip l.entries)) in
        (record l { entries = insert ip e l.entries }, allowed))

unfoldable pub retain_recent : ℕ → List (ℕ × Entry) → List (ℕ × Entry)
retain_recent now [] = []
retain_recent now ((k, (n, at)) ∷ m) =
    let rest = retain_recent now m in
    if ltb (secs_since now at) 60 then (k, (n, at)) ∷ rest else rest

unfoldable pub cleanup : ℕ → IpRateLimiter → IpRateLimiter
cleanup now l = record l { entries = retain_recent now l.entries }

pub get-insert_self : (ip : ℕ) (e : Entry) (m : List (ℕ × Entry)) → get ip (insert ip e m) ≡ some e
unfolding get insert
get-insert_self ip e [] = ground arith
get-insert_self ip e ((k, f) ∷ m) = ground (arith, get-insert_self ip e m)

pub get-insert_ne :
    (ip other : ℕ) (e : Entry) (m : List (ℕ × Entry))
    → other ≢ ip
    → get other (insert ip e m) ≡ get other m
unfolding get insert
get-insert_ne ip other e [] h = ground arith
get-insert_ne ip other e ((k, f) ∷ m) h = ground (arith, get-insert_ne ip other e m)

pub length-insert :
    (ip : ℕ) (e : Entry) (m : List (ℕ × Entry))
    → length (insert ip e m) ≡ (if is_known (get ip m) then length m else length m + 1)
unfolding get insert
length-insert ip e [] = omega arith
length-insert ip e ((k, f) ∷ m) = ground (arith, length-insert ip e m)

length-retain_recent : (now : ℕ) (m : List (ℕ × Entry)) → length (retain_recent now m) ≤ length m
unfolding retain_recent
length-retain_recent now [] = omega arith
length-retain_recent now ((k, (n, at)) ∷ m) = ground (arith, length-retain_recent now m)

-- The memory of the limiter is bounded: from at most the maximum, no request and no cleanup takes the number of addresses
-- beyond the maximum.
pub check_bounded :
    (now ip : ℕ) (l : IpRateLimiter)
    → length l.entries ≤ max_ip_entries
    → (length (check now ip l).0.entries ≤ max_ip_entries)
      × (length (cleanup now l).entries ≤ length l.entries)
unfolding check cleanup
check_bounded now ip l h = (
  ground (
    arith,
    length-insert ip (count_request l.limit now (entry_or now (get ip l.entries))).0 l.entries,
  ),
  length-retain_recent now l.entries,
)

-- An address does not pay for the requests of another: what is kept of it stays as it was.
pub check_isolated :
    (now ip other : ℕ) (l : IpRateLimiter)
    → other ≢ ip
    → get other (check now ip l).0.entries ≡ get other l.entries
unfolding check
check_isolated now ip other l h = ground (
  arith,
  get-insert_ne ip other (count_request l.limit now (entry_or now (get ip l.entries))).0 l.entries
      h,
)

-- Requests of one address at the given instants, with the number that was allowed.
unfoldable pub check_all : List ℕ → ℕ → IpRateLimiter → IpRateLimiter × ℕ
check_all [] ip l = (l, 0)
check_all (now ∷ nows) ip l =
    let (l', allowed) = check now ip l in
    let (l'', n) = check_all nows ip l' in (l'', (if allowed then 1 else 0) + n)

-- Every instant lies within a second from the beginning of the window.
abbrev pub Within : ℕ → List ℕ → Type 0
Within at [] = Unit
Within at (now ∷ nows) = (now < at + 1000) × Within at nows

check_known :
    (now ip n at : ℕ) (l : IpRateLimiter)
    → get ip l.entries ≡ some (n, at)
    → check now ip l ≡ (
        let (e, allowed) = count_request l.limit now (n, at) in
        (record l { entries = insert ip e l.entries }, allowed))
unfolding check
check_known now ip n at l h = rw h (ground arith)

abbrev with_entry : ℕ → Entry → IpRateLimiter → IpRateLimiter
with_entry ip e l = record l { entries = insert ip e l.entries }

counted :
    (now n at limit : ℕ)
    → now < at + 1000
    → n < limit
    → count_request limit now (n, at) ≡ ((n + 1, at), true)
unfolding count_request
counted now n at limit w h = ground arith

exhausted :
    (now n at limit : ℕ)
    → now < at + 1000
    → n ≡ limit
    → count_request limit now (n, at) ≡ ((n, at), false)
unfolding count_request
exhausted now n at limit w h = ground arith

-- Within one window of an address, exactly as many requests are allowed as the limit has left: the rest are
-- rejected, in whatever order and at whatever instants of the window they come.
pub check_all_window :
    (nows : List ℕ) (ip n at : ℕ) (l : IpRateLimiter)
    → get ip l.entries ≡ some (n, at)
    → n ≤ l.limit
    → Within at nows
    → (check_all nows ip l).1 ≡ min (length nows) (l.limit - n)
unfolding check_all
check_all_window [] ip n at l h b w = omega arith
check_all_window (now ∷ nows) ip n at l h b w = elim (Bool-cases (ltb n l.limit)) [
  | inl left ↦
      rw
        (
          check_known now ip n at l h,
          counted now n at l.limit w.0 (ground arith),
          check_all_window nows ip (n + 1) at (with_entry ip (n + 1, at) l)
              (get-insert_self ip (n + 1, at) l.entries) (ground arith) w.1,
        )
        (ground arith)
  | inr none_left ↦
      rw
        (
          check_known now ip n at l h,
          exhausted now n at l.limit w.0 (ground arith),
          check_all_window nows ip n at (with_entry ip (n, at) l)
              (get-insert_self ip (n, at) l.entries) b w.1,
        )
        (ground arith)
]
