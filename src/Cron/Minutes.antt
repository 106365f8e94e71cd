-- ===== src/Cron/Minutes.antt =====
-- src/cron.rs, `run`: how often a source fires.
use qhook.Prelude.{
  ℕ, ◌≤◌, ◌<◌, ◌≡◌, ◌≢◌, true, false, not, Option, none, some, List, [], ◌∷◌, arith, nat_beq,
  nat_beq_iff, Bool-cases, inl, inr,
}
use qhook.Cron.{Schedule, minute, occurred, is_due, firings}

-- No time is ahead of the one before it.
abbrev pub NotBefore : Option ℕ → ℕ → Type 0
NotBefore none t = Unit {0}
NotBefore (some last) t = last ≤ t

abbrev pub Ordered : Option ℕ → List ℕ → Type 0
Ordered last [] = Unit {0}
Ordered last (t ∷ ts) = NotBefore last t × Ordered (some t) ts

-- Each time is in a later minute than the one before it.
abbrev pub LaterMinute : Option ℕ → ℕ → Type 0
LaterMinute none t = Unit {0}
LaterMinute (some last) t = minute last < minute t

abbrev pub Increasing : Option ℕ → List ℕ → Type 0
Increasing last [] = Unit {0}
Increasing last (t ∷ ts) = LaterMinute last t × Increasing (some t) ts

earlier :
    (last : Option ℕ) (t : ℕ) (ts : List ℕ)
    → NotBefore last t
    → Ordered (some t) ts
    → Ordered last ts
earlier last t [] h k = tt
earlier none t (u ∷ ts) h (k, rest) = (tt, rest)
earlier (some l) t (u ∷ ts) h (k, rest) = (omega arith, rest)

due-LaterMinute :
    (next : Schedule) (now : ℕ) (last : Option ℕ)
    → NotBefore last now
    → is_due next now last ≡ true
    → LaterMinute last now
unfolding is_due
due-LaterMinute next now none h k = tt
due-LaterMinute next now (some last) h k =
    let other : not (nat_beq (minute last) (minute now)) ≡ true =
      elim (Bool-cases (occurred now (next last))) [
        | inl e ↦ rw e at k
        | inr e ↦ (let no_match : false ≡ true = rw e at k in cc)
      ] in
    let apart : minute last ≢ minute now = λ e.
      (let same = (nat_beq_iff (minute last) (minute now)).1 e in
        let no_match : false ≡ true = rw same at other in cc) in
    omega arith

-- If the clock does not run back, a source fires at most once in each minute, whatever its schedule
-- says: each time it fires is in a later minute than the one before.
pub firings-Increasing :
    (next : Schedule) (wakes : List ℕ) (last : Option ℕ)
    → Ordered last wakes
    → Increasing last (firings next wakes last)
unfolding firings
firings-Increasing next [] last h = tt
firings-Increasing next (now ∷ wakes) last (h, rest) = elim (Bool-cases (is_due next now last)) [
  | inl e ↦ rw e (due-LaterMinute next now last h e, firings-Increasing next wakes (some now) rest)
  | inr e ↦ rw e (firings-Increasing next wakes last (earlier last now wakes h rest))
]
