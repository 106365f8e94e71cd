-- ===== src/Worker/Circuit.antt =====
-- src/queue.rs, `CircuitBreaker`. Each atomic field is read and written in one step; a time is in
-- milliseconds, and `now` is the instant that a call reads.
use qhook.Prelude.{
  ℕ, ◌+◌, ◌-◌, ◌%◌, ◌<◌, ◌≡◌, refl, Bool, true, false, not, ◌&&◌, Option, none, some, List, [], ◌∷◌,
  arith, nat_beq, leb, if◌then◌else◌,
}

pub record CircuitBreaker : Type 0 where
  pub failures : ℕ  -- u32
  pub threshold : ℕ  -- u32
  pub opened_at : Option ℕ
  pub cooldown : ℕ
  pub half_open_in_progress : Bool

pub data CircuitState : Type 0 where
  closed open_ half_open : CircuitState

abbrev pub u32_mod : ℕ
u32_mod = 4294967296

unfoldable pub new : ℕ → ℕ → CircuitBreaker
new threshold cooldown = record {
  failures = 0;
  threshold = threshold;
  opened_at = none;
  cooldown = cooldown;
  half_open_in_progress = false;
}

-- `at.elapsed() >= cooldown`; the clock is monotonic
abbrev pub cooled : ℕ → ℕ → ℕ → Bool
cooled cooldown now at = leb cooldown (now - at)

abbrev pub state_of : ℕ → ℕ → Option ℕ → CircuitState
state_of cooldown now none = closed
state_of cooldown now (some at) = if cooled cooldown now at then half_open else open_

unfoldable pub state : ℕ → CircuitBreaker → CircuitState
state now c = state_of c.cooldown now c.opened_at

unfoldable pub allow_request : ℕ → CircuitBreaker → CircuitBreaker × Bool
unfolding state
allow_request now c = elim (state now c) [
  | closed ↦ (c, true)
  | open_ ↦ (c, false)
  | half_open ↦ (record c { half_open_in_progress = true }, not c.half_open_in_progress)
]

unfoldable pub record_success : CircuitBreaker → CircuitBreaker
record_success c = record c { failures = 0; opened_at = none; half_open_in_progress = false }

abbrev pub was_half_open : ℕ → ℕ → Option ℕ → Bool
was_half_open cooldown now none = false
was_half_open cooldown now (some at) = cooled cooldown now at

abbrev pub is_none : Option ℕ → Bool
is_none none = true
is_none (some _) = false

-- The flag says whether the call opened the circuit.
unfoldable pub record_failure : ℕ → CircuitBreaker → CircuitBreaker × Bool
record_failure now c =
    let count = (c.failures + 1) % u32_mod in
    let c' = record c { half_open_in_progress = false; failures = count } in
    let again = was_half_open c.cooldown now c.opened_at in
    if leb c.threshold count
    then (if (if is_none c.opened_at then true else again)
        then (record c' { opened_at = some now }, nat_beq count c.threshold && not again)
        else (c', false))
    else (c', false)

-- A call by a delivery task, at the instant that it reads.
pub data Call : Type 0 where
  allow : ℕ → Call
  success : Call
  failure : ℕ → Call

abbrev pub call : Call → CircuitBreaker → CircuitBreaker
call (allow now) c = (allow_request now c).0
call success c = record_success c
call (failure now) c = (record_failure now c).0

unfoldable pub call_all : List Call → CircuitBreaker → CircuitBreaker
call_all [] c = c
call_all (k ∷ ks) c = call_all ks (call k c)

-- A closed circuit has seen fewer failures than the threshold, and a probe runs only where the
-- circuit has been opened.
pub record IsValid (c : CircuitBreaker) : Type 0 where
  pub below : is_none c.opened_at ≡ true → c.failures < c.threshold
  pub probing : c.half_open_in_progress ≡ true → is_none c.opened_at ≡ false

pub new-IsValid : (threshold cooldown : ℕ) → 0 < threshold → IsValid (new threshold cooldown)
unfolding new
new-IsValid threshold cooldown h = ground arith

threshold-call : (k : Call) (c : CircuitBreaker) → (call k c).threshold ≡ c.threshold
unfolding allow_request record_success record_failure
threshold-call (allow now) c = ground arith
threshold-call success c = refl
threshold-call (failure now) c = ground arith

call-IsValid : (k : Call) (c : CircuitBreaker) → 0 < c.threshold → IsValid c → IsValid (call k c)
unfolding allow_request record_success record_failure
call-IsValid (allow now) c h v = ground arith
call-IsValid success c h v = ground arith
call-IsValid (failure now) c h v = ground arith

-- Whatever calls the delivery tasks make, in any order and at any instants, on a circuit where it
-- held and whose threshold is above 0, a circuit that is
-- closed has seen fewer consecutive failures than the threshold since the last success, and a
-- probe is marked only while the circuit is not closed.
pub call_all-IsValid :
    (ks : List Call) (c : CircuitBreaker) → 0 < c.threshold → IsValid c → IsValid (call_all ks c)
unfolding call_all
call_all-IsValid [] c h v = v
call_all-IsValid (k ∷ ks) c h v =
    call_all-IsValid ks (call k c) (rw (threshold-call k c) h) (call-IsValid k c h v)
