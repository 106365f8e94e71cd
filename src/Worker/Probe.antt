-- ===== src/Worker/Probe.antt =====
-- src/queue.rs, `CircuitBreaker`: when a circuit opens, and who may test it.
use qhook.Prelude.{
  ℕ, ◌+◌, ◌-◌, ◌<◌, ◌≡◌, refl, Bool, true, false, none, some, List, [], ◌∷◌, length, All, arith,
  if◌then◌else◌,
}
use qhook.Worker.Circuit.{
  CircuitBreaker, closed, u32_mod, cooled, state, allow_request, record_failure,
}

-- Requests at the given instants, with the number that was allowed.
unfoldable pub request_all : List ℕ → CircuitBreaker → CircuitBreaker × ℕ
request_all [] c = (c, 0)
request_all (now ∷ nows) c =
    let (c', allowed) = allow_request now c in
    let (c'', n) = request_all nows c' in (c'', (if allowed then 1 else 0) + n)

probing_rejects :
    (now : ℕ) (c : CircuitBreaker) {at : ℕ}
    → c.opened_at ≡ some at
    → c.half_open_in_progress ≡ true
    → allow_request now c ≡ (c, false)
unfolding allow_request
probing_rejects now c o h = ground arith

-- A probe that is never recorded blocks the circuit: while it is marked and no call of
-- `record_success` or `record_failure` follows, no request is allowed at any instant, also long
-- after the cooldown, and the circuit stays as it is.
pub unrecorded_probe_blocks :
    (nows : List ℕ) (c : CircuitBreaker) {at : ℕ}
    → c.opened_at ≡ some at
    → c.half_open_in_progress ≡ true
    → request_all nows c ≡ (c, 0)
unfolding request_all
unrecorded_probe_blocks [] c o h = refl
unrecorded_probe_blocks (now ∷ nows) c o h =
    rw (probing_rejects now c o h, unrecorded_probe_blocks nows c o h)

abbrev probed : CircuitBreaker → CircuitBreaker
probed c = record c { half_open_in_progress = true }

first_probe :
    (now : ℕ) (c : CircuitBreaker) {at : ℕ}
    → c.opened_at ≡ some at
    → cooled c.cooldown now at ≡ true
    → c.half_open_in_progress ≡ false
    → allow_request now c ≡ (probed c, true)
unfolding allow_request
first_probe now c o k h = ground arith

-- Of the requests that reach a half-open circuit with no probe under way, exactly the first is
-- allowed, however many follow before its result is recorded.
pub half_open_one_probe :
    (now : ℕ) (nows : List ℕ) (c : CircuitBreaker) {at : ℕ}
    → c.opened_at ≡ some at
    → cooled c.cooldown now at ≡ true
    → c.half_open_in_progress ≡ false
    → request_all (now ∷ nows) c ≡ (probed c, 1)
unfolding request_all
half_open_one_probe now nows c o k h =
    rw (first_probe now c o k h, unrecorded_probe_blocks nows (probed c) o refl)

-- Failures at the given instants, with the answers.
unfoldable pub fail_all : List ℕ → CircuitBreaker → CircuitBreaker × List Bool
fail_all [] c = (c, [])
fail_all (now ∷ nows) c =
    let (c', opened) = record_failure now c in
    let (c'', rest) = fail_all nows c' in (c'', opened ∷ rest)

abbrev failed : ℕ → CircuitBreaker → CircuitBreaker
failed n c = record c { half_open_in_progress = false; failures = n }

early_failure :
    (now : ℕ) (c : CircuitBreaker)
    → c.opened_at ≡ none
    → c.threshold < u32_mod
    → c.failures + 1 < c.threshold
    → record_failure now c ≡ (failed (c.failures + 1) c, false)
unfolding record_failure
early_failure now c o b h = ground arith

last_failure :
    (now : ℕ) (c : CircuitBreaker)
    → c.opened_at ≡ none
    → c.threshold < u32_mod
    → c.failures + 1 ≡ c.threshold
    → record_failure now c ≡ (record (failed c.threshold c) { opened_at = some now }, true)
unfolding record_failure
last_failure now c o b h = ground arith

closed_state : (now : ℕ) (c : CircuitBreaker) → c.opened_at ≡ none → state now c ≡ closed
unfolding state
closed_state now c o = ground arith

open_rejects :
    (later last : ℕ) (c : CircuitBreaker)
    → later - last < c.cooldown
    → (allow_request later (record c { opened_at = some last })).1 ≡ false
unfolding allow_request
open_rejects later last c h = ground arith

-- A circuit that is closed, with a threshold below 2^32, opens with the failure that reaches the threshold, and not before: the
-- failures up to it answer false and keep it closed, that one answers true, and from its instant on
-- the circuit rejects every request, `later`, before the cooldown has passed.
pub consecutive_failures_open :
    (nows : List ℕ) (last later : ℕ) (c : CircuitBreaker)
    → c.opened_at ≡ none
    → c.threshold < u32_mod
    → c.failures + length nows + 1 ≡ c.threshold
    → later - last < c.cooldown
    → All (λ opened. opened ≡ false) (fail_all nows c).1
      × (state later (fail_all nows c).0 ≡ closed)
      × ((record_failure last (fail_all nows c).0).1 ≡ true)
      × ((allow_request later (record_failure last (fail_all nows c).0).0).1 ≡ false)
unfolding fail_all
consecutive_failures_open [] last later c o b h soon =
    let trips = last_failure last c o b (omega arith) in
    (
      tt,
      closed_state later c o,
      rw trips,
      rw trips (open_rejects later last (failed c.threshold c) soon),
    )
consecutive_failures_open (now ∷ nows) last later c o b h soon =
    let (answers, still, trips, rejects) =
      consecutive_failures_open nows last later (failed (c.failures + 1) c) o b (omega arith)
        soon in
    rw (early_failure now c o b (omega arith)) ((refl, answers), still, trips, rejects)
