-- ===== src/Breaker.antt =====
-- The circuit breaker of core/circuit_breaker.py. A clock reading is an argument, in ticks; a call
-- of the wrapped dependency is seen as two moments, its admission and its outcome, because other
-- calls run while it is awaited.
use provenancerank.Prelude.{ℕ, ◌+◌, Bool, true, false, ◌||◌, List, [], ◌∷◌, leb, if◌then◌else◌}
pub mod Counting
pub mod Admission
mod Tests

pub data Circuit : Type 0 where
  closed open_circuit half_open : Circuit

-- `CircuitBreaker`, less its name, which only the log reads.
pub record Breaker : Type 0 where
  pub fail_max : ℕ
  pub reset_timeout : ℕ
  pub state : Circuit
  pub failures : ℕ
  pub opened_at : ℕ

abbrev is_open : Circuit → Bool
is_open open_circuit = true
is_open _ = false

abbrev is_half_open : Circuit → Bool
is_half_open half_open = true
is_half_open _ = false

-- `__init__`
pub new : ℕ → ℕ → Breaker
new fail_max reset_timeout = record {
  fail_max = fail_max;
  reset_timeout = reset_timeout;
  state = closed;
  failures = 0;
  opened_at = 0;
}

-- `_can_attempt` at the clock reading `now`. `now - opened_at >= reset_timeout` is written as a
-- sum, since `-` on ℕ stops at 0.
pub can_attempt : Breaker → ℕ → Breaker × Bool
can_attempt b now =
    if is_open b.state
    then if leb (b.opened_at + b.reset_timeout) now
      then (record b { state = half_open }, true)
      else (b, false)
    else (b, true)

-- `_on_success`
pub on_success : Breaker → Breaker
on_success b = record b { failures = 0; state = closed }

-- `_on_failure` at the clock reading `now`
pub on_failure : Breaker → ℕ → Breaker
on_failure b now =
    let b' = record b { failures = b.failures + 1 } in
    if leb b'.fail_max b'.failures || is_half_open b'.state
    then record b' { state = open_circuit; opened_at = now }
    else b'

-- `healthy`
pub healthy : Breaker → Bool
healthy b = if is_open b.state then false else true

-- What the awaited `fn` did.
pub data Outcome {ℓ} (A : Type ℓ) : Type ℓ where
  returned : A → Outcome A
  raised : Outcome A

-- What `call` does: the result of `fn`, the exception of `fn`, or `CircuitOpen`.
pub data Reply {ℓ} (A : Type ℓ) : Type ℓ where
  result : A → Reply A
  error : Reply A
  circuit_open : Reply A

settle {ℓ} : {A : Type ℓ} → Breaker → Outcome A → ℕ → Breaker × Reply A
settle b (returned a) later = (on_success b, result a)
settle b raised later = (on_failure b later, error)

-- `call`, with no other call on the same breaker while `fn` is awaited.
pub call {ℓ} : {A : Type ℓ} → Breaker → ℕ → Outcome A → ℕ → Breaker × Reply A
unfolding settle
call b now outcome later =
    let (b', admitted) = can_attempt b now in
    if admitted then settle b' outcome later else (b', circuit_open)

-- The moments of calls that overlap, in the order in which they happen on the event loop.
pub data Event : Type 0 where
  attempt : ℕ → Event
  succeed : Event
  fail : ℕ → Event

pub step : Breaker → Event → Breaker
step b (attempt now) = (can_attempt b now).0
step b succeed = on_success b
step b (fail now) = on_failure b now

pub run : Breaker → List Event → Breaker
run b [] = b
run b (e ∷ es) = run (step b e) es
