-- ===== src/Breaker/Admission.antt =====
-- Which calls a breaker lets through: core/circuit_breaker.py.
use provenancerank.Prelude.{ℕ, ◌+◌, ◌≤◌, ◌<◌, ◌≡◌, refl, ◌↔◌, Bool, true, List, [], ◌∷◌, map, arith}
use provenancerank.Breaker.{
  closed, open_circuit, half_open, Breaker, Outcome, error, circuit_open, result, returned, raised,
  can_attempt, on_success, on_failure, call,
}

-- A call is short-circuited exactly when the breaker is open and the cooldown is not over, and
-- exactly then the call leaves the breaker as it was and answers `CircuitOpen`, whatever the
-- dependency would have done.
call-circuit_open_iff {ℓ} :
    {A : Type ℓ} (b : Breaker) (now later : ℕ) (o : Outcome A)
    → (((call b now o later).1 ≡ circuit_open)
        ↔ ((b.state ≡ open_circuit) × (now < b.opened_at + b.reset_timeout)))
      × ((call b now o later ≡ (b, circuit_open))
          ↔ ((b.state ≡ open_circuit) × (now < b.opened_at + b.reset_timeout)))
unfolding call can_attempt
call-circuit_open_iff b now later (returned a) = ground arith
call-circuit_open_iff b now later raised = ground arith

-- The first call after the cooldown decides: a result closes the breaker with its count at 0 and is
-- handed on, and an exception opens it again for a whole cooldown from that moment.
call_probe {ℓ} :
    {A : Type ℓ} (b : Breaker) (now later : ℕ) (a : A)
    → b.state ≡ open_circuit
    → b.opened_at + b.reset_timeout ≤ now
    → (call b now (returned a) later ≡ (record b { state = closed; failures = 0 }, result a))
      × (call {A = A} b now raised later
          ≡ (record b { failures = b.failures + 1; opened_at = later }, error))
unfolding call can_attempt on_success on_failure
call_probe b now later a s h = (ground arith, ground arith)

-- The admissions of calls that all arrive before any of them ends.
pub attempts : Breaker → List ℕ → Breaker × List Bool
attempts b [] = (b, [])
attempts b (now ∷ times) =
    let (b', admitted) = can_attempt b now in
    let (b'', rest) = attempts b' times in (b'', admitted ∷ rest)

attempts_half_open :
    (b : Breaker) (times : List ℕ)
    → b.state ≡ half_open
    → attempts b times ≡ (b, map (λ _. true) times)
unfolding attempts can_attempt
attempts_half_open b [] h = refl
attempts_half_open b (now ∷ times) h = ground (arith, attempts_half_open b times h)

-- Once the cooldown is over every call that arrives before the first one ends is admitted, however
-- many there are: the half-open breaker does not hold the others back.
attempts_after_cooldown :
    (b : Breaker) (now : ℕ) (times : List ℕ)
    → b.state ≡ open_circuit
    → b.opened_at + b.reset_timeout ≤ now
    → attempts b (now ∷ times) ≡ (record b { state = half_open }, true ∷ map (λ _. true) times)
unfolding attempts can_attempt
attempts_after_cooldown b now times s h =
    ground (arith, attempts_half_open (record b { state = half_open }) times refl)
