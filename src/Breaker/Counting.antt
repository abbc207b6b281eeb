-- ===== src/Breaker/Counting.antt =====
-- What a breaker counts: core/circuit_breaker.py over every interleaving of calls.
use provenancerank.Prelude.{ℕ, ◌+◌, ◌<◌, ◌≡◌, ◌↔◌, List, [], ◌∷◌, arith}
use provenancerank.Breaker.{
  closed, Breaker, new, Event, attempt, succeed, fail, step, run, can_attempt, on_success,
  on_failure,
}

-- The failures since the last success, read off the events alone.
pub streak : ℕ → List Event → ℕ
streak n [] = n
streak n (attempt now ∷ es) = streak n es
streak n (succeed ∷ es) = streak 0 es
streak n (fail now ∷ es) = streak (n + 1) es

pub record Counts (n : ℕ) (k : ℕ) (b : Breaker) : Type 0 where
  pub cap : b.fail_max ≡ k
  pub count : b.failures ≡ n
  pub shut : b.state ≡ closed → n < k
  pub tripped : n < k → b.state ≡ closed

attempt-Counts : (n k : ℕ) (b : Breaker) (now : ℕ) → Counts n k b → Counts n k (can_attempt b now).0
unfolding can_attempt
attempt-Counts n k b now c = ground arith

fail-Counts : (n k : ℕ) (b : Breaker) (now : ℕ) → Counts n k b → Counts (n + 1) k (on_failure b now)
unfolding on_failure
fail-Counts n k b now c = ground arith

succeed-Counts : (n k : ℕ) (b : Breaker) → 0 < k → Counts n k b → Counts 0 k (on_success b)
unfolding on_success
succeed-Counts n k b h c = ground arith

run-Counts :
    (k : ℕ) (es : List Event) (n : ℕ) (b : Breaker)
    → 0 < k
    → Counts n k b
    → Counts (streak n es) k (run b es)
unfolding run step streak
run-Counts k [] n b h c = c
run-Counts k (attempt now ∷ es) n b h c =
    run-Counts k es n (can_attempt b now).0 h (attempt-Counts n k b now c)
run-Counts k (succeed ∷ es) n b h c = run-Counts k es 0 (on_success b) h (succeed-Counts n k b h c)
run-Counts k (fail now ∷ es) n b h c =
    run-Counts k es (n + 1) (on_failure b now) h (fail-Counts n k b now c)

new-Counts : (k t : ℕ) → 0 < k → Counts 0 k (new k t)
unfolding new
new-Counts k t h = ground arith

-- For a positive `fail_max`, after any interleaving of admissions, successes and failures, a new
-- breaker's counter is the number of failures since the last success, and the breaker is closed
-- exactly while that number is below `fail_max`.
pub run-closed_iff :
    (k t : ℕ) (es : List Event)
    → 0 < k
    → ((run (new k t) es).failures ≡ streak 0 es)
      × (((run (new k t) es).state ≡ closed) ↔ (streak 0 es < k))
run-closed_iff k t es h =
    let c = run-Counts k es 0 (new k t) h (new-Counts k t h) in (c.count, (c.shut, c.tripped))
