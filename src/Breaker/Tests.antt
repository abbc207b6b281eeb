-- ===== src/Breaker/Tests.antt =====
-- The breaker of core/circuit_breaker.py on concrete input.
use provenancerank.Prelude.{◌≡◌, ◌↔◌, ◌<◌, refl, false, [], ◌∷◌, arith}
use provenancerank.Breaker.{
  Breaker, closed, open_circuit, new, attempt, succeed, fail, run, can_attempt, on_failure, step,
  healthy,
}
use provenancerank.Breaker.Counting.{streak, run-closed_iff}

-- An open breaker of two failures, with a cooldown of 30.
abbrev opened : Breaker
opened = record {
  fail_max = 2;
  reset_timeout = 30;
  state = open_circuit;
  failures = 2;
  opened_at = 5;
}

trip : run (new 2 30) (attempt 1 ∷ fail 2 ∷ attempt 3 ∷ fail 5 ∷ []) ≡ opened
unfolding run step new can_attempt on_failure
trip = refl

unhealthy : healthy opened ≡ false
unfolding healthy
unhealthy = refl

run-closed_iff_example :
    ((run (new 2 30) (fail 1 ∷ succeed ∷ fail 3 ∷ [])).failures
      ≡ streak 0 (fail 1 ∷ succeed ∷ fail 3 ∷ []))
    × (((run (new 2 30) (fail 1 ∷ succeed ∷ fail 3 ∷ [])).state ≡ closed)
        ↔ (streak 0 (fail 1 ∷ succeed ∷ fail 3 ∷ []) < 2))
run-closed_iff_example = run-closed_iff 2 30 (fail 1 ∷ succeed ∷ fail 3 ∷ []) (omega arith)
