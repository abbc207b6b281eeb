-- ===== src/RateLimit/Tests.antt =====
-- The limiter of services/ratelimit.py on concrete input.
use mathlib.Core.List.{lookup}
use native.Mathlib.Decide.{ℕ_discrete}
use provenancerank.Prelude.{ℕ, ◌+◌, ◌*◌, ◌≡◌, refl, true, false, List, [], ◌∷◌, arith, map, length}
use provenancerank.Cache.{lru, Cache}
use provenancerank.Cache
use provenancerank.RateLimit.{RateLimiter, Clock, check, checks}
use provenancerank.RateLimit.Window.{admitted, answers_of, checks-admitted}

abbrev limiter : RateLimiter
limiter = record { per_minute = 2; enabled = true }

-- The key of an identity in a window.
abbrev key : ℕ → ℕ → ℕ
key i w = 1000 * i + w

abbrev counting : Cache ℕ ℕ
counting = record {
  capacity = 10;
  policy = lru;
  entries = [];
  freq = [];
  counters = (key 7 1, (2, 130_000_000)) ∷ [];
  evictions = 0;
}

abbrev clock : ℕ → Clock
clock t = record { at_window = t; at_incr = t; at_retry = t }

refusal :
    (check ℕ_discrete key limiter counting 7 (clock 70_000_000)).1
    ≡ record { allowed = false; limit = 2; remaining = 0; retry_after = 50 }
unfolding check Cache.incr ℕ_discrete lookup
refusal = refl

abbrev requests : List (ℕ × Clock)
requests =
    (3, clock 61_000_000)
    ∷ (4, clock 62_000_000)
    ∷ (3, clock 63_000_000)
    ∷ (3, clock 64_000_000)
    ∷ []

checks-admitted_example :
    map (λ d. d.allowed) (answers_of ℕ_discrete 3 (checks ℕ_discrete key limiter counting requests))
    ≡ admitted 2 (length (answers_of ℕ_discrete 3 requests))
checks-admitted_example =
    checks-admitted ℕ_discrete key ℕ_discrete limiter 1 3 refl (omega arith)
      (λ j apart same. apart (omega arith)) counting requests
      (
        record { window = refl; forward = omega arith; before_end = omega arith },
        (
          record { window = refl; forward = omega arith; before_end = omega arith },
          (
            record { window = refl; forward = omega arith; before_end = omega arith },
            (record { window = refl; forward = omega arith; before_end = omega arith }, tt),
          ),
        ),
      )
      (unfold lookup ℕ_discrete in refl)
