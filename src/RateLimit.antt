-- ===== src/RateLimit.antt =====
-- `RateLimiter` of services/ratelimit.py, over the cache of services/cache.py. Time is counted in
-- microseconds since the epoch. The key `rl:<identity>:<window>` is a function of both parts, whose
-- text form is left to the parameter `key_of`.
use provenancerank.Prelude.{ℕ, ◌-◌, ◌*◌, ◌/◌, ◌%◌, Bool, true, List, [], ◌∷◌, leb, if◌then◌else◌}
use provenancerank.Cache.{Cache}
use provenancerank.Cache
pub mod Window
mod Tests

pub record RateDecision : Type 0 where
  pub allowed : Bool
  pub limit : ℕ
  pub remaining : ℕ
  pub retry_after : ℕ

-- `RateLimiter`, less the cache, which is passed on from call to call.
pub record RateLimiter : Type 0 where
  pub per_minute : ℕ
  pub enabled : Bool

-- The three readings of the clock that one `check` makes: for the window, in `incr`, and for the
-- time to wait.
pub record Clock : Type 0 where
  pub at_window : ℕ
  pub at_incr : ℕ
  pub at_retry : ℕ

abbrev pub second : ℕ
second = 1_000_000

abbrev pub minute : ℕ
minute = 60_000_000

-- `int(time.time() // 60)`
abbrev pub window_of : ℕ → ℕ
window_of t = t / minute

module _ {I K V : Type 0} (dec : Discrete K) (key_of : I → ℕ → K) where
  -- `check`
  pub check : RateLimiter → Cache K V → I → Clock → Cache K V × RateDecision
  check l c identity clock =
      let key = key_of identity (window_of clock.at_window) in
      let (c', count) = Cache.incr dec c key minute clock.at_incr in
      let allowed = leb count l.per_minute in
      if l.enabled
      then (
        c',
        record {
          allowed = allowed;
          limit = l.per_minute;
          remaining = l.per_minute - count;
          retry_after = if allowed then 0 else 60 - (clock.at_retry / second) % 60;
        },
      )
      else (
        c,
        record { allowed = true; limit = l.per_minute; remaining = l.per_minute; retry_after = 0 },
      )

  -- A sequence of checks, with each identity's answer.
  pub checks : RateLimiter → Cache K V → List (I × Clock) → List (I × RateDecision)
  checks l c [] = []
  checks l c ((identity, clock) ∷ requests) =
      let (c', decision) = check l c identity clock in (identity, decision) ∷ checks l c' requests
