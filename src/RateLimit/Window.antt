-- ===== src/RateLimit/Window.antt =====
-- What one identity gets in one window of services/ratelimit.py.
use mathlib.Core.List.{lookup}
use mathlib.Core.Logic.{ite}
use provenancerank.Prelude.{
  ℕ, zero, suc, ◌+◌, ◌-◌, ◌*◌, ◌≤◌, ◌<◌, ◌≡◌, ◌≢◌, refl, ◌⊎◌, inl, inr, Bool, true, false, none,
  some, List, [], ◌∷◌, map, leb, leb→le, arith, All, Bool-cases, length,
}
use provenancerank.Cache.Counters.{incr_fresh, incr_running, lookup-incr_ne}
use provenancerank.Cache.{Cache}
use provenancerank.Cache
use provenancerank.RateLimit.{RateLimiter, Clock, second, minute, window_of, check, checks}

-- The first `limit` of `n` requests are admitted, and no other.
pub admitted : ℕ → ℕ → List Bool
admitted limit zero = []
admitted zero (suc n) = false ∷ admitted zero n
admitted (suc limit) (suc n) = true ∷ admitted limit n

admitted-suc :
    (limit n m : ℕ)
    → admitted (limit - n) (suc m) ≡ leb (n + 1) limit ∷ admitted (limit - (n + 1)) m
unfolding admitted
admitted-suc limit n m = elim (Bool-cases (leb (n + 1) limit)) [
  | inl fits ↦
      let e : limit - n ≡ suc (limit - (n + 1)) = omega (arith, leb→le _ _ fits) in rw (e, fits)
  | inr over ↦
      let e : limit - n ≡ 0 = ground arith in
      let e' : limit - (n + 1) ≡ 0 = omega arith in rw (e, e', over)
]

-- The answers that one identity got.
pub answers_of {ℓ} : {I A : Type ℓ} → Discrete I → I → List (I × A) → List A
answers_of same i [] = []
answers_of same i ((j, a) ∷ l) = ite (same i j) (a ∷ answers_of same i l) (answers_of same i l)

module _ {I A : Type 0} (same : Discrete I) (i j : I) (a : A) (l : List (I × A)) where
  answers_of_mine : i ≡ j → answers_of same i ((j, a) ∷ l) ≡ a ∷ answers_of same i l
  unfolding answers_of
  answers_of_mine h = ground arith

  answers_of_other : i ≢ j → answers_of same i ((j, a) ∷ l) ≡ answers_of same i l
  unfolding answers_of
  answers_of_other h = ground arith

-- A request of the window `w`: the clock does not go back, and the counter is asked before the
-- window is over.
pub record InWindow (w : ℕ) (clock : Clock) : Type 0 where
  pub window : window_of clock.at_window ≡ w
  pub forward : clock.at_window ≤ clock.at_incr
  pub before_end : clock.at_incr ≤ (w + 1) * minute

module _ {I K V : Type 0} (dec : Discrete K) (key_of : I → ℕ → K) where
  -- A refusal names a time to wait, of at most a minute, after which a later window has begun.
  check-retry_after :
      (l : RateLimiter) (c : Cache K V) (i : I) (clock : Clock)
      → let decision = (check dec key_of l c i clock).1 in
        decision.allowed ≡ false
        → (decision.retry_after ≤ 60)
          × (window_of clock.at_retry < window_of (clock.at_retry + decision.retry_after * second))
  unfolding check
  check-retry_after l c i clock h = ground arith

-- The counter of a key in the window `w` stands at `n`, and lasts until the window is over.
CountsTo : {K : Type 0} → Discrete K → ℕ → ℕ → K → List (K × (ℕ × ℕ)) → Type 0
CountsTo dec w n k d =
    (lookup dec k d ≡ none) × (n ≡ 0)
    ⊎ ((e : ℕ) × (lookup dec k d ≡ some (n, e)) × ((w + 1) * minute ≤ e))

module _ {I K V : Type 0} (dec : Discrete K) (key_of : I → ℕ → K) where
  incr-CountsTo :
      (w n : ℕ) (c : Cache K V) (k : K) (clock : Clock)
      → 0 < w
      → InWindow w clock
      → CountsTo dec w n k c.counters
      → ((Cache.incr dec c k minute clock.at_incr).1 ≡ n + 1)
        × CountsTo dec w (n + 1) k (Cache.incr dec c k minute clock.at_incr).0.counters
  unfolding CountsTo
  incr-CountsTo w n c k clock pos inside (inl (absent, zero_count)) =
      let (count, later) = incr_fresh dec c k minute clock.at_incr absent (omega (arith, inside)) in
      (omega arith, inr (clock.at_incr + minute, rw zero_count later, omega (arith, inside)))
  incr-CountsTo w n c k clock pos inside (inr (e, found, lasts)) =
      let (count, later) =
        incr_running dec c k minute clock.at_incr n e found (omega (arith, inside)) in
      (count, inr (e, later, lasts))

  incr-CountsTo_ne :
      (w n : ℕ) (c : Cache K V) (q k : K) (now : ℕ)
      → q ≢ k
      → CountsTo dec w n q c.counters
      → CountsTo dec w n q (Cache.incr dec c k minute now).0.counters
  unfolding CountsTo
  incr-CountsTo_ne w n c q k now h counts = rw (lookup-incr_ne dec c k minute now q h) counts

  check_enabled :
      (l : RateLimiter) (c : Cache K V) (j : I) (clock : Clock)
      → l.enabled ≡ true
      → let counted =
          Cache.incr dec c (key_of j (window_of clock.at_window)) minute clock.at_incr in
        ((check dec key_of l c j clock).0 ≡ counted.0)
        × ((check dec key_of l c j clock).1.allowed ≡ leb counted.1 l.per_minute)
  unfolding check
  check_enabled l c j clock on = rw (on, check) (refl, refl)

  module _ (same : Discrete I) (l : RateLimiter) (w : ℕ) (i : I) (on : l.enabled ≡ true)
      (pos : 0 < w) (separate : (j : I) → i ≢ j → key_of i w ≢ key_of j w) where
    check_mine :
        (n : ℕ) (c : Cache K V) (j : I) (clock : Clock)
        → InWindow w clock
        → i ≡ j
        → CountsTo dec w n (key_of i w) c.counters
        → ((check dec key_of l c j clock).1.allowed ≡ leb (n + 1) l.per_minute)
          × CountsTo dec w (n + 1) (key_of i w) (check dec key_of l c j clock).0.counters
    check_mine n c j clock here mine counts =
        let (after, verdict) = check_enabled l c j clock on in
        let key : key_of j (window_of clock.at_window) ≡ key_of i w =
          rw (here.window, ← mine) refl in
        let (count, next) = incr-CountsTo w n c (key_of i w) clock pos here counts in
        rw (after, verdict, key) (rw count refl, next)

    check_other :
        (n : ℕ) (c : Cache K V) (j : I) (clock : Clock)
        → InWindow w clock
        → i ≢ j
        → CountsTo dec w n (key_of i w) c.counters
        → CountsTo dec w n (key_of i w) (check dec key_of l c j clock).0.counters
    check_other n c j clock here other counts =
        rw ((check_enabled l c j clock on).0, here.window)
          (incr-CountsTo_ne w n c (key_of i w) (key_of j w) clock.at_incr (separate j other) counts)

    answers-admitted :
        (n : ℕ) (c : Cache K V) (requests : List (I × Clock))
        → All (λ r. InWindow w r.1) requests
        → CountsTo dec w n (key_of i w) c.counters
        → map (λ d. d.allowed) (answers_of same i (checks dec key_of l c requests))
          ≡ admitted (l.per_minute - n) (length (answers_of same i requests))
    unfolding answers_of admitted checks
    answers-admitted n c [] inside counts = refl
    answers-admitted n c ((j, clock) ∷ requests) (here, inside) counts =
        let next = check dec key_of l c j clock in
        elim (same i j) [
          | yes mine ↦
              let (verdict, counts') = check_mine n c j clock here mine counts in
              rw (answers_of_mine same i j next.1 (checks dec key_of l next.0 requests) mine) (
                rw (answers_of_mine same i j clock requests mine) (
                  rw (
                    admitted-suc,
                    verdict,
                    answers-admitted (n + 1) next.0 requests inside counts',
                  )))
          | no other ↦
              rw (answers_of_other same i j next.1 (checks dec key_of l next.0 requests) other) (
                rw (answers_of_other same i j clock requests other) (
                  answers-admitted n next.0 requests inside
                    (check_other n c j clock here other counts)))
        ]

    -- Take an enabled limiter and any interleaving of requests in one window after the epoch's,
    -- over a cache that has no counter for the identity in that window, where no other identity
    -- shares its key. Of the identity's own requests the first `per_minute` are admitted and the
    -- others are refused, whatever the other identities ask.
    pub checks-admitted :
        (c : Cache K V) (requests : List (I × Clock))
        → All (λ r. InWindow w r.1) requests
        → lookup dec (key_of i w) c.counters ≡ none
        → map (λ d. d.allowed) (answers_of same i (checks dec key_of l c requests))
          ≡ admitted l.per_minute (length (answers_of same i requests))
    unfolding CountsTo
    checks-admitted c requests inside fresh =
        let whole : l.per_minute - 0 ≡ l.per_minute = omega arith in
        rw whole at (answers-admitted 0 c requests inside (inl (fresh, refl)))
