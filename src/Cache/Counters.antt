-- ===== src/Cache/Counters.antt =====
-- The counters of `incr` in services/cache.py.
use mathlib.Core.List.{lookup}
use provenancerank.Prelude.{ℕ, ◌+◌, ◌≤◌, ◌<◌, ◌≡◌, ◌≢◌, none, some, arith}
use provenancerank.Dict.Laws.{lookup-assign_self, lookup-assign_ne}
use provenancerank.Cache.{Cache, incr}

module _ {K V : Type 0} (dec : Discrete K) (c : Cache K V) (k : K) (ttl now : ℕ) where
  -- A first count starts the counter's time, if the clock is past the epoch.
  pub incr_fresh :
      lookup dec k c.counters ≡ none
      → 0 < now
      → ((incr dec c k ttl now).1 ≡ 1)
        × (lookup dec k (incr dec c k ttl now).0.counters ≡ some (1, now + ttl))
  unfolding incr
  incr_fresh h pos = ground (arith, lookup-assign_self dec k (1, now + ttl) c.counters)

  -- A counter whose time is not over goes on, and its time is not prolonged.
  pub incr_running :
      (n e : ℕ)
      → lookup dec k c.counters ≡ some (n, e)
      → now ≤ e
      → ((incr dec c k ttl now).1 ≡ n + 1)
        × (lookup dec k (incr dec c k ttl now).0.counters ≡ some (n + 1, e))
  unfolding incr
  incr_running n e h running = ground (arith, lookup-assign_self dec k (n + 1, e) c.counters)

  -- A counter whose time is over starts again.
  pub incr_expired :
      (n e : ℕ)
      → lookup dec k c.counters ≡ some (n, e)
      → e < now
      → ((incr dec c k ttl now).1 ≡ 1)
        × (lookup dec k (incr dec c k ttl now).0.counters ≡ some (1, now + ttl))
  unfolding incr
  incr_expired n e h over = ground (arith, lookup-assign_self dec k (1, now + ttl) c.counters)

  pub lookup-incr_ne :
      (q : K) → q ≢ k → lookup dec q (incr dec c k ttl now).0.counters ≡ lookup dec q c.counters
  unfolding incr
  lookup-incr_ne q h = lookup-assign_ne dec q k _ c.counters h
