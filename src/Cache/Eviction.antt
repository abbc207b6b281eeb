-- ===== src/Cache/Eviction.antt =====
-- What `_evict_if_needed` of services/cache.py does.
use mathlib.Core.List.{lookup}
use provenancerank.Prelude.{
  ℕ, zero, suc, ◌+◌, ◌-◌, ◌≤◌, ◌<◌, ◌≡◌, refl, true, some, List, [], ◌∷◌, length, arith,
}
use provenancerank.Dict.{has_key}
use native.Mathlib.Decide.{dec_le}
use provenancerank.Dict.Laws.{length-remove_found}
use provenancerank.Cache.{Policy, lru, lfu, fifo, Cache, least_from, victim, drop_key, evict}

module _ {K : Type 0} (dec : Discrete K) where
  least_from-has_key :
      {V : Type 0} (freq : List (K × ℕ)) (best : K) (v : V) (d : List (K × V))
      → has_key dec (least_from dec freq best d) ((best, v) ∷ d) ≡ true
  unfolding least_from lookup has_key
  least_from-has_key freq best v [] = ground arith
  least_from-has_key freq best v ((k, w) ∷ d) =
      ground (arith, least_from-has_key freq k w d, least_from-has_key freq best v d)

  -- A dictionary that is not empty has a victim, and it is one of its keys.
  pub victim_found :
      {V : Type 0} (policy : Policy) (freq : List (K × ℕ)) (d : List (K × V))
      → 0 < length d
      → (k : K) × (victim dec policy freq d ≡ some k) × (has_key dec k d ≡ true)
  unfolding victim lookup has_key
  victim_found policy freq [] h = elim h [ ]
  victim_found lfu freq ((k, v) ∷ d) h =
      (least_from dec freq k d, refl, least_from-has_key freq k v d)
  victim_found lru freq ((k, v) ∷ d) h = (k, refl, ground arith)
  victim_found fifo freq ((k, v) ∷ d) h = (k, refl, ground arith)

module _ {K V : Type 0} (dec : Discrete K) where
  pub evict-zero : (c : Cache K V) → evict dec 0 c ≡ c
  unfolding evict
  evict-zero c = refl

  pub evict-within : (n : ℕ) (c : Cache K V) → length c.entries ≤ c.capacity → evict dec n c ≡ c
  unfolding evict
  evict-within zero c h = refl
  evict-within (suc n) c h = ground arith

  pub evict_round :
      (n : ℕ) (c : Cache K V) (k : K)
      → c.capacity < length c.entries
      → victim dec c.policy c.freq c.entries ≡ some k
      → evict dec (suc n) c
        ≡ evict dec n (record (drop_key dec c k) { evictions = c.evictions + 1 })
  unfolding evict
  evict_round n c k h e = ground arith

  -- The rounds of `_evict_if_needed` come to an end with the capacity respected, and the evictions
  -- counted are as many as the entries that were over it.
  pub evict_lengths :
      (n : ℕ) (c : Cache K V)
      → length c.entries ≤ n
      → (length (evict dec n c).entries + (length c.entries - c.capacity) ≡ length c.entries)
        × ((evict dec n c).evictions ≡ c.evictions + (length c.entries - c.capacity))
        × ((evict dec n c).capacity ≡ c.capacity)
  unfolding drop_key
  evict_lengths zero c h = rw (evict-within zero c (omega arith)) (omega arith)
  evict_lengths (suc n) c h = elim (dec_le (length c.entries) c.capacity) [
    | yes fits ↦ rw (evict-within (suc n) c fits) (omega arith)
    | no over ↦
        let (k, e, found) = victim_found dec c.policy c.freq c.entries (omega arith) in
        let fewer = length-remove_found dec k c.entries found in
        let rest =
          evict_lengths n (record (drop_key dec c k) { evictions = c.evictions + 1 })
            (omega (arith, fewer)) in
        rw (evict_round n c k (omega arith) e) (omega (arith, fewer, rest))
  ]
