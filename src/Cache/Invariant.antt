-- ===== src/Cache/Invariant.antt =====
-- The invariant of `InMemoryCache` (services/cache.py) and its operations.
use mathlib.Core.List.{lookup}
use native.Mathlib.Decide.{dec_le}
use provenancerank.Prelude.{
  ℕ, zero, suc, ◌+◌, ◌≤◌, ◌≡◌, refl, ◌∙◌, inl, inr, Bool, true, Option, List, [], ◌∷◌, length,
  if◌then◌else◌, arith, Bool-cases,
}
use provenancerank.Dict.{has_key, assign, move_to_end, Distinct}
use provenancerank.Dict.Laws.{
  length-moved, has_key-moved, moved-Distinct, has_key-assign, has_key-remove, assign-Distinct,
  remove-Distinct, has_key_cases, length-remove_found,
}
use provenancerank.Cache.{
  Policy, Cache, init, is_lru, is_past, uses, expiry, drop_key, get, evict, evict_if_needed, store,
  set, incr, close, Call, get_call, set_call, incr_call, close_call, step, run,
}
use provenancerank.Cache.Eviction.{
  victim_found, evict-zero, evict-within, evict_round, evict_lengths,
}

-- What holds at every moment, also inside `set`: no key twice, and a use count for exactly the keys
-- that are stored.
pub record IsCounted {K V : Type 0} (dec : Discrete K) (c : Cache K V) : Type 0 where
  pub distinct : Distinct dec c.entries
  pub freq_distinct : Distinct dec c.freq
  pub counted : (q : K) → has_key dec q c.entries ≡ has_key dec q c.freq

-- What holds between two calls: also, no more entries than the capacity.
pub record IsValid {K V : Type 0} (dec : Discrete K) (c : Cache K V) : Type 0 where
  pub is_counted : IsCounted dec c
  pub bounded : length c.entries ≤ c.capacity

module _ {K V : Type 0} (dec : Discrete K) where
  pub drop_key-IsCounted :
      (c : Cache K V) (k : K) → IsCounted dec c → IsCounted dec (drop_key dec c k)
  unfolding drop_key
  drop_key-IsCounted c k h = record {
    distinct = remove-Distinct dec k c.entries h.distinct;
    freq_distinct = remove-Distinct dec k c.freq h.freq_distinct;
    counted = λ q. rw (
      has_key-remove dec q k c.entries h.distinct,
      has_key-remove dec q k c.freq h.freq_distinct,
      h.counted q,
    );
  }

  -- A stored key's count goes up, and its entry moves to the end or stays.
  pub bump-IsCounted :
      (c : Cache K V) (b : Bool) (k : K) (n : ℕ)
      → has_key dec k c.entries ≡ true
      → IsCounted dec c
      → IsCounted dec (record c {
        entries = if b then move_to_end dec k c.entries else c.entries;
        freq = assign dec k n c.freq;
      })
  bump-IsCounted c b k n found h = record {
    distinct = moved-Distinct dec b k c.entries h.distinct;
    freq_distinct = assign-Distinct dec k n c.freq h.freq_distinct;
    counted = λ q. counted_at q;
  }
    where
      counted_at :
          (q : K)
          → has_key dec q (if b then move_to_end dec k c.entries else c.entries)
            ≡ has_key dec q (assign dec k n c.freq)
      counted_at q = ground (
        arith,
        has_key-moved dec b q k c.entries h.distinct,
        has_key-assign dec q k n c.freq,
        h.counted q,
      )

  -- A stored key is replaced, a new one is put at the end; either way it counts one use more.
  pub store-IsCounted :
      (c : Cache K V) (k : K) (v : V) (ttl : Option ℕ) (now : ℕ)
      → IsCounted dec c
      → IsCounted dec (store dec c k v ttl now)
  unfolding store
  store-IsCounted c k v ttl now h = record {
    distinct =
        assign-Distinct dec k (v, expiry ttl now) _
          (moved-Distinct dec (has_key dec k c.entries) k c.entries h.distinct);
    freq_distinct = assign-Distinct dec k _ c.freq h.freq_distinct;
    counted = λ q. rw (
      has_key-assign dec q k _ _,
      has_key-moved dec (has_key dec k c.entries) q k c.entries h.distinct,
      has_key-assign dec q k _ c.freq,
      h.counted q,
    );
  }

  pub evict-IsCounted : (n : ℕ) (c : Cache K V) → IsCounted dec c → IsCounted dec (evict dec n c)
  unfolding drop_key
  evict-IsCounted zero c h = rw evict-zero h
  evict-IsCounted (suc n) c h = elim (dec_le (length c.entries) c.capacity) [
    | yes fits ↦ rw (evict-within dec (suc n) c fits) h
    | no over ↦
        let (k, e, found) = victim_found dec c.policy c.freq c.entries (omega arith) in
        let next = drop_key-IsCounted c k h in
        rw (evict_round dec n c k (omega arith) e) (
          evict-IsCounted n (record (drop_key dec c k) { evictions = c.evictions + 1 })
            (record {
              distinct = next.distinct;
              freq_distinct = next.freq_distinct;
              counted = next.counted;
            }))
  ]

module _ {K V : Type 0} (dec : Discrete K) where
  -- `get` keeps the invariant: on a miss, on an expired entry, which it drops, and on a hit.
  pub get-IsValid :
      (c : Cache K V) (k : K) (now : ℕ) → IsValid dec c → IsValid dec (get dec c k now).0
  unfolding get drop_key
  get-IsValid c k now h = elim (has_key_cases dec k c.entries) [
    | inl (e, _) ↦ rw (e, get) h
    | inr ((value, expire), e, found) ↦ elim (Bool-cases (is_past expire now)) [
      | inl past ↦
          let dropped = drop_key-IsCounted dec c k h.is_counted in
          rw (e, past, get)
            (record {
              is_counted = dropped;
              bounded = omega (arith, h.bounded, length-remove_found dec k c.entries found);
            })
      | inr fresh ↦
          let bumped =
            bump-IsCounted dec c (is_lru c.policy) k (uses dec c.freq k + 1) found h.is_counted in
          rw (e, fresh, get)
            (record {
              is_counted = record {
                distinct = bumped.distinct;
                freq_distinct = bumped.freq_distinct;
                counted = bumped.counted;
              };
              bounded = rw length-moved h.bounded;
            })
    ]
  ]

  -- `set` keeps the invariant, for every policy and every capacity, 0 included.
  pub set-IsValid :
      (c : Cache K V) (k : K) (v : V) (ttl : Option ℕ) (now : ℕ)
      → IsValid dec c
      → IsValid dec (set dec c k v ttl now)
  unfolding set evict_if_needed
  set-IsValid c k v ttl now h =
      let s = store dec c k v ttl now in
      let counts = evict_lengths dec (length s.entries) s (omega arith) in
      record {
        is_counted =
            evict-IsCounted dec (length s.entries) s
              (store-IsCounted dec c k v ttl now h.is_counted);
        bounded = omega (arith, counts);
      }

  incr-IsValid :
      (c : Cache K V) (k : K) (ttl now : ℕ) → IsValid dec c → IsValid dec (incr dec c k ttl now).0
  unfolding incr
  incr-IsValid c k ttl now h = record {
    is_counted = record {
      distinct = h.is_counted.distinct;
      freq_distinct = h.is_counted.freq_distinct;
      counted = h.is_counted.counted;
    };
    bounded = h.bounded;
  }

  empty-IsValid : (c : Cache K V) → c.entries ≡ [] → c.freq ≡ [] → IsValid dec c
  unfolding has_key lookup
  empty-IsValid c e f = record {
    is_counted = record { distinct = rw e tt; freq_distinct = rw f tt; counted = λ q. rw (e, f) };
    bounded = rw e (omega arith);
  }

  step-IsValid : (c : Cache K V) (call : Call K V) → IsValid dec c → IsValid dec (step dec c call)
  unfolding step close
  step-IsValid c (get_call k now) h = get-IsValid c k now h
  step-IsValid c (set_call k v ttl now) h = set-IsValid c k v ttl now h
  step-IsValid c (incr_call k ttl now) h = incr-IsValid c k ttl now h
  step-IsValid c close_call h = empty-IsValid (close c) refl refl

  step-capacity : (c : Cache K V) (call : Call K V) → (step dec c call).capacity ≡ c.capacity
  unfolding step close get drop_key set evict_if_needed store incr
  step-capacity c (get_call k now) = ground arith
  step-capacity c (set_call k v ttl now) =
      let s = store dec c k v ttl now in (evict_lengths dec (length s.entries) s (omega arith)).2
  step-capacity c (incr_call k ttl now) = refl
  step-capacity c close_call = refl

  steps-IsValid :
      (calls : List (Call K V)) (c : Cache K V)
      → IsValid dec c
      → IsValid dec (run dec c calls) × ((run dec c calls).capacity ≡ c.capacity)
  unfolding run
  steps-IsValid [] c h = (h, refl)
  steps-IsValid (call ∷ calls) c h =
      let (valid, same) = steps-IsValid calls (step dec c call) (step-IsValid c call h) in
      (valid, same ∙ step-capacity c call)

  -- After any calls on a new cache, whatever its capacity and its policy, no key stands twice,
  -- exactly the stored keys have a use count, there are no more entries than the capacity, and the
  -- capacity is the given one.
  pub run-IsValid :
      (capacity : ℕ) (policy : Policy) (calls : List (Call K V))
      → let c = run dec (init {V = V} capacity policy) calls in
        IsValid dec c × (c.capacity ≡ capacity)
  unfolding init
  run-IsValid capacity policy calls =
      steps-IsValid calls (init capacity policy) (empty-IsValid (init capacity policy) refl refl)
