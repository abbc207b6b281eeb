-- ===== src/Cache.antt =====
-- `InMemoryCache` of services/cache.py. Keys are of any type with decidable equality (strings in
-- the source). A clock reading is an argument, in the ticks that a `ttl` counts too.
use mathlib.Core.List.{lookup}
use mathlib.Core.Option
use provenancerank.Prelude.{
  ℕ, zero, suc, ◌+◌, Bool, true, false, Option, none, some, List, [], ◌∷◌, length, ltb,
  if◌then◌else◌,
}
use provenancerank.Dict.{has_key, assign, remove, move_to_end}
pub mod Eviction
pub mod Invariant
pub mod Reads
pub mod Lfu
pub mod Counters
mod Tests

pub data Policy : Type 0 where
  lru lfu fifo : Policy

-- The `OrderedDict` of values, each with its expiry, the use counts, the counters of `incr`, each
-- with its expiry, and the number of evictions.
pub record Cache (K V : Type 0) : Type 0 where
  pub capacity : ℕ
  pub policy : Policy
  pub entries : List (K × (V × Option ℕ))
  pub freq : List (K × ℕ)
  pub counters : List (K × (ℕ × ℕ))
  pub evictions : ℕ

abbrev is_lru : Policy → Bool
is_lru lru = true
is_lru _ = false

-- `expire is not None and expire < now`
abbrev is_past : Option ℕ → ℕ → Bool
is_past none now = false
is_past (some expire) now = ltb expire now

-- `time.time() + ttl if ttl else None`
abbrev expiry : Option ℕ → ℕ → Option ℕ
expiry none now = none
expiry (some zero) now = none
expiry (some (suc ttl)) now = some (now + suc ttl)

-- The expiry test of `incr`, and the restart of a counter that has expired.
abbrev restart : ℕ → ℕ → ℕ × ℕ → ℕ × ℕ
restart ttl now (count, expire) = if ltb expire now then (0, now + ttl) else (count, expire)

pub init : {K V : Type 0} → ℕ → Policy → Cache K V
init capacity policy = record {
  capacity = capacity;
  policy = policy;
  entries = [];
  freq = [];
  counters = [];
  evictions = 0;
}

-- `close`
pub close : {K V : Type 0} → Cache K V → Cache K V
close c = record c { entries = []; freq = []; counters = [] }

module _ {K : Type 0} (dec : Discrete K) where
  -- `self._freq.get(key, 0)`
  pub uses : List (K × ℕ) → K → ℕ
  uses freq k = Option.get_or (lookup dec k freq) 0

  -- `min` over the keys that are left, by use count; the first of the least stays
  least_from : {V : Type 0} → List (K × ℕ) → K → List (K × V) → K
  unfolding uses
  least_from freq best [] = best
  least_from freq best ((k, _) ∷ d) =
      least_from freq (if ltb (uses freq k) (uses freq best) then k else best) d

  -- The victim of one round of `_evict_if_needed`.
  pub victim : {V : Type 0} → Policy → List (K × ℕ) → List (K × V) → Option K
  unfolding least_from
  victim policy freq [] = none
  victim lfu freq ((k, _) ∷ d) = some (least_from freq k d)
  victim lru freq ((k, _) ∷ d) = some k
  victim fifo freq ((k, _) ∷ d) = some k

module _ {K V : Type 0} (dec : Discrete K) where
  -- `_drop`
  pub drop_key : Cache K V → K → Cache K V
  drop_key c k = record c { entries = remove dec k c.entries; freq = remove dec k c.freq }

  -- `get`
  pub get : Cache K V → K → ℕ → Cache K V × Option V
  unfolding drop_key uses
  get c k now = elim (lookup dec k c.entries) [
    | none ↦ (c, none)
    | some (value, expire) ↦ if is_past expire now then (drop_key c k, none) else (
      record c {
        entries = if is_lru c.policy then move_to_end dec k c.entries else c.entries;
        freq = assign dec k (uses dec c.freq k + 1) c.freq;
      },
      some value,
    )
  ]

  -- The `while` loop of `_evict_if_needed`, at most as many rounds as the fuel.
  pub evict : ℕ → Cache K V → Cache K V
  unfolding drop_key victim
  evict zero c = c
  evict (suc n) c = elim (ltb c.capacity (length c.entries)) [
    | false ↦ c
    | true ↦ elim (victim dec c.policy c.freq c.entries) [
      | none ↦ c
      | some k ↦ evict n (record (drop_key c k) { evictions = c.evictions + 1 })
    ]
  ]

  -- `_evict_if_needed`: a round takes an entry away, so the entries are fuel enough.
  pub evict_if_needed : Cache K V → Cache K V
  evict_if_needed c = evict (length c.entries) c

  -- `set`, before it evicts
  pub store : Cache K V → K → V → Option ℕ → ℕ → Cache K V
  unfolding has_key uses
  store c k value ttl now =
      let moved = if has_key dec k c.entries then move_to_end dec k c.entries else c.entries in
      record c {
        entries = assign dec k (value, expiry ttl now) moved;
        freq = assign dec k (uses dec c.freq k + 1) c.freq;
      }

  -- `set`
  pub set : Cache K V → K → V → Option ℕ → ℕ → Cache K V
  unfolding store evict_if_needed
  set c k value ttl now = evict_if_needed (store c k value ttl now)

  -- `incr`. A missing counter reads as a count of 0 that expired at the epoch.
  unfoldable pub incr : Cache K V → K → ℕ → ℕ → Cache K V × ℕ
  incr c k ttl now =
      let current = restart ttl now (Option.get_or (lookup dec k c.counters) (0, 0)) in
      let count = current.0 + 1 in
      (record c { counters = assign dec k (count, current.1) c.counters }, count)

-- A call of the cache, with the clock reading that it makes.
pub data Call (K V : Type 0) : Type 0 where
  get_call : K → ℕ → Call K V
  set_call : K → V → Option ℕ → ℕ → Call K V
  incr_call : K → ℕ → ℕ → Call K V
  close_call : Call K V

module _ {K V : Type 0} (dec : Discrete K) where
  pub step : Cache K V → Call K V → Cache K V
  step c (get_call k now) = (get dec c k now).0
  step c (set_call k v ttl now) = set dec c k v ttl now
  step c (incr_call k ttl now) = (incr dec c k ttl now).0
  step c close_call = close c

  pub run : Cache K V → List (Call K V) → Cache K V
  run c [] = c
  run c (call ∷ calls) = run (step c call) calls
