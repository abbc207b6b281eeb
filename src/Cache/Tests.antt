-- ===== src/Cache/Tests.antt =====
-- The cache of services/cache.py on concrete input.
use mathlib.Core.List.{lookup}
use native.Mathlib.Decide.{ℕ_discrete}
use provenancerank.Prelude.{
  ℕ, ◌+◌, ◌-◌, ◌≡◌, refl, none, some, List, [], ◌∷◌, ◌++◌, arith, length, if◌then◌else◌, drop,
}
use provenancerank.Dict.{has_key, assign, remove, move_to_end}
use provenancerank.Cache.{
  Policy, lru, lfu, Cache, Call, set_call, get_call, run, init, is_past, expiry, step, get, set,
  store, evict, evict_if_needed, drop_key, victim, least_from, uses,
}
use provenancerank.Cache.Eviction.{evict_lengths}
use provenancerank.Cache.Invariant.{IsValid, run-IsValid}
use provenancerank.Cache.Reads.{set-entries, get-set_self}
use provenancerank.Cache.Lfu.{set-lfu_lost}

program : Unit {0}
unfolding run init step get set store evict evict_if_needed drop_key victim least_from uses has_key
    assign remove move_to_end ℕ_discrete lookup
program = tt

abbrev calls : List (Call ℕ ℕ)
calls = set_call 1 10 none 5 ∷ set_call 2 20 (some 60) 6 ∷ get_call 1 7 ∷ get_call 2 8 ∷ []

abbrev filled : Policy → Cache ℕ ℕ
filled policy = run ℕ_discrete (init 2 policy) calls

filled-IsValid : (policy : Policy) → IsValid ℕ_discrete (filled policy)
filled-IsValid policy = (run-IsValid ℕ_discrete 2 policy calls).0

run-IsValid_example :
    IsValid ℕ_discrete (run ℕ_discrete (init {V = ℕ} 2 lru) calls)
    × ((run ℕ_discrete (init {V = ℕ} 2 lru) calls).capacity ≡ 2)
run-IsValid_example = run-IsValid ℕ_discrete 2 lru calls

evicted :
    (set ℕ_discrete (filled lru) 3 30 none 9).entries ≡ (2, (20, some 66)) ∷ (3, (30, none)) ∷ []
unfolding program
evicted = refl

abbrev crowded : Cache ℕ ℕ
crowded = record (init 1 lfu) { entries = (1, (10, none)) ∷ (2, (20, none)) ∷ (3, (30, none)) ∷ [] }

evict_lengths_example :
    (length (evict ℕ_discrete 3 crowded).entries + (length crowded.entries - crowded.capacity)
      ≡ length crowded.entries)
    × ((evict ℕ_discrete 3 crowded).evictions
        ≡ crowded.evictions + (length crowded.entries - crowded.capacity))
    × ((evict ℕ_discrete 3 crowded).capacity ≡ crowded.capacity)
evict_lengths_example = evict_lengths ℕ_discrete 3 crowded (omega arith)

set-entries_example :
    let stored = remove ℕ_discrete 1 (filled lru).entries ++ (1, (11, expiry (some 5) 9)) ∷ [] in
    (set ℕ_discrete (filled lru) 1 11 (some 5) 9).entries
    ≡ drop (length stored - (filled lru).capacity) stored
set-entries_example =
    set-entries ℕ_discrete (filled lru) 1 11 (some 5) 9 (filled-IsValid lru)
      (unfold program in (λ e. ground (arith, e)))

get-set_self_example :
    (get ℕ_discrete (set ℕ_discrete (filled lru) 3 30 (some 5) 9) 3 12).1
    ≡ (if is_past (expiry (some 5) 9) 12 then none else some 30)
get-set_self_example =
    get-set_self ℕ_discrete (filled lru) 3 30 (some 5) 9 12 (filled-IsValid lru)
      (unfold program in (λ e. ground (arith, e))) (unfold program in omega arith)

set-lfu_lost_example :
    ((set ℕ_discrete (filled lfu) 3 30 none 9).entries ≡ (filled lfu).entries)
    × ((set ℕ_discrete (filled lfu) 3 30 none 9).evictions ≡ (filled lfu).evictions + 1)
set-lfu_lost_example =
    set-lfu_lost ℕ_discrete (filled lfu) 3 30 none 9 (filled-IsValid lfu) (unfold program in refl)
      (unfold program in refl) (unfold program in refl)
      (unfold program in (omega arith, (omega arith, tt)))
