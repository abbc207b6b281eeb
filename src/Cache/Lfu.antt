-- ===== src/Cache/Lfu.antt =====
-- The `lfu` policy of services/cache.py, at a full cache of keys that have all been used again.
use mathlib.Core.List.{lookup}
use provenancerank.Prelude.{
  ℕ, suc, ◌+◌, ◌<◌, ◌≡◌, refl, Option, none, some, List, [], ◌∷◌, ◌++◌, length, arith, All, ap, ◌∙◌,
  length-append,
}
use provenancerank.Dict.{has_key, assign, remove}
use provenancerank.Dict.Laws.{
  assign_absent, remove-append_last, lookup-assign_self, lookup-assign_ne,
}
use provenancerank.Cache.{
  lfu, Cache, uses, expiry, drop_key, least_from, victim, evict_if_needed, store, set,
}
use provenancerank.Cache.Eviction.{evict-within, evict_round}
use provenancerank.Cache.Invariant.{IsValid}

module _ {K : Type 0} (dec : Discrete K) where
  uses-assign_self : (k : K) (n : ℕ) (freq : List (K × ℕ)) → uses dec (assign dec k n freq) k ≡ n
  unfolding uses
  uses-assign_self k n freq = rw lookup-assign_self

module _ {K V : Type 0} (dec : Discrete K) where
  -- Every key of the dictionary has been used at least twice.
  abbrev pub AllHot : List (K × ℕ) → List (K × (V × Option ℕ)) → Type 0
  AllHot freq = All (λ e. 1 < uses dec freq e.0)

  -- The one key that was used less than all others is the victim, also where it stands last.
  least_from-last :
      (freq : List (K × ℕ)) (best k : K) (e : V × Option ℕ) (d : List (K × (V × Option ℕ)))
      → uses dec freq k ≡ 1
      → 1 < uses dec freq best
      → AllHot freq d
      → least_from dec freq best (d ++ (k, e) ∷ []) ≡ k
  unfolding least_from
  least_from-last freq best k e [] one hot all = ground arith
  least_from-last freq best k e ((j, w) ∷ d) one hot (hot_j, all) = ground (
    arith,
    least_from-last freq best k e d one hot all,
    least_from-last freq j k e d one hot_j all,
  )

  AllHot-assign :
      (freq : List (K × ℕ)) (k : K) (n : ℕ) (d : List (K × (V × Option ℕ)))
      → lookup dec k d ≡ none
      → AllHot freq d
      → AllHot (assign dec k n freq) d
  unfolding lookup uses
  AllHot-assign freq k n [] a all = tt
  AllHot-assign freq k n ((j, w) ∷ d) a (hot, all) =
      (ground (arith, lookup-assign_ne dec j k n freq), AllHot-assign freq k n d (ground arith) all)

  new_uses :
      (c : Cache K V) (k : K)
      → IsValid dec c
      → lookup dec k c.entries ≡ none
      → uses dec c.freq k ≡ 0
  unfolding uses has_key
  new_uses c k h a = ground (arith, h.is_counted.counted k)

  store_new :
      (c : Cache K V) (k : K) (v : V) (ttl : Option ℕ) (now : ℕ)
      → IsValid dec c
      → lookup dec k c.entries ≡ none
      → store dec c k v ttl now ≡ record c {
        entries = c.entries ++ (k, (v, expiry ttl now)) ∷ [];
        freq = assign dec k 1 c.freq;
      }
  unfolding store has_key
  store_new c k v ttl now h a =
      ground (arith, assign_absent dec k (v, expiry ttl now) c.entries a, new_uses c k h a)

  victim-last :
      (freq : List (K × ℕ)) (k : K) (e : V × Option ℕ) (d : List (K × (V × Option ℕ)))
      → uses dec freq k ≡ 1
      → AllHot freq d
      → victim dec lfu freq (d ++ (k, e) ∷ []) ≡ some k
  unfolding victim least_from
  victim-last freq k e [] one all = refl
  victim-last freq k e ((j, w) ∷ d) one (hot, all) =
      ap some (least_from-last freq j k e d one hot all)

  -- Under `lfu`, at a full cache whose keys have all been used at least twice, a `set` of a new key
  -- evicts that very key: the entries are what they were, and one eviction more is counted.
  pub set-lfu_lost :
      (c : Cache K V) (k : K) (v : V) (ttl : Option ℕ) (now : ℕ)
      → IsValid dec c
      → c.policy ≡ lfu
      → length c.entries ≡ c.capacity
      → lookup dec k c.entries ≡ none
      → AllHot c.freq c.entries
      → ((set dec c k v ttl now).entries ≡ c.entries)
        × ((set dec c k v ttl now).evictions ≡ c.evictions + 1)
  unfolding set evict_if_needed drop_key
  set-lfu_lost c k v ttl now h p full a hot =
      let e : V × Option ℕ = (v, expiry ttl now) in
      let n = length c.entries in
      let stored : Cache K V = record c {
        entries = c.entries ++ (k, e) ∷ [];
        freq = assign dec k 1 c.freq;
      } in
      let longer : length stored.entries ≡ suc n =
        omega (arith, length-append c.entries ((k, e) ∷ [])) in
      let chosen : victim dec stored.policy stored.freq stored.entries ≡ some k = rw p (
        victim-last stored.freq k e c.entries (uses-assign_self dec k 1 c.freq)
          (AllHot-assign c.freq k 1 c.entries a hot)) in
      let dropped : remove dec k stored.entries ≡ c.entries =
        remove-append_last dec k e c.entries a in
      let same = store_new c k v ttl now h a in
      let fuel : length (store dec c k v ttl now).entries ≡ suc n =
        ap (λ (s : Cache K V). length s.entries) same ∙ longer in
      rw fuel (
        rw same (
          rw (evict_round dec n stored k (omega (arith, longer)) chosen) (
            rw
              (evict-within dec n (record (drop_key dec stored k) { evictions = c.evictions + 1 })
                (omega (arith, ap length dropped)))
              (dropped, refl))))
