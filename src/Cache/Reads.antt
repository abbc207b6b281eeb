-- ===== src/Cache/Reads.antt =====
-- What a `get` reads after a `set`, in services/cache.py.
use mathlib.Core.List.{lookup}
use native.Mathlib.Decide.{dec_le}
use provenancerank.Prelude.{
  ℕ, zero, suc, ◌+◌, ◌-◌, ◌≤◌, ◌<◌, ◌≡◌, ◌≢◌, sym, ap, ◌∙◌, inl, inr, Option, none, some, List, [],
  ◌∷◌, ◌++◌, length, if◌then◌else◌, arith, Bool-cases, drop, drop_none, drop_nil, drop_front,
  length-append,
}
use provenancerank.Dict.{remove, move_to_end}
use provenancerank.Dict.Laws.{
  has_key_cases, assign_absent, remove_absent, assign-append_last, lookup-remove_self,
}
use provenancerank.Cache.{
  lfu, Cache, is_past, expiry, drop_key, get, victim, evict, evict_if_needed, store, set,
}
use provenancerank.Cache.Eviction.{evict-within, evict_round}
use provenancerank.Cache.Invariant.{IsValid}

module _ {K V : Type 0} (dec : Discrete K) where
  -- The stored pair stands last, whether the key was there or not.
  pub store_entries :
      (c : Cache K V) (k : K) (v : V) (ttl : Option ℕ) (now : ℕ)
      → IsValid dec c
      → (store dec c k v ttl now).entries ≡ remove dec k c.entries ++ (k, (v, expiry ttl now)) ∷ []
  unfolding store move_to_end
  store_entries c k v ttl now h = elim (has_key_cases dec k c.entries) [
    | inl (e, absent) ↦
        rw (absent, store) (rw (assign_absent dec k _ c.entries e, remove_absent dec k c.entries e))
    | inr (w, e, found) ↦
        rw (found, store)
          (rw (e, move_to_end)
            (assign-append_last dec k _ w (remove dec k c.entries)
              (lookup-remove_self dec k c.entries h.is_counted.distinct)))
  ]

  victim-front :
      (c : Cache K V) (j : K) (w : V × Option ℕ) (d : List (K × (V × Option ℕ)))
      → c.policy ≢ lfu
      → c.entries ≡ (j, w) ∷ d
      → victim dec c.policy c.freq c.entries ≡ some j
  unfolding victim
  victim-front c j w d p e = ground arith

  remove_front :
      (c : Cache K V) (j : K) (w : V × Option ℕ) (d : List (K × (V × Option ℕ)))
      → remove dec j ((j, w) ∷ d) ≡ d
  unfolding remove
  remove_front c j w d = ground arith

  -- Without use counts, what goes is a front part of the dictionary.
  evict-drop :
      (n : ℕ) (c : Cache K V) (d : List (K × (V × Option ℕ)))
      → c.policy ≢ lfu
      → c.entries ≡ d
      → length d ≤ n
      → (evict dec n c).entries ≡ drop (length d - c.capacity) d
  unfolding drop_key
  evict-drop n c [] p e h =
      rw (evict-within dec n c (omega (arith, ap length e))) (rw (e, drop_nil))
  evict-drop zero c (x ∷ d) p e h = absurd (omega arith)
  evict-drop (suc n) c ((j, w) ∷ d) p e h = elim (dec_le (suc (length d)) c.capacity) [
    | yes fits ↦
        rw (evict-within dec (suc n) c (omega (arith, ap length e)))
          (e ∙ sym (drop_none _ _ (omega arith)))
    | no over ↦ rw (evict_round dec n c j (omega (arith, ap length e)) (victim-front c j w d p e)) (
        evict-drop n (record (drop_key dec c j) { evictions = c.evictions + 1 }) d p
          (rw (e, remove_front c j w d)) (omega arith)
        ∙ sym (drop_front _ (length d - c.capacity) (j, w) d (omega arith)))
  ]

  -- Under `lru` and `fifo` a `set` on a valid cache moves the key to the end with the new value, or
  -- puts it there, and then drops from the front what is over the capacity.
  pub set-entries :
      (c : Cache K V) (k : K) (v : V) (ttl : Option ℕ) (now : ℕ)
      → IsValid dec c
      → c.policy ≢ lfu
      → let stored = remove dec k c.entries ++ (k, (v, expiry ttl now)) ∷ [] in
        (set dec c k v ttl now).entries ≡ drop (length stored - c.capacity) stored
  unfolding set evict_if_needed store
  set-entries c k v ttl now h p =
      evict-drop (length (store dec c k v ttl now).entries) (store dec c k v ttl now)
        (remove dec k c.entries ++ (k, (v, expiry ttl now)) ∷ []) p (store_entries c k v ttl now h)
        (omega (arith, ap length (store_entries c k v ttl now h)))

  lookup-drop_last :
      (m : ℕ) (k : K) (e : V × Option ℕ) (d : List (K × (V × Option ℕ)))
      → lookup dec k d ≡ none
      → m ≤ length d
      → lookup dec k (drop m (d ++ (k, e) ∷ [])) ≡ some e
  unfolding lookup
  lookup-drop_last zero k e [] a h = ground arith
  lookup-drop_last zero k e ((j, w) ∷ d) a h = ground (arith, lookup-drop_last zero k e d)
  lookup-drop_last (suc m) k e [] a h = absurd (omega arith)
  lookup-drop_last (suc m) k e ((j, w) ∷ d) a h = ground (arith, lookup-drop_last m k e d)

  -- A `get` right after a `set` of the same key, under `lru` or `fifo` and with room for an entry,
  -- reads the new value until its time has passed, and nothing after that.
  pub get-set_self :
      (c : Cache K V) (k : K) (v : V) (ttl : Option ℕ) (now later : ℕ)
      → IsValid dec c
      → c.policy ≢ lfu
      → 0 < c.capacity
      → (get dec (set dec c k v ttl now) k later).1
        ≡ (if is_past (expiry ttl now) later then none else some v)
  unfolding get
  get-set_self c k v ttl now later h p room =
      let rest = remove dec k c.entries in
      let e : V × Option ℕ = (v, expiry ttl now) in
      let found : lookup dec k (set dec c k v ttl now).entries ≡ some e =
        rw (set-entries c k v ttl now h p) (
          lookup-drop_last _ k e rest (lookup-remove_self dec k c.entries h.is_counted.distinct)
            (omega (arith, length-append rest ((k, e) ∷ [])))) in
      elim (Bool-cases (is_past (expiry ttl now) later)) [
        | inl past ↦ rw (found, get) (rw past)
        | inr fresh ↦ rw (found, get) (rw fresh)
      ]
