-- ===== src/Queue/Dedup.antt =====
-- The deduplication window of services/queue.py.
use mathlib.Core.List.{lookup}
use provenancerank.Prelude.{
  ℕ, ◌+◌, ◌≡◌, refl, Bool, true, false, none, some, List, [], ◌∷◌, ◌++◌, ltb, if◌then◌else◌, arith,
  inl, inr, ◌∙◌, length,
}
use provenancerank.Dict.{has_key, assign}
use provenancerank.Dict.Laws.{has_key_cases, assign_absent, has_key-select_last}
use provenancerank.Queue.Counts.{enqueue_counts}
use provenancerank.Queue.{Queue, Request, put, recent, accept, enqueue}

module _ {P D : Type 0} (dec : Discrete D) where
  enqueue_keyed :
      (q : Queue P D) (r : Request P D) (key : D) (id now : ℕ)
      → r.dedup_key ≡ some key
      → let seen = recent now r.dedup_ttl q.seen in
        enqueue dec q r id now ≡ (
          if has_key dec key seen
          then (record q { seen = seen }, none)
          else accept (record q { seen = assign dec key now seen }) r id now)
  unfolding enqueue
  enqueue_keyed q r key id now e = ground arith

  accept_parts :
      (q : Queue P D) (r : Request P D) (id now : ℕ)
      → ((accept q r id now).0.seen ≡ q.seen)
        × ((accept q r id now).0.enqueued ≡ q.enqueued + 1)
        × ((accept q r id now).1 ≡ some id)
  unfolding accept put
  accept_parts q r id now = (refl, refl, refl)

  enqueue_answer :
      (q : Queue P D) (r : Request P D) (key : D) (id now : ℕ) (dropped : Bool)
      → r.dedup_key ≡ some key
      → has_key dec key (recent now r.dedup_ttl q.seen) ≡ dropped
      → ((enqueue dec q r id now).1 ≡ (if dropped then none else some id))
        × ((enqueue dec q r id now).0.enqueued ≡ q.enqueued + (if dropped then 0 else 1))
  enqueue_answer q r key id now true e old =
      rw (enqueue_keyed q r key id now e) (rw old (refl, omega arith))
  enqueue_answer q r key id now false e fresh =
      let after = record q { seen = assign dec key now (recent now r.dedup_ttl q.seen) } in
      let (_, counted, answer) = accept_parts after r id now in
      rw (enqueue_keyed q r key id now e) (rw fresh (answer, counted))

  -- What the first of two such calls leaves in `_seen`: the key is the last, and new.
  first_seen :
      (q : Queue P D) (r : Request P D) (key : D) (id now : ℕ)
      → r.dedup_key ≡ some key
      → (enqueue dec q r id now).1 ≡ some id
      → (s : List (D × ℕ)) × (lookup dec key s ≡ none)
        × ((enqueue dec q r id now).0.seen ≡ s ++ (key, now) ∷ [])
  first_seen q r key id now e put_it =
      let seen = recent now r.dedup_ttl q.seen in
      elim (has_key_cases dec key seen) [
        | inl (absent, fresh) ↦
            let after = record q { seen = assign dec key now seen } in
            (
              seen,
              absent,
              rw (enqueue_keyed q r key id now e) (
                  rw fresh
                    ((accept_parts after r id now).0 ∙ assign_absent dec key now seen absent)),
            )
        | inr (t, found, old) ↦ absurd (ground (arith, enqueue_keyed q r key id now e))
      ]

  -- Once a message with a key has been put at `now`, another with the same key at `later` is dropped
  -- exactly while the second one's window reaches back to `now`. It is counted and waits exactly if
  -- it is not dropped, and no dead letter comes or goes.
  enqueue_twice :
      (q : Queue P D) (r r' : Request P D) (key : D) (id id' now later : ℕ)
      → r.dedup_key ≡ some key
      → r'.dedup_key ≡ some key
      → (enqueue dec q r id now).1 ≡ some id
      → let first = (enqueue dec q r id now).0 in
        let second = enqueue dec first r' id' later in
        let dropped = ltb later (now + r'.dedup_ttl) in
        (second.1 ≡ (if dropped then none else some id'))
        × (second.0.enqueued ≡ first.enqueued + (if dropped then 0 else 1))
        × (length second.0.pq ≡ length first.pq + (if dropped then 0 else 1))
        × (second.0.dlq ≡ first.dlq)
  enqueue_twice q r r' key id id' now later e e' put_first =
      let first = (enqueue dec q r id now).0 in
      let (s, absent, left) = first_seen q r key id now e put_first in
      let (counts, dead) = enqueue_counts dec first r' id' later in
      let again : has_key dec key (recent later r'.dedup_ttl first.seen)
          ≡ ltb later (now + r'.dedup_ttl) =
        again_at first.seen s absent left in
      let (answer, counted) = enqueue_answer first r' key id' later _ e' again in
      (answer, counted, omega (arith, counts, counted), dead)
    where
      again_at :
          (seen s : List (D × ℕ))
          → lookup dec key s ≡ none
          → seen ≡ s ++ (key, now) ∷ []
          → has_key dec key (recent later r'.dedup_ttl seen) ≡ ltb later (now + r'.dedup_ttl)
      again_at seen s absent left =
          rw left (unfold recent in has_key-select_last dec _ key now s absent)
