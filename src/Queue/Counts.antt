-- ===== src/Queue/Counts.antt =====
-- How the operations of the queue of services/queue.py change what it holds.
use Prim.Native.Nat.{max}
use provenancerank.Prelude.{
  ℕ, suc, ◌+◌, ◌≤◌, ◌<◌, ◌≡◌, refl, ap, ◌⊎◌, inl, inr, true, false, none, some, List, [], ◌∷◌, ◌++◌,
  All, length, length-append, arith, List-cases, Bool-cases, Option-cases, leb, leb→le, All-append,
}
use provenancerank.Dict.{has_key, assign}
use provenancerank.Queue.{
  init, Message, Prioritized, Queue, Request, before, insert, put, recent, new_message, accept,
  enqueue, dequeue, retry,
}

-- A message that may still be handed to the handler: a first time, or after fewer failures than
-- its `max_attempts`.
abbrev pub MayTry : {P : Type 0} → Message P → Type 0
MayTry m = (m.attempts ≡ 0) ⊎ (m.attempts < m.max_attempts)

-- A dead letter: it failed `max_attempts` times, or once where that is 0.
abbrev pub IsSpent : {P : Type 0} → Message P → Type 0
IsSpent m = m.attempts ≡ max 1 m.max_attempts

-- Every message that waits may be tried, and every dead letter is spent.
pub record Fair {P D : Type 0} (q : Queue P D) : Type 0 where
  pub waiting : All (λ y. MayTry y.message) q.pq
  pub dead : All IsSpent q.dlq

module _ {P : Type 0} where
  length-insert :
      (x : Prioritized P) (xs : List (Prioritized P)) → length (insert x xs) ≡ suc (length xs)
  unfolding insert
  length-insert x [] = refl
  length-insert x (y ∷ ys) = ground (arith, length-insert x ys)

  insert-All {κ} :
      (Q : Prioritized P → Type κ) (x : Prioritized P) (xs : List (Prioritized P))
      → Q x
      → All Q xs
      → All Q (insert x xs)
  unfolding insert
  insert-All Q x [] h all = (h, all)
  insert-All Q x (y ∷ ys) h (here, all) = elim (Bool-cases (before x y)) [
    | inl first ↦ rw first (h, (here, all))
    | inr later ↦ rw later (here, insert-All Q x ys h all)
  ]

module _ {P D : Type 0} where
  put-Fair : (q : Queue P D) (m : Message P) → MayTry m → Fair q → Fair (put q m)
  unfolding put
  put-Fair q m may h = record {
    waiting = insert-All (λ y. MayTry y.message) _ q.pq may h.waiting;
    dead = h.dead;
  }

  length-put : (q : Queue P D) (m : Message P) → length (put q m).pq ≡ suc (length q.pq)
  unfolding put
  length-put q m = length-insert _ q.pq

  put_rest :
      (q : Queue P D) (m : Message P) → ((put q m).dlq ≡ q.dlq) × ((put q m).enqueued ≡ q.enqueued)
  unfolding put
  put_rest q m = (refl, refl)

  accept-Fair : (q : Queue P D) (r : Request P D) (id now : ℕ) → Fair q → Fair (accept q r id now).0
  unfolding accept new_message
  accept-Fair q r id now h =
      let after = put-Fair q (new_message r id now) (inl refl) h in
      record { waiting = after.waiting; dead = after.dead }

  accept_counts :
      (q : Queue P D) (r : Request P D) (id now : ℕ)
      → ((accept q r id now).0.enqueued + length q.pq
          ≡ q.enqueued + length (accept q r id now).0.pq)
        × ((accept q r id now).0.dlq ≡ q.dlq)
  unfolding accept
  accept_counts q r id now =
      let m = new_message r id now in (omega (arith, length-put q m), (put_rest q m).0)

  -- Either the message is put or it is a duplicate; `_seen` may change in both cases.
  pub enqueue-cases :
      (dec : Discrete D) (q : Queue P D) (r : Request P D) (id now : ℕ)
      → (s : List (D × ℕ)) × ((enqueue dec q r id now ≡ accept (record q { seen = s }) r id now)
          ⊎ (enqueue dec q r id now ≡ (record q { seen = s }, none)))
  unfolding enqueue accept new_message
  enqueue-cases dec q r id now = elim (Option-cases r.dedup_key) [
    | inl e ↦ (q.seen, inl (rw (e, enqueue) refl))
    | inr (key, e) ↦
        let seen = recent now r.dedup_ttl q.seen in
        elim (Bool-cases (has_key dec key seen)) [
          | inl old ↦ (seen, inr (rw (e, enqueue) (rw old refl)))
          | inr fresh ↦ (assign dec key now seen, inl (rw (e, enqueue) (rw fresh refl)))
        ]
  ]

  pub enqueue-Fair :
      (dec : Discrete D) (q : Queue P D) (r : Request P D) (id now : ℕ)
      → Fair q
      → Fair (enqueue dec q r id now).0
  enqueue-Fair dec q r id now h =
      let (s, outcome) = enqueue-cases dec q r id now in
      let kept : Fair (record q { seen = s }) = record { waiting = h.waiting; dead = h.dead } in
      elim outcome [
        | inl put_it ↦ rw put_it (accept-Fair (record q { seen = s }) r id now kept)
        | inr duplicate ↦ rw duplicate kept
      ]

  -- `enqueued` grows with the depth, and no dead letter comes or goes.
  pub enqueue_counts :
      (dec : Discrete D) (q : Queue P D) (r : Request P D) (id now : ℕ)
      → ((enqueue dec q r id now).0.enqueued + length q.pq
          ≡ q.enqueued + length (enqueue dec q r id now).0.pq)
        × ((enqueue dec q r id now).0.dlq ≡ q.dlq)
  enqueue_counts dec q r id now =
      let (s, outcome) = enqueue-cases dec q r id now in
      elim outcome [
        | inl put_it ↦ rw put_it (accept_counts (record q { seen = s }) r id now)
        | inr duplicate ↦ rw duplicate (refl, refl)
      ]

  retry-cases :
      (q : Queue P D) (m : Message P)
      → let m' = record m { attempts = m.attempts + 1 } in
        (m.max_attempts ≤ m.attempts + 1)
          × (retry q m ≡ (record q { dlq = q.dlq ++ m' ∷ [] }, false))
        ⊎ (m.attempts + 1 < m.max_attempts) × (retry q m ≡ (put q m', true))
  unfolding retry
  retry-cases q m = elim (Bool-cases (leb m.max_attempts (m.attempts + 1))) [
    | inl over ↦ inl (leb→le _ _ over, rw over refl)
    | inr under ↦ inr (ground arith, rw under refl)
  ]

  -- A failed message goes back to wait while it has attempts left, and is a dead letter after that.
  pub retry-Fair : (q : Queue P D) (m : Message P) → MayTry m → Fair q → Fair (retry q m).0
  retry-Fair q m may h =
      let m' = record m { attempts = m.attempts + 1 } in
      elim (retry-cases q m) [
        | inl (over, e) ↦
            let spent : IsSpent m' = omega arith in
            rw e (record {
              waiting = h.waiting;
              dead = All-append IsSpent q.dlq (m' ∷ []) h.dead (spent, tt);
            })
        | inr (under, e) ↦ rw e (put-Fair q m' (inr under) h)
      ]

  pub retry_counts :
      (q : Queue P D) (m : Message P)
      → (length (retry q m).0.pq + length (retry q m).0.dlq ≡ suc (length q.pq + length q.dlq))
        × ((retry q m).0.enqueued ≡ q.enqueued)
  retry_counts q m =
      let m' = record m { attempts = m.attempts + 1 } in
      elim (retry-cases q m) [
        | inl (over, e) ↦ rw e (omega (arith, length-append q.dlq (m' ∷ [])), refl)
        | inr (under, e) ↦
            let (dead, total) = put_rest q m' in
            rw e (omega (arith, length-put q m', ap length dead), total)
      ]

  pub dequeue_parts :
      (q : Queue P D) (m : Message P)
      → (dequeue q).1 ≡ some m
      → (x : Prioritized P) × (xs : List (Prioritized P)) × (q.pq ≡ x ∷ xs)
        × (x.message ≡ m)
        × ((dequeue q).0 ≡ record q { pq = xs })
  unfolding dequeue
  dequeue_parts q m h = elim (List-cases q.pq) [
    | inl e ↦ absurd (ground arith)
    | inr (x, xs, e) ↦ (x, xs, e, ground arith, ground arith)
  ]

  pub dequeue-Fair :
      (q : Queue P D) (m : Message P)
      → (dequeue q).1 ≡ some m
      → Fair q
      → Fair (dequeue q).0 × MayTry m
  dequeue-Fair q m out h =
      let (x, xs, e, same, after) = dequeue_parts q m out in
      let waiting = rw e at h.waiting in
      rw (after, ← same) (record { waiting = waiting.1; dead = h.dead }, waiting.0)

  pub dequeue_counts :
      (q : Queue P D) (m : Message P)
      → (dequeue q).1 ≡ some m
      → (length q.pq ≡ suc (length (dequeue q).0.pq))
        × ((dequeue q).0.dlq ≡ q.dlq)
        × ((dequeue q).0.enqueued ≡ q.enqueued)
  dequeue_counts q m out =
      let (x, xs, e, same, after) = dequeue_parts q m out in rw after (ap length e, refl, refl)

  pub init-Fair : Fair (init {P = P} {D = D})
  unfolding init
  init-Fair = record { waiting = tt; dead = tt }

pub init_counts :
    (P D : Type 0)
    → (init {P = P} {D = D}).enqueued
      ≡ length (init {P = P} {D = D}).pq + length (init {P = P} {D = D}).dlq + 0 + 0 + 0 + 0
unfolding init
init_counts P D = refl
