-- ===== src/Queue/Order.antt =====
-- The order in which services/queue.py hands messages out.
use mathlib.Core.List.{append-nil, map-append}
use provenancerank.Prelude.{
  ℕ, suc, ◌+◌, ◌≤◌, ◌<◌, ◌≡◌, refl, ap, ◌∙◌, Option, none, some, List, [], ◌∷◌, ◌++◌, map, ltb,
  ◌==◌, if◌then◌else◌, select, All, arith, List-cases, inl, inr,
}
use provenancerank.Queue.{Message, Prioritized, Queue, insert, put, dequeue}

module _ {P : Type 0} where
  -- No priority goes down along the list.
  abbrev pub Ordered : List (Prioritized P) → Type 0
  Ordered [] = Unit
  Ordered (x ∷ xs) = All (λ y. x.priority ≤ y.priority) xs × Ordered xs

  abbrev pub SeqBelow : ℕ → List (Prioritized P) → Type 0
  SeqBelow n = All (λ y. y.seq < n)

  abbrev pub of_priority : ℕ → List (Prioritized P) → List (Prioritized P)
  of_priority p = select (λ y. y.priority == p)

  insert-All :
      (n : ℕ) (x : Prioritized P) (xs : List (Prioritized P))
      → n ≤ x.priority
      → All (λ y. n ≤ y.priority) xs
      → All (λ y. n ≤ y.priority) (insert x xs)
  unfolding insert
  insert-All n x [] h all = (h, tt)
  insert-All n x (y ∷ ys) h (low, all) = ground (arith, insert-All n x ys h all)

  weaken-All :
      (n m : ℕ) (xs : List (Prioritized P))
      → n ≤ m
      → All (λ y. m ≤ y.priority) xs
      → All (λ y. n ≤ y.priority) xs
  weaken-All n m [] h all = tt
  weaken-All n m (y ∷ ys) h (low, all) = (omega arith, weaken-All n m ys h all)

  pub insert-Ordered :
      (x : Prioritized P) (xs : List (Prioritized P)) → Ordered xs → Ordered (insert x xs)
  unfolding insert
  insert-Ordered x [] h = (tt, tt)
  insert-Ordered x (y ∷ ys) (low, h) = ground (
    arith,
    weaken-All x.priority y.priority ys,
    insert-All y.priority x ys,
    insert-Ordered x ys h,
  )

  of_priority-none :
      (p : ℕ) (xs : List (Prioritized P)) → All (λ y. suc p ≤ y.priority) xs → of_priority p xs ≡ []
  of_priority-none p [] all = refl
  of_priority-none p (y ∷ ys) (low, all) = ground (arith, of_priority-none p ys all)

  insert_later :
      (x y : Prioritized P) (ys : List (Prioritized P))
      → y.seq < x.seq
      → insert x (y ∷ ys) ≡ (if ltb x.priority y.priority then x ∷ y ∷ ys else y ∷ insert x ys)
  unfolding insert
  insert_later x y ys h = ground arith

  -- What comes with the latest number goes behind all of its priority, and moves no other.
  pub of_priority-insert :
      (p : ℕ) (x : Prioritized P) (xs : List (Prioritized P))
      → Ordered xs
      → SeqBelow x.seq xs
      → of_priority p (insert x xs) ≡ of_priority p xs ++ of_priority p (x ∷ [])
  of_priority-insert p x [] h below = unfold insert in refl
  of_priority-insert p x (y ∷ ys) (low, h) (less, below) = rw (insert_later x y ys less) (
      ground (
        arith,
        of_priority-insert p x ys h below,
        of_priority-none x.priority ys,
        weaken-All (suc x.priority) y.priority ys,
        append-nil (of_priority p ys),
        append-nil (of_priority p (y ∷ ys)),
      ))

-- What holds of every queue: the list is in order, no number is ahead of the counter, and every
-- message stands under its own priority.
pub record IsValid {P D : Type 0} (q : Queue P D) : Type 0 where
  pub ordered : Ordered q.pq
  pub numbered : SeqBelow (q.seq + 1) q.pq
  pub aligned : All (λ y. y.priority ≡ y.message.priority) q.pq

module _ {P : Type 0} where
  insert-SeqBelow :
      (n : ℕ) (x : Prioritized P) (xs : List (Prioritized P))
      → x.seq < n
      → SeqBelow n xs
      → SeqBelow n (insert x xs)
  unfolding insert
  insert-SeqBelow n x [] h all = (h, tt)
  insert-SeqBelow n x (y ∷ ys) h (less, all) = ground (arith, insert-SeqBelow n x ys h all)

  weaken-SeqBelow : (n : ℕ) (xs : List (Prioritized P)) → SeqBelow n xs → SeqBelow (n + 1) xs
  weaken-SeqBelow n [] all = tt
  weaken-SeqBelow n (y ∷ ys) (less, all) = (omega arith, weaken-SeqBelow n ys all)

  insert-aligned :
      (x : Prioritized P) (xs : List (Prioritized P))
      → x.priority ≡ x.message.priority
      → All (λ y. y.priority ≡ y.message.priority) xs
      → All (λ y. y.priority ≡ y.message.priority) (insert x xs)
  unfolding insert
  insert-aligned x [] h all = (h, tt)
  insert-aligned x (y ∷ ys) h (same, all) = ground (arith, insert-aligned x ys h all)

module _ {P : Type 0} where
  abbrev pub messages_of : ℕ → List (Prioritized P) → List (Message P)
  messages_of p xs = map (λ y. y.message) (of_priority p xs)

  messages_of-front :
      (p : ℕ) (x : Prioritized P) (xs : List (Prioritized P))
      → messages_of p (x ∷ xs)
        ≡ (if x.priority == p then x.message ∷ messages_of p xs else messages_of p xs)
  messages_of-front p x xs = ground arith

  messages_of_below :
      (p : ℕ) (x : Prioritized P) (xs : List (Prioritized P))
      → Ordered (x ∷ xs)
      → p < x.priority
      → messages_of p (x ∷ xs) ≡ []
  messages_of_below p x xs h less =
      ap (map (λ y. y.message))
        (of_priority-none p (x ∷ xs) (less, weaken-All (suc p) x.priority xs less h.0))

module _ {P D : Type 0} where
  pub put-IsValid : (q : Queue P D) (m : Message P) → IsValid q → IsValid (put q m)
  unfolding put
  put-IsValid q m h =
      let x : Prioritized P = record { priority = m.priority; seq = q.seq + 1; message = m } in
      record {
        ordered = insert-Ordered x q.pq h.ordered;
        numbered =
            insert-SeqBelow (q.seq + 1 + 1) x q.pq (omega arith)
              (weaken-SeqBelow (q.seq + 1) q.pq h.numbered);
        aligned = insert-aligned x q.pq refl h.aligned;
      }

  dequeue-eq :
      (q : Queue P D) (x : Prioritized P) (xs : List (Prioritized P))
      → q.pq ≡ x ∷ xs
      → dequeue q ≡ (record q { pq = xs }, some x.message)
  unfolding dequeue
  dequeue-eq q x xs e = ground arith

  dequeue_empty : (q : Queue P D) → q.pq ≡ [] → dequeue q ≡ (q, none)
  unfolding dequeue
  dequeue_empty q e = ground arith

  pub dequeue-IsValid : (q : Queue P D) → IsValid q → IsValid (dequeue q).0
  dequeue-IsValid q h = elim (List-cases q.pq) [
    | inl e ↦ rw (dequeue_empty q e) h
    | inr (x, xs, e) ↦ rw (dequeue-eq q x xs e) (record {
      ordered = (rw e at h.ordered).1;
      numbered = (rw e at h.numbered).1;
      aligned = (rw e at h.aligned).1;
    })
  ]

  -- The messages that wait under one priority, first the one that came first.
  unfoldable pub lane : Queue P D → ℕ → List (Message P)
  lane q p = messages_of p q.pq

  -- On a valid queue, putting a message lengthens its lane at the end, and changes no other lane.
  pub lane-put :
      (q : Queue P D) (m : Message P) (p : ℕ)
      → IsValid q
      → lane (put q m) p ≡ lane q p ++ (if m.priority == p then m ∷ [] else [])
  unfolding lane put
  lane-put q m p h =
      let x : Prioritized P = record { priority = m.priority; seq = q.seq + 1; message = m } in
      rw (of_priority-insert p x q.pq h.ordered h.numbered) (rw map-append (ground arith))

  -- On a valid queue, what `dequeue` hands out is the first message of its priority's lane and is
  -- taken off it; every other lane stays, and a lane of a smaller number holds no message.
  pub lane-dequeue :
      (q : Queue P D) (m : Message P) (p : ℕ)
      → IsValid q
      → (dequeue q).1 ≡ some m
      → let after = (dequeue q).0 in
        (lane q p ≡ (if p == m.priority then m ∷ lane after p else lane after p))
        × ((if ltb p m.priority then lane q p else []) ≡ [])
  unfolding lane
  lane-dequeue q m p h out = elim (List-cases q.pq) [
    | inl e ↦ absurd (ground (arith, dequeue_empty q e))
    | inr (x, xs, e) ↦
        let here : x.message ≡ m =
          cc (ap (λ (r : Queue P D × Option (Message P)). r.1) (dequeue-eq q x xs e)) in
        let same : x.priority ≡ m.priority =
          (rw e at h.aligned).0 ∙ ap (λ (n : Message P). n.priority) here in
        rw (dequeue-eq q x xs e) (
          rw e (
            ground (arith, messages_of-front p x xs),
            ground (arith, messages_of_below p x xs (rw e at h.ordered)),
          ))
  ]
