-- ===== src/Worker/Poison.antt =====
-- A message on which the handler of services/queue.py never returns, or returns in the end.
use provenancerank.Prelude.{
  ℕ, zero, suc, ◌+◌, ◌<◌, ◌≡◌, refl, Bool, true, false, some, none, List, [], ◌∷◌, ◌++◌, leb,
  replicate, arith, le→leb,
}
use provenancerank.Queue.{Message, Queue, dequeue, retry}
use provenancerank.Queue.Alone.{
  alone, dequeue-alone, dequeue_emptied, retry-alone_again, retry-alone_dead,
}
use provenancerank.Worker.{process, serve}

module _ {P D : Type 0} where
  process_failed : (q : Queue P D) (m : Message P) → process false q m ≡ (retry q m).0
  unfolding process
  process_failed q m = refl

  process_returned : (q : Queue P D) (m : Message P) → process true q m ≡ q
  unfolding process
  process_returned q m = refl

  serve-none :
      (n : ℕ) (returns : Message P → Bool) (q : Queue P D)
      → dequeue q ≡ (q, none)
      → serve n returns q ≡ ([], q)
  unfolding serve
  serve-none zero returns q e = refl
  serve-none (suc n) returns q e = rw (e, serve) refl

  serve-some :
      (n : ℕ) (returns : Message P → Bool) (q q' : Queue P D) (m : Message P)
      → dequeue q ≡ (q', some m)
      → serve (suc n) returns q ≡ (
        m.id ∷ (serve n returns (process (returns m) q' m)).0,
        (serve n returns (process (returns m) q' m)).1,
      )
  unfolding serve
  serve-some n returns q q' m e = rw (e, serve) (rw e refl)

  -- A message that waits alone and on which the handler raises each time is handed to it as often as
  -- it has attempts left, and then it is a dead letter that has failed `max_attempts` times and
  -- nothing waits; further rounds do nothing.
  serve_poison :
      (k n : ℕ) (q : Queue P D) (m : Message P) (seq : ℕ)
      → m.attempts + suc k ≡ m.max_attempts
      → k < n
      → serve n (λ _. false) (alone q m seq) ≡ (
        replicate (suc k) m.id,
        record q {
          pq = [];
          seq = seq + k;
          dlq = q.dlq ++ record m { attempts = m.max_attempts } ∷ [];
        },
      )
  serve_poison k zero q m seq h less = absurd (omega arith)
  serve_poison zero (suc n) q m seq h less =
      let q' = record q { pq = []; seq = seq } in
      let dead : List (Message P) = q.dlq ++ record m { attempts = m.attempts + 1 } ∷ [] in
      rw (serve-some n (λ _. false) (alone q m seq) q' m (dequeue-alone q m seq)) (
        rw (process_failed q' m) (
          rw (retry-alone_dead q m seq (omega arith)) (
            rw
              (serve-none n (λ _. false) (record q' { dlq = dead })
                (dequeue_emptied (record q { dlq = dead }) m seq))
              (ground arith))))
  serve_poison (suc k) (suc n) q m seq h less =
      let q' = record q { pq = []; seq = seq } in
      let m' = record m { attempts = m.attempts + 1 } in
      rw (serve-some n (λ _. false) (alone q m seq) q' m (dequeue-alone q m seq)) (
        rw (process_failed q' m) (
          rw (retry-alone_again q m seq (omega arith))
            (rw (serve_poison k n q m' (seq + 1) (omega arith) (omega arith)) (ground arith))))

  -- A message that waits alone and on which the handler returns only after `limit` failures, fewer
  -- than its `max_attempts`, is handed to it once more than the failures that were left, and then
  -- nothing waits and there is no dead letter more.
  serve_recovering :
      (k n limit : ℕ) (q : Queue P D) (m : Message P) (seq : ℕ)
      → m.attempts + k ≡ limit
      → limit < m.max_attempts
      → k < n
      → serve n (λ t. leb limit t.attempts) (alone q m seq)
        ≡ (replicate (suc k) m.id, record q { pq = []; seq = seq + k })
  serve_recovering k zero limit q m seq h below less = absurd (omega arith)
  serve_recovering zero (suc n) limit q m seq h below less =
      let returns : Message P → Bool = λ t. leb limit t.attempts in
      let q' = record q { pq = []; seq = seq } in
      let done : leb limit m.attempts ≡ true = le→leb _ _ (omega arith) in
      rw (serve-some n returns (alone q m seq) q' m (dequeue-alone q m seq)) (
        rw (done, process_returned q' m)
          (rw (serve-none n returns q' (dequeue_emptied q m seq)) (ground arith)))
  serve_recovering (suc k) (suc n) limit q m seq h below less =
      let returns : Message P → Bool = λ t. leb limit t.attempts in
      let q' = record q { pq = []; seq = seq } in
      let m' = record m { attempts = m.attempts + 1 } in
      let again : leb limit m.attempts ≡ false = ground arith in
      rw (serve-some n returns (alone q m seq) q' m (dequeue-alone q m seq)) (
        rw (again, process_failed q' m)
          (rw (retry-alone_again q m seq (omega arith)) (
            rw (serve_recovering k n limit q m' (seq + 1) (omega arith) below (omega arith))
              (ground arith))))
