-- ===== src/Queue/Alone.antt =====
-- The queue of services/queue.py with a single message in it.
use provenancerank.Prelude.{
  ℕ, ◌+◌, ◌≤◌, ◌<◌, ◌≡◌, refl, true, false, some, [], ◌∷◌, ◌++◌, arith, none,
}
use provenancerank.Queue.{Message, Queue, insert, dequeue, retry}

module _ {P D : Type 0} (q : Queue P D) (m : Message P) where
  -- `q` with `m` as the one message that waits, under the number `seq`.
  abbrev pub alone : ℕ → Queue P D
  alone seq = record q {
    pq = record { priority = m.priority; seq = seq; message = m } ∷ [];
    seq = seq;
  }

  pub dequeue-alone : (seq : ℕ) → dequeue (alone seq) ≡ (record q { pq = []; seq = seq }, some m)
  unfolding dequeue
  dequeue-alone seq = refl

  pub dequeue_emptied :
      (seq : ℕ)
      → dequeue (record q { pq = []; seq = seq }) ≡ (record q { pq = []; seq = seq }, none)
  unfolding dequeue
  dequeue_emptied seq = refl

  -- While attempts are left, a failure puts the message back with one attempt more.
  pub retry-alone_again :
      (seq : ℕ)
      → m.attempts + 1 < m.max_attempts
      → retry (record q { pq = []; seq = seq }) m ≡ (
        record q {
          pq =
              record {
                priority = m.priority;
                seq = seq + 1;
                message = record m { attempts = m.attempts + 1 };
              }
              ∷ [];
          seq = seq + 1;
        },
        true,
      )
  unfolding retry insert
  retry-alone_again seq h = ground arith

  -- The last failure makes it a dead letter.
  pub retry-alone_dead :
      (seq : ℕ)
      → m.max_attempts ≤ m.attempts + 1
      → retry (record q { pq = []; seq = seq }) m ≡ (
        record q { pq = []; seq = seq; dlq = q.dlq ++ record m { attempts = m.attempts + 1 } ∷ [] },
        false,
      )
  unfolding retry
  retry-alone_dead seq h = ground arith
