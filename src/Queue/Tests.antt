-- ===== src/Queue/Tests.antt =====
-- The queue of services/queue.py on concrete input.
use native.Mathlib.Decide.{ℕ_discrete}
use mathlib.Core.List.{lookup}
use provenancerank.Prelude.{ℕ, ◌+◌, ◌≡◌, refl, some, [], ◌∷◌, ◌++◌, if◌then◌else◌, ltb, ◌==◌}
use provenancerank.Dict.{has_key, assign}
use provenancerank.Queue.{
  Message, Queue, Request, init, put, enqueue, dequeue, retry, stats, accept, new_message, insert,
  before, recent,
}
use provenancerank.Queue.Order.{IsValid, put-IsValid, lane, lane-put, lane-dequeue}

program : Unit {0}
unfolding init put enqueue dequeue retry stats accept new_message insert before recent has_key
    assign ℕ_discrete lookup
program = tt

abbrev message : ℕ → ℕ → Message ℕ
message id priority = record {
  payload = 100 + id;
  id = id;
  priority = priority;
  attempts = 0;
  max_attempts = 3;
  enqueued_at = 1;
}

-- Three messages, the urgent one put last.
abbrev three : Queue ℕ ℕ
three = put (put (put init (message 1 5)) (message 2 5)) (message 3 1)

init-IsValid : IsValid (init {P = ℕ} {D = ℕ})
unfolding program
init-IsValid = record { ordered = tt; numbered = tt; aligned = tt }

three-IsValid : IsValid three
three-IsValid =
    put-IsValid _ (message 3 1)
      (put-IsValid _ (message 2 5) (put-IsValid init (message 1 5) init-IsValid))

urgent_first : (dequeue three).1 ≡ some (message 3 1)
unfolding program
urgent_first = refl

fifo_next : (dequeue (dequeue three).0).1 ≡ some (message 1 5)
unfolding program
fifo_next = refl

retried :
    stats (retry (dequeue three).0 (message 3 1)).0
    ≡ record { depth = 3; dead_letter = 0; enqueued_total = 0 }
unfolding program
retried = refl

lane-put_example :
    lane (put three (message 4 5)) 5
    ≡ lane three 5 ++ (if (message 4 5).priority == 5 then message 4 5 ∷ [] else [])
lane-put_example = lane-put three (message 4 5) 5 three-IsValid

lane-dequeue_example :
    let after = (dequeue three).0 in
    (lane three 5
      ≡ (if 5 == (message 3 1).priority then message 3 1 ∷ lane after 5 else lane after 5))
    × ((if ltb 5 (message 3 1).priority then lane three 5 else []) ≡ [])
lane-dequeue_example = lane-dequeue three (message 3 1) 5 three-IsValid urgent_first

abbrev request : ℕ → Request ℕ ℕ
request payload = record {
  payload = payload;
  priority = 5;
  max_attempts = 3;
  dedup_key = some 9;
  dedup_ttl = 300;
}
