-- ===== src/Worker.antt =====
-- `QueueWorker` of services/queue.py over the queue: the loop that pulls messages, the tasks that
-- run the handler under a semaphore, and `stop`. What the handler does to a message is the
-- environment's choice; the tasks and the producers interleave as they like.
use provenancerank.Prelude.{
  ℕ, zero, suc, ◌+◌, ◌≡◌, Bool, true, false, Option, none, some, List, [], ◌∷◌, ◌++◌, if◌then◌else◌,
}
use provenancerank.Queue.{Message, Queue, Request, enqueue, dequeue, retry}
use provenancerank.Queue
pub mod Safety
pub mod Poison
mod Tests

-- `_process`, with the handler's outcome: whether it returned.
pub process : {P D : Type 0} → Bool → Queue P D → Message P → Queue P D
process returned q m = if returned then q else (retry q m).0

-- Rounds of the loop with one task at a time, each awaited: the ids handed to the handler, in
-- order, and the queue. `returns` says on which messages the handler returns.
pub serve : {P D : Type 0} → ℕ → (Message P → Bool) → Queue P D → List ℕ × Queue P D
serve zero returns q = ([], q)
serve (suc n) returns q = elim (dequeue q).1 [
  | none ↦ ([], q)
  | some m ↦
      let (ids, q') = serve n returns (process (returns m) (dequeue q).0 m) in (m.id ∷ ids, q')
]

-- The worker: its queue, `_running`, the message that the loop has pulled and not yet started, the
-- tasks in `_inflight`, and the permits left in `_sem`. The last two fields count what the source
-- does not: the messages that the handler has finished, and those that `stop` has dropped.
pub record Worker (P D : Type 0) : Type 0 where
  pub queue : Queue P D
  pub running : Bool
  pub held : Option (Message P)
  pub inflight : List (Message P)
  pub permits : ℕ
  pub completed : ℕ
  pub dropped : ℕ

-- `QueueWorker(queue, handler, concurrency)`, started
pub start : {P D : Type 0} → ℕ → Worker P D
start concurrency = record {
  queue = Queue.init;
  running = true;
  held = none;
  inflight = [];
  permits = concurrency;
  completed = 0;
  dropped = 0;
}

abbrev pub count_held : {P : Type 0} → Option (Message P) → ℕ
count_held none = 0
count_held (some m) = 1

module _ {P D : Type 0} (dec : Discrete D) where
  -- What happens between two awaits.
  pub data Step (w : Worker P D) : Worker P D → Type 0 where
    -- a producer calls `enqueue`
    submit :
        (r : Request P D) (id now : ℕ)
        → Step w (record w { queue = (enqueue dec w.queue r id now).0 })
    -- the loop's `dequeue` gives a message
    pull :
        (m : Message P)
        → w.running ≡ true
        → w.held ≡ none
        → (dequeue w.queue).1 ≡ some m
        → Step w (record w { queue = (dequeue w.queue).0; held = some m })
    -- the semaphore has a permit, and the task is made
    launch :
        (m : Message P) (n : ℕ)
        → w.held ≡ some m
        → w.permits ≡ suc n
        → Step w (record w { held = none; inflight = w.inflight ++ m ∷ []; permits = n })
    -- a task ends; its callback discards it and releases the permit
    finish :
        (returned : Bool) (others : List (Message P)) (m : Message P) (more : List (Message P))
        → w.inflight ≡ others ++ m ∷ more
        → Step w (record w {
          queue = process returned w.queue m;
          inflight = others ++ more;
          permits = w.permits + 1;
          completed = w.completed + (if returned then 1 else 0);
        })
    -- `stop` cancels the loop, also where it waits for the semaphore
    stop :
        Step w (record w { running = false; held = none; dropped = w.dropped + count_held w.held })

  pub data Reach (w : Worker P D) : Worker P D → Type 0 where
    here : Reach w w
    next : {t u : Worker P D} → Reach w t → Step t u → Reach w u
