-- ===== src/Worker/Safety.antt =====
-- What holds of `QueueWorker` of services/queue.py in every interleaving.
use provenancerank.Prelude.{
  ℕ, suc, ◌+◌, ◌≡◌, refl, Bool, true, false, Option, none, some, [], ◌∷◌, if◌then◌else◌, All,
  length, length-append, All-append, All-append_split, ap, arith,
}
use provenancerank.Queue.{Message, Queue}
use provenancerank.Queue.Counts.{
  MayTry, Fair, init-Fair, init_counts, enqueue-Fair, enqueue_counts, retry-Fair, retry_counts,
  dequeue-Fair, dequeue_counts,
}
use provenancerank.Worker.{
  Worker, start, count_held, process, Step, submit, pull, launch, finish, stop, Reach, here, next,
}

abbrev HeldMayTry : {P : Type 0} → Option (Message P) → Type 0
HeldMayTry none = Unit
HeldMayTry (some m) = MayTry m

-- The permits and the running tasks make up the concurrency; every message ever put waits, is held,
-- runs, was completed, was dropped by `stop` or is a dead letter; and no message is tried more often
-- than its `max_attempts` allow.
pub record IsSafe {P D : Type 0} (concurrency : ℕ) (w : Worker P D) : Type 0 where
  pub permits : w.permits + length w.inflight ≡ concurrency
  pub conserved :
      w.queue.enqueued
      ≡ length w.queue.pq
        + length w.queue.dlq
        + count_held w.held
        + length w.inflight
        + w.completed
        + w.dropped
  pub fair : Fair w.queue
  pub pulled : HeldMayTry w.held
  pub running : All MayTry w.inflight

module _ {P D : Type 0} (dec : Discrete D) (n : ℕ) where
  process-Fair :
      (returned : Bool) (q : Queue P D) (m : Message P)
      → MayTry m
      → Fair q
      → Fair (process returned q m)
  unfolding process
  process-Fair true q m may h = h
  process-Fair false q m may h = retry-Fair q m may h

  process_counts :
      (returned : Bool) (q : Queue P D) (m : Message P)
      → (length (process returned q m).pq
            + length (process returned q m).dlq
            + (if returned then 1 else 0)
          ≡ suc (length q.pq + length q.dlq))
        × ((process returned q m).enqueued ≡ q.enqueued)
  unfolding process
  process_counts true q m = (omega arith, refl)
  process_counts false q m = let (counts, same) = retry_counts q m in (omega (arith, counts), same)

  Step-IsSafe : {w u : Worker P D} → Step dec w u → IsSafe n w → IsSafe n u
  Step-IsSafe {w} (submit r id now) h =
      let (counts, dead) = enqueue_counts dec w.queue r id now in
      record {
        permits = h.permits;
        conserved = omega (arith, h.conserved, counts, ap length dead);
        fair = enqueue-Fair dec w.queue r id now h.fair;
        pulled = h.pulled;
        running = h.running;
      }
  Step-IsSafe {w} (pull m on free out) h =
      let (shorter, dead, total) = dequeue_counts w.queue m out in
      let (fair, may) = dequeue-Fair w.queue m out h.fair in
      record {
        permits = h.permits;
        conserved = omega (arith, h.conserved, shorter, ap length dead, total, ap count_held free);
        fair = fair;
        pulled = may;
        running = h.running;
      }
  Step-IsSafe {w} (launch m k held permit) h =
      let longer = length-append w.inflight (m ∷ []) in
      let may : MayTry m = rw held at h.pulled in
      record {
        permits = omega (arith, h.permits, longer);
        conserved = omega (arith, h.conserved, longer, ap count_held held);
        fair = h.fair;
        pulled = tt;
        running = All-append MayTry w.inflight (m ∷ []) h.running (may, tt);
      }
  Step-IsSafe {w} (finish returned others m more e) h =
      let (left, right) = All-append_split MayTry others (m ∷ more) (rw e at h.running) in
      let (counts, total) = process_counts returned w.queue m in
      let before = length-append others (m ∷ more) in
      let after = length-append others more in
      record {
        permits = omega (arith, h.permits, before, after, ap length e);
        conserved = omega (arith, h.conserved, counts, total, before, after, ap length e);
        fair = process-Fair returned w.queue m right.0 h.fair;
        pulled = h.pulled;
        running = All-append MayTry others more left right.1;
      }
  Step-IsSafe {w} stop h = record {
    permits = h.permits;
    conserved = omega (arith, h.conserved);
    fair = h.fair;
    pulled = tt;
    running = h.running;
  }

  steps-IsSafe : {w u : Worker P D} → IsSafe n w → Reach dec w u → IsSafe n u
  steps-IsSafe h here = h
  steps-IsSafe h (next r s) = Step-IsSafe s (steps-IsSafe h r)

  -- In every interleaving of producers, the loop, the tasks and `stop`, from a worker started with
  -- `n` permits: the permits left and the running tasks add up to `n`; each message put is counted
  -- once as waiting, dead letter, pulled, running, completed or dropped by `stop`; every message
  -- that waits, is pulled or runs is untried or has failed fewer times than its `max_attempts`; and
  -- every dead letter has failed exactly `max_attempts` times, or once if that is 0.
  pub Reach-IsSafe : {w : Worker P D} → Reach dec (start n) w → IsSafe n w
  unfolding start
  Reach-IsSafe r =
      steps-IsSafe
        (record {
          permits = omega arith;
          conserved = init_counts P D;
          fair = init-Fair;
          pulled = tt;
          running = tt;
        })
        r
