-- ===== src/Jobs/Intake.antt =====
-- `submit` of services/jobs.py, and what becomes of the job.
use provenancerank.Prelude.{
  ℕ, ◌<◌, ◌≡◌, refl, false, none, some, List, [], ◌∷◌, ◌++◌, ◌==◌, if◌then◌else◌, arith, length,
}
use provenancerank.Queue.{Message, Queue, enqueue, accept, new_message}
use provenancerank.Queue.Order.{IsValid, lane, lane-put}
use provenancerank.Jobs.{
  JobRun, queued, Payload, State, Attempt, is_live, find_job, submit, deliver,
}
use provenancerank.Jobs.Outcomes.{status_at}
use provenancerank.Jobs.Delivery.{Settled, deliver-Settled}

-- The message that `submit` puts: it may be tried three times.
abbrev pub message_for : {C : Type 0} → Payload C → ℕ → ℕ → Message (Payload C)
message_for p id now = record {
  payload = p;
  id = id;
  priority = if is_live p.candidates then 3 else 5;
  attempts = 0;
  max_attempts = 3;
  enqueued_at = now;
}

find-last :
    (id : ℕ) (run : JobRun) (jobs : List (ℕ × JobRun))
    → find_job id jobs ≡ none
    → find_job id (jobs ++ (id, run) ∷ []) ≡ some run
unfolding find_job
find-last id run [] h = ground arith
find-last id run ((j, old) ∷ jobs) h = ground (arith, find-last id run jobs)

module _ {C K R D : Type 0} (same : Discrete D) where
  submit-queued :
      (s : State K R) (q : Queue (Payload C) D) (p : Payload C) (all id now : ℕ)
      → status_at p.job_id s ≡ none
      → status_at p.job_id (submit same s q p all id now).0 ≡ some queued
  unfolding submit status_at
  submit-queued s q p all id now new =
      let absent : find_job p.job_id s.jobs ≡ none = ground (arith, new) in
      rw (find-last p.job_id _ s.jobs absent) refl

  lane-submit :
      (s : State K R) (q : Queue (Payload C) D) (p : Payload C) (all id now lane_of : ℕ)
      → IsValid q
      → lane (submit same s q p all id now).1 lane_of
        ≡ lane q lane_of
          ++ (if (message_for p id now).priority == lane_of then message_for p id now ∷ [] else [])
  unfolding submit enqueue accept new_message lane
  lane-submit s q p all id now lane_of valid = lane-put q (message_for p id now) lane_of valid

  -- On a valid queue, a request with a new job id gets a queued row, and a message with three attempts at the end of
  -- the lane of its priority, 3 for a live request and 5 for another, with the other lanes as they
  -- were; three deliveries of that message are then enough to finish the job.
  pub submit-Settled :
      (dec : Discrete K) (key_of : Payload C → K) (hit : R → R) (s : State K R)
      (q : Queue (Payload C) D) (p : Payload C) (all id now lane_of other : ℕ)
      (attempts : List (Attempt R))
      → status_at p.job_id s ≡ none
      → IsValid q
      → 2 < length attempts
      → (other == p.job_id) ≡ false
      → let (after, waiting) = submit same s q p all id now in
        let message = message_for p id now in
        (status_at p.job_id after ≡ some queued)
        × (lane waiting lane_of
            ≡ lane q lane_of ++ (if message.priority == lane_of then message ∷ [] else []))
        × Settled other p.job_id after (deliver dec key_of hit after message attempts)
  submit-Settled dec key_of hit s q p all id now lane_of other attempts new valid enough ne =
      let is_queued = submit-queued s q p all id now new in
      (
        is_queued,
        lane-submit s q p all id now lane_of valid,
        deliver-Settled dec key_of hit 2 (submit same s q p all id now).0 (message_for p id now)
            attempts queued other is_queued refl (omega arith) enough ne,
      )
