-- ===== src/Jobs/Tests.antt =====
-- The job handler of services/jobs.py on concrete input. Results and cache keys are numbers.
use native.Mathlib.Decide.{ℕ_discrete}
use provenancerank.Prelude.{
  ℕ, ◌≡◌, refl, true, false, none, some, Option, [], ◌∷◌, ◌++◌, ◌==◌, take, arith, if◌then◌else◌,
}
use provenancerank.Text.{codes}
use provenancerank.Cache.{lru}
use provenancerank.Queue.{Message, Queue}
use provenancerank.Jobs.{
  Payload, State, Attempt, queued, succeeded, failed, now_running, scoring, now_failed, handle,
  deliver, find_job, update_job, mark_running, mark_done, publish, mark_failed, take_ranked,
  take_cached, cached, execute, give_up, try_job, submit, submit_count,
}
use provenancerank.Queue.Order.{IsValid, lane}
use provenancerank.Jobs.Intake.{message_for, submit-Settled}
use provenancerank.Jobs.Outcomes.{status_at}
use provenancerank.Jobs.Delivery.{Settled, any_saved, deliver-Settled, deliver_live-status}

abbrev payload : Payload ℕ
payload = record {
  job_id = 3;
  jd_text = none;
  candidate_ids = none;
  candidates = some (1 ∷ 2 ∷ []);
  top_k = 10;
  user_id = none;
  jd_hash = codes "ab";
}

abbrev message : Message (Payload ℕ)
message = record {
  payload = payload;
  id = 4;
  priority = 3;
  attempts = 0;
  max_attempts = 2;
  enqueued_at = 1;
}

abbrev state : State ℕ ℕ
state = record {
  jobs =
      (
        3,
        record {
          status = queued;
          jd_hash = codes "ab";
          candidates_count = 2;
          top_k = 10;
          error = none;
        },
      )
      ∷ [];
  results = [];
  audit = [];
  cache = record {
    capacity = 5;
    policy = lru;
    entries = [];
    freq = [];
    counters = [];
    evictions = 0;
  };
  published = [];
}

abbrev attempt : Option ℕ → Attempt ℕ
attempt ranked = record {
  ranked = ranked;
  persisted = true;
  error = codes "boom";
  at_get = 5;
  at_set = 6;
  cache_ttl = 60;
}

-- The ranker gives a result, and saving it fails.
abbrev unsaved : Attempt ℕ
unsaved = record (attempt (some 7)) { persisted = false }

abbrev key_of : Payload ℕ → ℕ
key_of p = p.top_k

abbrev same : ℕ → ℕ
same r = r

twice_failed :
    (deliver ℕ_discrete key_of same state message (attempt none ∷ attempt none ∷ [])).0.published
    ≡ (3, now_running) ∷ (3, scoring) ∷ (3, now_running) ∷ (3, scoring) ∷ (3, now_failed) ∷ []
unfolding deliver handle find_job try_job execute give_up mark_failed publish mark_running mark_done
    update_job cached take_cached take_ranked
twice_failed = refl

state_queued : status_at 3 state ≡ some queued
unfolding status_at find_job
state_queued = refl

deliver-Settled_example :
    Settled 9 3 state
      (deliver ℕ_discrete key_of same state message (attempt none ∷ attempt none ∷ []))
deliver-Settled_example =
    deliver-Settled ℕ_discrete key_of same 1 state message (attempt none ∷ attempt none ∷ []) queued
      9 state_queued refl (omega arith) (omega arith) refl

deliver_live-status_example :
    status_at 3 (deliver ℕ_discrete key_of same state message (unsaved ∷ attempt (some 8) ∷ [])).0
    ≡ some (if any_saved (take 2 (unsaved ∷ attempt (some 8) ∷ [])) then succeeded else failed)
deliver_live-status_example =
    deliver_live-status ℕ_discrete key_of same 1 state message (unsaved ∷ attempt (some 8) ∷ [])
      queued refl state_queued refl (omega arith) (omega arith)

abbrev waiting : Queue (Payload ℕ) ℕ
waiting = record { pq = []; seq = 1; dlq = []; seen = []; enqueued = 1 }

first_failure : (handle ℕ_discrete key_of same state message (attempt none)).1 ≡ false
unfolding handle find_job try_job execute give_up cached take_cached take_ranked
first_failure = refl

counted : submit_count {C = ℕ} (some (1 ∷ 2 ∷ [])) none 50 ≡ 2
unfolding submit_count
counted = refl

abbrev blank : State ℕ ℕ
blank = record state { jobs = [] }

blank_absent : status_at 3 blank ≡ none
unfolding status_at find_job
blank_absent = refl

waiting-IsValid : IsValid waiting
waiting-IsValid = record { ordered = tt; numbered = tt; aligned = tt }

submit-Settled_example :
    let (after, queue) = submit ℕ_discrete blank waiting payload 50 4 1 in
    let m = message_for payload 4 1 in
    (status_at 3 after ≡ some queued)
    × (lane queue 3 ≡ lane waiting 3 ++ (if m.priority == 3 then m ∷ [] else []))
    × Settled 9 3 after (
        deliver ℕ_discrete key_of same after m
          (attempt none ∷ attempt none ∷ attempt (some 8) ∷ []))
submit-Settled_example =
    submit-Settled ℕ_discrete ℕ_discrete key_of same blank waiting payload 50 4 1 3 9
      (attempt none ∷ attempt none ∷ attempt (some 8) ∷ []) blank_absent waiting-IsValid
      (omega arith) refl
