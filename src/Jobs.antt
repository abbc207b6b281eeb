-- ===== src/Jobs.antt =====
-- `JobManager` of services/jobs.py over the job table of db/repositories.py and the cache of
-- services/cache.py: the handler of a queued message, and `submit`. The ranker's result, or that it
-- raised, the clock readings and the ids are arguments; the cache key is a function of the request,
-- by the parameter `key_of`. The session of `_persist` commits or is rolled back and raises; every
-- other session commits. What the columns of a finished job hold beyond its status is left out, except
-- the error.
use provenancerank.Prelude.{
  ℕ, ◌+◌, Bool, true, false, Option, none, some, List, [], ◌∷◌, ◌++◌, leb, ◌==◌, if◌then◌else◌, map,
  length,
}
use provenancerank.Text.{Text}
use provenancerank.Cache.{Cache}
use provenancerank.Cache
use provenancerank.Queue.{Message, Queue, Request, enqueue}
pub mod Outcomes
pub mod Delivery
pub mod Intake
mod Tests

pub data Status : Type 0 where
  queued running succeeded failed : Status

abbrev pub is_finished : Status → Bool
is_finished queued = false
is_finished running = false
is_finished succeeded = true
is_finished failed = true

-- A row of the job table.
pub record JobRun : Type 0 where
  pub status : Status
  pub jd_hash : Text
  pub candidates_count : ℕ
  pub top_k : ℕ
  pub error : Option Text

-- The payload of a message; a candidate is of any type `C`, a user's id is a number.
pub record Payload (C : Type 0) : Type 0 where
  pub job_id : ℕ
  pub jd_text : Option Text
  pub candidate_ids : Option (List Text)
  pub candidates : Option (List C)
  pub top_k : ℕ
  pub user_id : Option ℕ
  pub jd_hash : Text

-- The events that `_publish` sends.
pub data Event : Type 0 where
  now_running cache_hit scoring completed now_failed : Event

-- The job table, the saved results, the audit log and the cache, and what was published, in order.
pub record State (K R : Type 0) : Type 0 where
  pub jobs : List (ℕ × JobRun)
  pub results : List (ℕ × R)
  pub audit : List ℕ
  pub cache : Cache K R
  pub published : List (ℕ × Event)

-- What one attempt meets: the ranker's result, none if it raises, whether `_persist` commits, the first 500 characters of the error's text, the readings of
-- the clock, and the time to live that the settings give.
pub record Attempt (R : Type 0) : Type 0 where
  pub ranked : Option R
  pub persisted : Bool
  pub error : Text
  pub at_get : ℕ
  pub at_set : ℕ
  pub cache_ttl : ℕ

-- `JobRepository.get`
pub find_job : ℕ → List (ℕ × JobRun) → Option JobRun
find_job id [] = none
find_job id ((j, run) ∷ jobs) = if id == j then some run else find_job id jobs

-- `update(JobRun).where(JobRun.id == job_id)`
pub update_job : ℕ → (JobRun → JobRun) → List (ℕ × JobRun) → List (ℕ × JobRun)
update_job id change [] = []
update_job id change ((j, run) ∷ jobs) =
    (j, if id == j then change run else run) ∷ update_job id change jobs

-- `JobRepository.mark_running`
pub mark_running : ℕ → List (ℕ × JobRun) → List (ℕ × JobRun)
mark_running id = update_job id (λ run. record run { status = running })

-- `JobRepository.mark_done`
pub mark_done : ℕ → Status → Option Text → List (ℕ × JobRun) → List (ℕ × JobRun)
mark_done id status error = update_job id (λ run. record run { status = status; error = error })

abbrev pub is_live : {C : Type 0} → Option (List C) → Bool
is_live none = false
is_live (some cs) = true

module _ {K R : Type 0} where
  -- `_publish`
  pub publish : State K R → ℕ → Event → State K R
  publish s id event = record s { published = s.published ++ (id, event) ∷ [] }

  -- `_persist`
  pub persist : State K R → ℕ → R → State K R
  persist s id result = record s {
    jobs = mark_done id succeeded none s.jobs;
    results = s.results ++ (id, result) ∷ [];
    audit = s.audit ++ id ∷ [];
  }

  -- `mark_failed`
  pub mark_failed : State K R → ℕ → Text → State K R
  mark_failed s id error =
      publish (record s { jobs = mark_done id failed (some error) s.jobs }) id now_failed

module _ {C K R : Type 0} (dec : Discrete K) (key_of : Payload C → K) (hit : R → R) where
  -- The end of `_execute`: where `_persist` raises, its session has changed nothing.
  pub complete : State K R → ℕ → Attempt R → R → State K R × Bool
  complete s id a result =
      if a.persisted then (publish (persist s id result) id completed, true) else (s, false)

  -- What `_execute` does with what the ranker gives.
  pub take_ranked : State K R → Payload C → Attempt R → Option R → State K R × Bool
  take_ranked s p a none = (s, false)
  take_ranked s p a (some result) =
      let kept =
        if is_live p.candidates
        then s.cache
        else Cache.set dec s.cache (key_of p) result (some a.cache_ttl) a.at_set in
      complete (record s { cache = kept }) p.job_id a result

  -- The lookup of `_execute`: `self.cache.get(cache_key) if candidates is None else None`
  pub cached : State K R → Payload C → Attempt R → Cache K R × Option R
  cached s p a =
      if is_live p.candidates then (s.cache, none) else Cache.get dec s.cache (key_of p) a.at_get

  -- What `_execute` does with what the cache gives.
  pub take_cached : State K R → Payload C → Attempt R → Option R → State K R × Bool
  take_cached s p a none = take_ranked (publish s p.job_id scoring) p a a.ranked
  take_cached s p a (some result) = complete (publish s p.job_id cache_hit) p.job_id a (hit result)

  -- `_execute`, and whether it returned.
  pub execute : State K R → Payload C → Attempt R → State K R × Bool
  execute s p a =
      let s0 = publish s p.job_id now_running in
      let s1 = record s0 { jobs = mark_running p.job_id s0.jobs } in
      let (after, found) = cached s1 p a in take_cached (record s1 { cache = after }) p a found

  -- The `except` of `_handle`.
  pub give_up : State K R → Message (Payload C) → Text → State K R × Bool
  give_up s m error =
      if leb m.max_attempts (m.attempts + 1)
      then (mark_failed s m.payload.job_id error, true)
      else (s, false)

  -- `_handle` after its test for a finished job.
  pub try_job : State K R → Message (Payload C) → Attempt R → State K R × Bool
  try_job s m a =
      let (after, returned) = execute s m.payload a in
      if returned then (after, true) else give_up after m a.error

  -- `_handle`, and whether it returned.
  pub handle : State K R → Message (Payload C) → Attempt R → State K R × Bool
  handle s m a = elim (find_job m.payload.job_id s.jobs) [
    | none ↦ try_job s m a
    | some run ↦ if is_finished run.status then (s, true) else try_job s m a
  ]

  -- The deliveries of one message: each time the handler raises, it comes again with one attempt
  -- more.
  pub deliver : State K R → Message (Payload C) → List (Attempt R) → State K R × Bool
  deliver s m [] = (s, false)
  deliver s m (a ∷ more) =
      let (after, returned) = handle s m a in
      let rest = deliver after (record m { attempts = m.attempts + 1 }) more in
      if returned then (after, true) else rest

-- The number of candidates that `submit` records; `all` is `ranker_count()`.
pub submit_count : {C : Type 0} → Option (List C) → Option (List Text) → ℕ → ℕ
submit_count (some cs) ids all = length cs
submit_count none (some (c ∷ ids)) all = length (c ∷ ids)
submit_count none (some []) all = all
submit_count none none all = all

-- `submit`, for the payload of a new job id: the row, and the message. A live request goes ahead.
pub submit :
    {C K R D : Type 0}
    → Discrete D
    → State K R
    → Queue (Payload C) D
    → Payload C
    → ℕ
    → ℕ
    → ℕ
    → State K R × Queue (Payload C) D
submit {C} {D = D} dec s q p all msg_id now =
    let run : JobRun = record {
      status = queued;
      jd_hash = p.jd_hash;
      candidates_count = submit_count p.candidates p.candidate_ids all;
      top_k = p.top_k;
      error = none;
    } in
    let request : Request (Payload C) D = record {
      payload = p;
      priority = if is_live p.candidates then 3 else 5;
      max_attempts = 3;
      dedup_key = none;
      dedup_ttl = 300;
    } in
    (record s { jobs = s.jobs ++ (p.job_id, run) ∷ [] }, (enqueue dec q request msg_id now).0)
