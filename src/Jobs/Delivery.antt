-- ===== src/Jobs/Delivery.antt =====
-- The deliveries of a job's message, in services/jobs.py.
use provenancerank.Prelude.{
  ℕ, zero, suc, ◌+◌, ◌<◌, ◌≡◌, refl, ◌∙◌, ◌⊎◌, inl, inr, Bool, true, false, ◌&&◌, ◌||◌, Option,
  none, some, List, [], ◌∷◌, leb, ◌==◌, if◌then◌else◌, arith, Bool-cases, Option-cases, length,
  take,
}
use provenancerank.Text.{Text}
use provenancerank.Queue.{Message, Queue, retry, put}
use provenancerank.Jobs.{
  Status, running, succeeded, failed, is_finished, Payload, State, Attempt, is_live, take_ranked,
  take_cached, cached, complete, execute, give_up, try_job, handle, deliver, find_job,
}
use provenancerank.Jobs.Outcomes.{status_at, open-Tried, handle_finished}

abbrev pub is_some : {A : Type 0} → Option A → Bool
is_some none = false
is_some (some a) = true

-- At one of these attempts the ranker gave a result and `_persist` saved it.
pub any_saved : {R : Type 0} → List (Attempt R) → Bool
any_saved [] = false
any_saved (a ∷ attempts) = (is_some a.ranked && a.persisted) || any_saved attempts

-- The end of a job: the handler returned, the job is finished, and another job is as it was.
pub record Settled {K R : Type 0} (q : ℕ) (id : ℕ) (before : State K R) (end : State K R × Bool)
    : Type 0 where
  pub returned : end.1 ≡ true
  pub status : (status_at id end.0 ≡ some succeeded) ⊎ (status_at id end.0 ≡ some failed)
  pub other : status_at q end.0 ≡ status_at q before

module _ {C K R : Type 0} (dec : Discrete K) (key_of : Payload C → K) (hit : R → R) where
  deliver-returned :
      (s : State K R) (m : Message (Payload C)) (a : Attempt R) (more : List (Attempt R))
      → (handle dec key_of hit s m a).1 ≡ true
      → deliver dec key_of hit s m (a ∷ more) ≡ ((handle dec key_of hit s m a).0, true)
  unfolding deliver
  deliver-returned s m a more h = rw h refl

  deliver-raised :
      (s : State K R) (m : Message (Payload C)) (a : Attempt R) (more : List (Attempt R))
      → (handle dec key_of hit s m a).1 ≡ false
      → deliver dec key_of hit s m (a ∷ more)
        ≡ deliver dec key_of hit
            (handle dec key_of hit s m a).0
            (record m { attempts = m.attempts + 1 })
            more
  unfolding deliver
  deliver-raised s m a more h = rw h refl

  -- A job in the table that is not finished is finished by the deliveries of its message, at the
  -- latest when its attempts run out, whatever the ranker, the cache and the saving of the result do,
  -- where the other sessions commit: the handler then returns, and no other job's status has changed.
  pub deliver-Settled :
      (k : ℕ) (s : State K R) (m : Message (Payload C)) (attempts : List (Attempt R)) (st : Status)
      (q : ℕ)
      → status_at m.payload.job_id s ≡ some st
      → is_finished st ≡ false
      → m.attempts + suc k ≡ m.max_attempts
      → k < length attempts
      → (q == m.payload.job_id) ≡ false
      → Settled q m.payload.job_id s (deliver dec key_of hit s m attempts)
  deliver-Settled k s m [] st q h unfinished left enough ne = absurd (omega arith)
  deliver-Settled zero s m (a ∷ more) st q h unfinished left enough ne =
      let tried = open-Tried dec key_of hit s m a st h unfinished in
      let last : leb m.max_attempts (m.attempts + 1) ≡ true = ground arith in
      let returned : (handle dec key_of hit s m a).1 ≡ true = ground (arith, tried.answer) in
      rw (deliver-returned s m a more returned) (record {
        returned = refl;
        status = ground (arith, tried.status);
        other = tried.others q ne;
      })
  deliver-Settled (suc k) s m (a ∷ more) st q h unfinished left enough ne =
      let tried = open-Tried dec key_of hit s m a st h unfinished in
      let next : leb m.max_attempts (m.attempts + 1) ≡ false = ground arith in
      elim (Bool-cases (execute dec key_of hit s m.payload a).1) [
        | inl ok ↦
            let returned : (handle dec key_of hit s m a).1 ≡ true = ground (arith, tried.answer) in
            rw (deliver-returned s m a more returned) (record {
              returned = refl;
              status = inl (ground (arith, tried.status));
              other = tried.others q ne;
            })
        | inr raised ↦
            let again : (handle dec key_of hit s m a).1 ≡ false = ground (arith, tried.answer) in
            let rest =
              deliver-Settled k (handle dec key_of hit s m a).0
                (record m { attempts = m.attempts + 1 }) more running q
                (ground (arith, tried.status)) refl (omega arith) (omega arith) ne in
            rw (deliver-raised s m a more again) (record {
              returned = rest.returned;
              status = rest.status;
              other = rest.other ∙ tried.others q ne;
            })
      ]

  -- Once a job's message has been delivered until its attempts ran out, a further delivery, of any
  -- message for that job, changes nothing and returns.
  handle-deliver :
      (k : ℕ) (s : State K R) (m m' : Message (Payload C)) (attempts : List (Attempt R))
      (a' : Attempt R) (st : Status)
      → status_at m.payload.job_id s ≡ some st
      → is_finished st ≡ false
      → m.attempts + suc k ≡ m.max_attempts
      → k < length attempts
      → m'.payload.job_id ≡ m.payload.job_id
      → let after = (deliver dec key_of hit s m attempts).0 in
        handle dec key_of hit after m' a' ≡ (after, true)
  handle-deliver k s m m' attempts a' st h unfinished left enough same =
      let after = (deliver dec key_of hit s m attempts).0 in
      let settled =
        deliver-Settled k s m attempts st (m.payload.job_id + 1) h unfinished left enough
          (ground arith) in
      elim settled.status [
        | inl won ↦ handle_finished dec key_of hit after m' a' succeeded (rw same won) refl
        | inr lost ↦ handle_finished dec key_of hit after m' a' failed (rw same lost) refl
      ]

  give_up-raised :
      (s : State K R) (m : Message (Payload C)) (error : Text)
      → (give_up dec key_of hit s m error).1 ≡ false
      → m.attempts + 1 < m.max_attempts
  unfolding give_up
  give_up-raised s m error h = ground arith

  try_job-raised :
      (s : State K R) (m : Message (Payload C)) (a : Attempt R)
      → (try_job dec key_of hit s m a).1 ≡ false
      → m.attempts + 1 < m.max_attempts
  unfolding try_job
  try_job-raised s m a h = elim (Bool-cases (execute dec key_of hit s m.payload a).1) [
    | inl ok ↦ absurd (ground (arith, rw ok at h))
    | inr raised ↦
        give_up-raised (execute dec key_of hit s m.payload a).0 m a.error (rw raised at h)
  ]

  handle-raised :
      (s : State K R) (m : Message (Payload C)) (a : Attempt R)
      → (handle dec key_of hit s m a).1 ≡ false
      → m.attempts + 1 < m.max_attempts
  unfolding handle
  handle-raised s m a h = elim (Option-cases (find_job m.payload.job_id s.jobs)) [
    | inl absent ↦ try_job-raised s m a (rw (absent, handle) at h)
    | inr (run, found) ↦ elim (Bool-cases (is_finished run.status)) [
      | inl done ↦ absurd (ground (arith, rw (found, handle) at h))
      | inr todo ↦ try_job-raised s m a (rw todo at (rw (found, handle) at h))
    ]
  ]

  -- Where the handler raises, the queue's `retry` puts the message back: no message of a job ever
  -- becomes a dead letter, since the last failure is recorded as the job's and not raised.
  retry-handle_raised :
      {D : Type 0} (q : Queue (Payload C) D) (s : State K R) (m : Message (Payload C))
      (a : Attempt R)
      → (handle dec key_of hit s m a).1 ≡ false
      → ((retry q m).1 ≡ true) × ((retry q m).0.dlq ≡ q.dlq)
  unfolding retry put
  retry-handle_raised q s m a h = ground (arith, handle-raised s m a h)

  if_saved :
      (b : Bool) (after s : State K R)
      → let result : State K R × Bool = if b then (after, true) else (s, false) in result.1 ≡ b
  if_saved true after s = refl
  if_saved false after s = refl

  -- A live request never meets the cache.
  execute_live :
      (s : State K R) (p : Payload C) (a : Attempt R)
      → is_live p.candidates ≡ true
      → (execute dec key_of hit s p a).1 ≡ (is_some a.ranked && a.persisted)
  unfolding execute cached take_cached take_ranked complete
  execute_live s p a live = elim (Option-cases a.ranked) [
    | inl none_yet ↦ rw (live, none_yet) refl
    | inr (r, ranked) ↦ rw (live, ranked) (if_saved a.persisted _ _)
  ]

  -- For a live request whose job is in the table and not finished, where of the job's sessions only
  -- that of `_persist` can fail: the deliveries end with the job succeeded if at one of the attempts
  -- that were left the ranker gave a result and `_persist` saved it, and failed if at each of them the
  -- ranker or `_persist` raised.
  pub deliver_live-status :
      (k : ℕ) (s : State K R) (m : Message (Payload C)) (attempts : List (Attempt R)) (st : Status)
      → is_live m.payload.candidates ≡ true
      → status_at m.payload.job_id s ≡ some st
      → is_finished st ≡ false
      → m.attempts + suc k ≡ m.max_attempts
      → k < length attempts
      → status_at m.payload.job_id (deliver dec key_of hit s m attempts).0
        ≡ some (if any_saved (take (suc k) attempts) then succeeded else failed)
  unfolding any_saved
  deliver_live-status k s m [] st live h unfinished left enough = absurd (omega arith)
  deliver_live-status zero s m (a ∷ more) st live h unfinished left enough =
      let tried = open-Tried dec key_of hit s m a st h unfinished in
      let last : leb m.max_attempts (m.attempts + 1) ≡ true = ground arith in
      let returned : (handle dec key_of hit s m a).1 ≡ true = ground (arith, tried.answer) in
      rw (deliver-returned s m a more returned)
        (ground (arith, tried.status, execute_live s m.payload a live))
  deliver_live-status (suc k) s m (a ∷ more) st live h unfinished left enough =
      let tried = open-Tried dec key_of hit s m a st h unfinished in
      let next : leb m.max_attempts (m.attempts + 1) ≡ false = ground arith in
      let ranked = execute_live s m.payload a live in
      elim (Bool-cases (execute dec key_of hit s m.payload a).1) [
        | inl ok ↦
            let returned : (handle dec key_of hit s m a).1 ≡ true = ground (arith, tried.answer) in
            rw (deliver-returned s m a more returned) (ground (arith, tried.status, ranked))
        | inr raised ↦
            let again : (handle dec key_of hit s m a).1 ≡ false = ground (arith, tried.answer) in
            let rest =
              deliver_live-status k (handle dec key_of hit s m a).0
                (record m { attempts = m.attempts + 1 }) more running live
                (ground (arith, tried.status)) refl (omega arith) (omega arith) in
            rw (deliver-raised s m a more again) (rest ∙ ground (arith, ranked))
      ]
