-- ===== src/Jobs/Outcomes.antt =====
-- What one delivery does to the job table, in services/jobs.py.
use mathlib.Core.Option
use provenancerank.Prelude.{
  ℕ, ◌+◌, ◌≡◌, refl, inl, inr, Bool, true, false, Option, none, some, List, [], ◌∷◌, leb, ◌||◌,
  ◌==◌, if◌then◌else◌, arith, Bool-cases, Option-cases,
}
use provenancerank.Text.{Text}
use provenancerank.Queue.{Message}
use provenancerank.Jobs.{
  Status, running, succeeded, failed, is_finished, JobRun, Payload, State, Attempt, find_job,
  update_job, mark_running, mark_done, publish, persist, mark_failed, complete, take_ranked,
  take_cached, execute, give_up, try_job, handle,
}

-- The status of a job, if it is in the table.
unfoldable pub status_at : {K R : Type 0} → ℕ → State K R → Option Status
status_at id s = Option.map (λ run. run.status) (find_job id s.jobs)

-- The new status of a job that is in the table.
abbrev pub moved : Status → Option Status → Option Status
moved st none = none
moved st (some old) = some st

find-update :
    (q id : ℕ) (change : JobRun → JobRun) (jobs : List (ℕ × JobRun))
    → find_job q (update_job id change jobs)
      ≡ (if q == id then Option.map change (find_job q jobs) else find_job q jobs)
unfolding find_job update_job
find-update q id change [] = ground arith
find-update q id change ((j, run) ∷ jobs) = ground (arith, find-update q id change jobs)

-- An update of the statuses alone.
status-update :
    (q id : ℕ) (st : Status) (change : JobRun → JobRun) (jobs : List (ℕ × JobRun))
    → ((run : JobRun) → (change run).status ≡ st)
    → Option.map (λ run. run.status) (find_job q (update_job id change jobs)) ≡ (
        if q == id
        then moved st (Option.map (λ run. run.status) (find_job q jobs))
        else Option.map (λ run. run.status) (find_job q jobs))
status-update q id st change jobs h = elim (Option-cases (find_job q jobs)) [
  | inl absent ↦ rw (find-update, absent) (ground arith)
  | inr (run, found) ↦ rw (find-update, found) (ground (arith, h run))
]

eq_self : (n : ℕ) → (n == n) ≡ true
eq_self n = ground arith

moved_twice :
    (b : Bool) (o : Option Status)
    → (if b
        then moved succeeded (if b then moved running o else o)
        else (if b then moved running o else o))
      ≡ (if b then moved succeeded o else o)
moved_twice true none = refl
moved_twice true (some st) = refl
moved_twice false o = refl

module _ {C K R : Type 0} (dec : Discrete K) (key_of : Payload C → K) (hit : R → R) where
  complete-jobs :
      (s : State K R) (id : ℕ) (a : Attempt R) (result : R)
      → let (after, returned) = complete dec key_of hit s id a result in
        after.jobs ≡ (if returned then mark_done id succeeded none s.jobs else s.jobs)
  unfolding complete persist publish
  complete-jobs s id a result = elim (Bool-cases a.persisted) [
    | inl e ↦ rw e refl
    | inr e ↦ rw e refl
  ]

  ranked-jobs :
      (s : State K R) (p : Payload C) (a : Attempt R) (o : Option R)
      → let (after, returned) = take_ranked dec key_of hit s p a o in
        after.jobs ≡ (if returned then mark_done p.job_id succeeded none s.jobs else s.jobs)
  unfolding take_ranked
  ranked-jobs s p a none = refl
  ranked-jobs s p a (some result) = complete-jobs _ p.job_id a result

  cached-jobs :
      (s : State K R) (p : Payload C) (a : Attempt R) (o : Option R)
      → let (after, returned) = take_cached dec key_of hit s p a o in
        after.jobs ≡ (if returned then mark_done p.job_id succeeded none s.jobs else s.jobs)
  unfolding take_cached publish
  cached-jobs s p a none = ranked-jobs _ p a a.ranked
  cached-jobs s p a (some result) = complete-jobs _ p.job_id a (hit result)

  execute-jobs :
      (s : State K R) (p : Payload C) (a : Attempt R)
      → let (after, returned) = execute dec key_of hit s p a in
        let started = mark_running p.job_id s.jobs in
        after.jobs ≡ (if returned then mark_done p.job_id succeeded none started else started)
  unfolding execute publish
  execute-jobs s p a = cached-jobs _ p a _

  status-started :
      (q id : ℕ) (jobs : List (ℕ × JobRun))
      → Option.map (λ run. run.status) (find_job q (mark_running id jobs)) ≡ (
          if q == id
          then moved running (Option.map (λ run. run.status) (find_job q jobs))
          else Option.map (λ run. run.status) (find_job q jobs))
  unfolding mark_running
  status-started q id jobs = status-update q id running _ jobs (λ run. refl)

  status-done :
      (q id : ℕ) (st : Status) (error : Option Text) (jobs : List (ℕ × JobRun))
      → Option.map (λ run. run.status) (find_job q (mark_done id st error jobs)) ≡ (
          if q == id
          then moved st (Option.map (λ run. run.status) (find_job q jobs))
          else Option.map (λ run. run.status) (find_job q jobs))
  unfolding mark_done
  status-done q id st error jobs = status-update q id st _ jobs (λ run. refl)

  -- `_execute` leaves the job succeeded if it returns, and running if it raises, and moves no other.
  execute-status :
      (q : ℕ) (s : State K R) (p : Payload C) (a : Attempt R)
      → let (after, returned) = execute dec key_of hit s p a in
        status_at q after ≡ (
          if q == p.job_id
          then moved (if returned then succeeded else running) (status_at q s)
          else status_at q s)
  unfolding status_at
  execute-status q s p a = elim (Bool-cases (execute dec key_of hit s p a).1) [
    | inl returned ↦
        rw (execute-jobs s p a, returned)
          (rw (status-done, status-started) (moved_twice (q == p.job_id) (status_at q s)))
    | inr raised ↦ rw (execute-jobs s p a, raised) (status-started q p.job_id s.jobs)
  ]

  -- What one delivery of an unfinished job that is in the table does.
  pub record Tried (s : State K R) (m : Message (Payload C)) (a : Attempt R) : Type 0 where
    pub answer :
        (handle dec key_of hit s m a).1
        ≡ ((execute dec key_of hit s m.payload a).1 || leb m.max_attempts (m.attempts + 1))
    pub status :
        status_at m.payload.job_id (handle dec key_of hit s m a).0
        ≡ some (
            if (execute dec key_of hit s m.payload a).1
            then succeeded
            else if leb m.max_attempts (m.attempts + 1)
            then failed
            else running)
    pub others :
        (q : ℕ)
        → (q == m.payload.job_id) ≡ false
        → status_at q (handle dec key_of hit s m a).0 ≡ status_at q s

  failed-jobs :
      (s : State K R) (id : ℕ) (error : Text)
      → (mark_failed s id error).jobs ≡ mark_done id failed (some error) s.jobs
  unfolding mark_failed publish
  failed-jobs s id error = refl

  handle_open :
      (s : State K R) (m : Message (Payload C)) (a : Attempt R) (st : Status)
      → status_at m.payload.job_id s ≡ some st
      → is_finished st ≡ false
      → handle dec key_of hit s m a ≡ try_job dec key_of hit s m a
  unfolding handle status_at
  handle_open s m a st h unfinished = elim (Option-cases (find_job m.payload.job_id s.jobs)) [
    | inl absent ↦ rw (absent, handle) refl
    | inr (run, found) ↦
        let same : is_finished run.status ≡ false = ground (arith, h) in
        rw (found, handle) (rw same refl)
  ]

  -- A delivery of a finished job changes nothing.
  pub handle_finished :
      (s : State K R) (m : Message (Payload C)) (a : Attempt R) (st : Status)
      → status_at m.payload.job_id s ≡ some st
      → is_finished st ≡ true
      → handle dec key_of hit s m a ≡ (s, true)
  unfolding handle status_at
  handle_finished s m a st h finished = elim (Option-cases (find_job m.payload.job_id s.jobs)) [
    | inl absent ↦ absurd (ground (arith, h))
    | inr (run, found) ↦
        let same : is_finished run.status ≡ true = ground (arith, h) in
        rw (found, handle) (rw same refl)
  ]

  failed-status :
      (q id : ℕ) (s : State K R) (error : Text)
      → status_at q (mark_failed s id error)
        ≡ (if q == id then moved failed (status_at q s) else status_at q s)
  unfolding status_at
  failed-status q id s error =
      rw (failed-jobs s id error) (status-done q id failed (some error) s.jobs)

  execute_mine :
      (s : State K R) (p : Payload C) (a : Attempt R) (st : Status)
      → status_at p.job_id s ≡ some st
      → status_at p.job_id (execute dec key_of hit s p a).0
        ≡ some (if (execute dec key_of hit s p a).1 then succeeded else running)
  execute_mine s p a st h = rw (execute-status p.job_id s p a, h, eq_self p.job_id) refl

  execute_other :
      (q : ℕ) (s : State K R) (p : Payload C) (a : Attempt R)
      → (q == p.job_id) ≡ false
      → status_at q (execute dec key_of hit s p a).0 ≡ status_at q s
  execute_other q s p a ne = rw (execute-status q s p a, ne) refl

  try_job-Tried :
      (s : State K R) (m : Message (Payload C)) (a : Attempt R) (st : Status)
      → status_at m.payload.job_id s ≡ some st
      → handle dec key_of hit s m a ≡ try_job dec key_of hit s m a
      → Tried s m a
  unfolding try_job give_up
  try_job-Tried s m a st h e = elim (Bool-cases (execute dec key_of hit s m.payload a).1) [
    | inl returned ↦ record {
      answer = rw (e, returned) refl;
      status = rw (e, returned) (rw (execute_mine s m.payload a st h, returned) refl);
      others = λ q ne. rw (e, returned) (execute_other q s m.payload a ne);
    }
    | inr raised ↦ elim (Bool-cases (leb m.max_attempts (m.attempts + 1))) [
      | inl last ↦ record {
        answer = rw (e, raised, last) refl;
        status =
            rw (e, raised, last)
              (rw (failed-status, execute_mine s m.payload a st h, eq_self m.payload.job_id) refl);
        others = λ q ne.
            rw (e, raised, last) (rw (failed-status, ne) (execute_other q s m.payload a ne));
      }
      | inr again ↦ record {
        answer = rw (e, raised, again) refl;
        status = rw (e, raised, again) (rw (execute_mine s m.payload a st h, raised) refl);
        others = λ q ne. rw (e, raised, again) (execute_other q s m.payload a ne);
      }
    ]
  ]

  pub open-Tried :
      (s : State K R) (m : Message (Payload C)) (a : Attempt R) (st : Status)
      → status_at m.payload.job_id s ≡ some st
      → is_finished st ≡ false
      → Tried s m a
  open-Tried s m a st h unfinished = try_job-Tried s m a st h (handle_open s m a st h unfinished)
