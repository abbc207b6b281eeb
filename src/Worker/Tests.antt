-- ===== src/Worker/Tests.antt =====
-- The worker of services/queue.py on concrete input.
use native.Mathlib.Decide.{ℕ_discrete}
use provenancerank.Prelude.{ℕ, refl, false, none, [], ◌∷◌}
use provenancerank.Queue.{
  Message, Request, init, enqueue, dequeue, retry, put, accept, new_message, insert, before, recent,
}
use provenancerank.Worker.{
  Worker, start, process, submit, pull, launch, finish, stop, Reach, here, next,
}
use provenancerank.Worker.Safety.{IsSafe, Reach-IsSafe}

program : Unit {0}
unfolding init put enqueue dequeue retry accept new_message insert before recent start process
program = tt

abbrev message : Message ℕ
message = record {
  payload = 7;
  id = 4;
  priority = 5;
  attempts = 0;
  max_attempts = 3;
  enqueued_at = 10;
}

abbrev request : Request ℕ ℕ
request = record { payload = 7; priority = 5; max_attempts = 3; dedup_key = none; dedup_ttl = 300 }

-- One message has failed once and waits again, and the worker is stopped.
abbrev stopped : Worker ℕ ℕ
stopped = record {
  queue = record {
    pq = record { priority = 5; seq = 2; message = record message { attempts = 1 } } ∷ [];
    seq = 2;
    dlq = [];
    seen = [];
    enqueued = 1;
  };
  running = false;
  held = none;
  inflight = [];
  permits = 2;
  completed = 0;
  dropped = 0;
}

stopped-Reach : Reach ℕ_discrete (start 2) stopped
unfolding program
stopped-Reach =
    next
      (next
        (next (next (next here (submit request 4 10)) (pull message refl refl refl))
          (launch message 1 refl refl))
        (finish false [] message [] refl))
      stop

Reach-IsSafe_example : IsSafe 2 stopped
Reach-IsSafe_example = Reach-IsSafe ℕ_discrete 2 stopped-Reach
