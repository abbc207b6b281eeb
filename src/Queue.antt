-- ===== src/Queue.antt =====
-- `InMemoryQueue` of services/queue.py. Priorities are natural numbers (the service uses 3 and 5), a
-- message's random id is an argument, a number, and so is a clock reading. `asyncio.PriorityQueue`
-- is a list kept in the order of `_Prioritized`, from which `get` takes the first.
use provenancerank.Prelude.{
  ℕ, ◌+◌, Bool, true, false, ◌&&◌, ◌||◌, Option, none, some, List, [], ◌∷◌, ◌++◌, length, ltb, leb,
  ◌==◌, if◌then◌else◌, select,
}
use provenancerank.Dict.{has_key, assign}
pub mod Order
pub mod Dedup
pub mod Counts
pub mod Alone
mod Tests

pub record Message (P : Type 0) : Type 0 where
  pub payload : P
  pub id : ℕ
  pub priority : ℕ
  pub attempts : ℕ
  pub max_attempts : ℕ
  pub enqueued_at : ℕ

-- `_Prioritized`
pub record Prioritized (P : Type 0) : Type 0 where
  pub priority : ℕ
  pub seq : ℕ
  pub message : Message P

-- `InMemoryQueue`, with `_seen` a dictionary from keys of type `D`.
pub record Queue (P D : Type 0) : Type 0 where
  pub pq : List (Prioritized P)
  pub seq : ℕ
  pub dlq : List (Message P)
  pub seen : List (D × ℕ)
  pub enqueued : ℕ

pub record Stats : Type 0 where
  pub depth : ℕ
  pub dead_letter : ℕ
  pub enqueued_total : ℕ

module _ {P : Type 0} where
  -- The order of `@dataclass(order=True)`: by priority, then by sequence number.
  unfoldable pub before : Prioritized P → Prioritized P → Bool
  before x y = ltb x.priority y.priority || (x.priority == y.priority && ltb x.seq y.seq)

  -- `PriorityQueue.put`
  unfoldable pub insert : Prioritized P → List (Prioritized P) → List (Prioritized P)
  unfolding before
  insert x [] = x ∷ []
  insert x (y ∷ ys) = if before x y then x ∷ y ∷ ys else y ∷ insert x ys

-- The arguments of `enqueue`. An absent and an empty `dedup_key` are both `none`.
pub record Request (P D : Type 0) : Type 0 where
  pub payload : P
  pub priority : ℕ
  pub max_attempts : ℕ
  pub dedup_key : Option D
  pub dedup_ttl : ℕ

-- The entries of `_seen` that are not older than the window; `now - t < dedup_ttl` is written as a
-- sum.
unfoldable pub recent : {D : Type 0} → ℕ → ℕ → List (D × ℕ) → List (D × ℕ)
recent now ttl seen = select (λ e. ltb now (e.1 + ttl)) seen

module _ {P D : Type 0} where
  unfoldable pub init : Queue P D
  init = record { pq = []; seq = 0; dlq = []; seen = []; enqueued = 0 }

  -- `self._seq += 1` and `self._pq.put(_Prioritized(priority, self._seq, msg))`
  unfoldable pub put : Queue P D → Message P → Queue P D
  put q m =
      let seq = q.seq + 1 in
      record q {
        pq = insert (record { priority = m.priority; seq = seq; message = m }) q.pq;
        seq = seq;
      }

  -- `Message(payload=payload, priority=priority, max_attempts=max_attempts)`
  unfoldable pub new_message : Request P D → ℕ → ℕ → Message P
  new_message r id now = record {
    payload = r.payload;
    id = id;
    priority = r.priority;
    attempts = 0;
    max_attempts = r.max_attempts;
    enqueued_at = now;
  }

  -- The end of `enqueue`, where the message is put.
  unfoldable pub accept : Queue P D → Request P D → ℕ → ℕ → Queue P D × Option ℕ
  accept q r id now = (record (put q (new_message r id now)) { enqueued = q.enqueued + 1 }, some id)

  -- `enqueue`
  unfoldable pub enqueue : Discrete D → Queue P D → Request P D → ℕ → ℕ → Queue P D × Option ℕ
  unfolding recent has_key
  enqueue dec q r id now = elim r.dedup_key [
    | none ↦ accept q r id now
    | some key ↦
        let seen = recent now r.dedup_ttl q.seen in
        if has_key dec key seen
        then (record q { seen = seen }, none)
        else accept (record q { seen = assign dec key now seen }) r id now
  ]

  -- `dequeue`; an empty queue is the timeout
  unfoldable pub dequeue : Queue P D → Queue P D × Option (Message P)
  dequeue q = elim q.pq [ [] ↦ (q, none) | x ∷ xs ↦ (record q { pq = xs }, some x.message) ]

  -- `retry`
  unfoldable pub retry : Queue P D → Message P → Queue P D × Bool
  unfolding put
  retry q m =
      let m' = record m { attempts = m.attempts + 1 } in
      if leb m'.max_attempts m'.attempts
      then (record q { dlq = q.dlq ++ m' ∷ [] }, false)
      else (put q m', true)

  -- `stats`
  pub stats : Queue P D → Stats
  stats q = record { depth = length q.pq; dead_letter = length q.dlq; enqueued_total = q.enqueued }
