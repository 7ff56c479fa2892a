-- ===== src/Jobs/Memory.antt =====
-- `InMemoryJobQueue` of src/app/jobs.py.
use qaestro.Prelude.{Option, none, some, List, [], ◌∷◌, ◌++◌, ℕ, length}
use qaestro.Jobs.{EventJob, QueuedJob, job}

pub record MemoryQueue : Type 0 where
  pub jobs : List EventJob

unfoldable pub enqueue : EventJob → MemoryQueue → MemoryQueue
enqueue j q = record { jobs = q.jobs ++ j ∷ [] }

popleft : List EventJob → Option QueuedJob × MemoryQueue
popleft [] = (none, record { jobs = [] })
popleft (j ∷ js) = (some (job j), record { jobs = js })

unfoldable pub dequeue : MemoryQueue → Option QueuedJob × MemoryQueue
unfolding popleft
dequeue q = popleft q.jobs

-- The queue is not durable: an acknowledgement changes nothing.
unfoldable pub ack : QueuedJob → MemoryQueue → MemoryQueue
ack j q = q

unfoldable pub size : MemoryQueue → ℕ
size q = length q.jobs
