-- ===== src/Worker/Loop.antt =====
-- `run_until_empty` and `run_forever` of src/app/worker/runner.py over any queue. Logging and the
-- idle sleep change nothing that the loops read, and are left out.
use qaestro.Prelude.{ℕ, zero, suc, Option, none, some, List, [], ◌∷◌, ◌++◌, Result, ok, err}
use qaestro.Prelude.Exec.{Exec}
use qaestro.Jobs.{QueuedJob, QueueError}
use qaestro.Jobs.Memory
use qaestro.Jobs.Memory.{MemoryQueue}
use qaestro.Worker.{WorkerExecution, Worker}
use qaestro.Worker.Process.{process}

-- `JobQueue`, as far as the worker uses it.
pub record JobQueue (Q : Type 0) : Type 0 where
  pub dequeue : Exec QueueError Q (Option QueuedJob)
  pub ack : QueuedJob → Exec QueueError Q (Unit {0})

unfoldable pub memory_queue : JobQueue MemoryQueue
memory_queue = record {
  dequeue = λ q. let (j, q') = Memory.dequeue q in (ok j, q');
  ack = λ j q. (ok tt, Memory.ack j q);
}

pub data LoopEnd : Type 0 where
  finished : List WorkerExecution → LoopEnd
  queue_raised : QueueError → LoopEnd
  out_of_fuel : LoopEnd

module _ {Q W : Type 0} (queue : JobQueue Q) (w : Worker W) where
  unfoldable pub after_ack :
      (Q → W → LoopEnd × Q × W) → Result QueueError (Unit {0}) × Q → W → LoopEnd × Q × W
  after_ack again (err e, q) world = (queue_raised e, q, world)
  after_ack again (ok done, q) world = again q world

  -- The body of the `while` loop behind its test, with the results so far.
  unfoldable pub after_dequeue :
      (List WorkerExecution → Q → W → LoopEnd × Q × W)
      → List WorkerExecution
      → Result QueueError (Option QueuedJob) × Q
      → W
      → LoopEnd × Q × W
  unfolding after_ack
  after_dequeue again results (err e, q) world = (queue_raised e, q, world)
  after_dequeue again results (ok none, q) world = (finished results, q, world)
  after_dequeue again results (ok (some j), q) world =
      let (execution, world₁) = process w j world in
      after_ack (again (results ++ execution ∷ [])) (queue.ack j q) world₁

  -- The `while` loop, with fuel for its rounds.
  unfoldable pub drain : ℕ → List WorkerExecution → Q → W → LoopEnd × Q × W
  unfolding after_dequeue
  drain zero results q world = (out_of_fuel, q, world)
  drain (suc fuel) results q world = after_dequeue (drain fuel) results (queue.dequeue q) world

  unfoldable pub run_until_empty : ℕ → Q → W → LoopEnd × Q × W
  run_until_empty fuel q world = drain fuel [] q world

  -- What `rounds` rounds of `run_forever` do, up to an exception of the queue.
  unfoldable pub run_forever : ℕ → Q → W → Result QueueError (Unit {0}) × Q × W
  run_forever zero q world = (ok tt, q, world)
  run_forever (suc rounds) q world =
      let (next, q₁) = queue.dequeue q in
      elim next [
        | err e ↦ (err e, q₁, world)
        | ok none ↦ run_forever rounds q₁ world
        | ok (some j) ↦
            let (execution, world₁) = process w j world in
            let (acked, q₂) = queue.ack j q₁ in
            elim acked [ err e ↦ (err e, q₂, world₁) | ok done ↦ run_forever rounds q₂ world₁ ]
      ]
