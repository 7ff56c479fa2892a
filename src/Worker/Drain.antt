-- ===== src/Worker/Drain.antt =====
-- What the worker's loops do to a queue: every job that is taken is processed once, in order, and
-- acknowledged after that.
use Prim.Native.Nat.add
use native.Mathlib.Nat.{suc-add}
use qaestro.Prelude.{
  ℕ, zero, suc, ◌+◌, ◌<◌, ◌≡◌, refl, ap, ◌∙◌, sym, ◌⊎◌, inl, inr, Option, none, some, List, [], ◌∷◌,
  ◌++◌, append_assoc, append-nil, map, Result, ok, err, arith, length,
}
use qaestro.Jobs.{EventJob, QueuedJob, job, QueueError}
use qaestro.Jobs.Memory
use qaestro.Jobs.Memory.{MemoryQueue, dequeue}
use qaestro.Worker.{WorkerExecution, Worker}
use qaestro.Worker.Process.{process}
use qaestro.Worker.Loop.{
  JobQueue, memory_queue, LoopEnd, finished, queue_raised, out_of_fuel, after_ack, after_dequeue,
  drain, run_until_empty, run_forever,
}

-- The executions of a list of jobs, one after the other.
abbrev pub process_all : {W : Type 0} → Worker W → List QueuedJob → W → List WorkerExecution × W
process_all w [] world = ([], world)
process_all w (j ∷ js) world =
    let (x, world₁) = process w j world in
    let (xs, world₂) = process_all w js world₁ in (x ∷ xs, world₂)

module _ {W : Type 0} (w : Worker W) where
  drain-memory :
      (js : List EventJob) (fuel : ℕ) (results : List WorkerExecution) (world : W)
      → length js < fuel
      → let (xs, world') = process_all w (map job js) world in
        drain memory_queue w fuel results (record { jobs = js }) world
        ≡ (finished (results ++ xs), record { jobs = [] }, world')
  unfolding drain memory_queue dequeue Memory.ack
  drain-memory js zero results world h = absurd (omega arith)
  drain-memory [] (suc fuel) results world h = rw append-nil
  drain-memory (j ∷ js) (suc fuel) results world h =
      let (x, world₁) = process w (job j) world in
      let (xs, world₂) = process_all w (map job js) world₁ in
      drain-memory js fuel (results ++ x ∷ []) world₁ (omega arith)
      ∙ ap (λ (l : List WorkerExecution). (finished l, record { jobs = [] }, world₂))
          (append_assoc results (x ∷ []) xs)

  -- With fuel for one round more than there are jobs, `run_until_empty` empties the in-memory queue,
  -- and its results are the executions of the jobs in the order of the queue.
  pub run_until_empty-process_all :
      (js : List EventJob) (fuel : ℕ) (world : W)
      → length js < fuel
      → let (xs, world') = process_all w (map job js) world in
        run_until_empty memory_queue w fuel (record { jobs = js }) world
        ≡ (finished xs, record { jobs = [] }, world')
  unfolding run_until_empty
  run_until_empty-process_all js fuel world h = drain-memory js fuel [] world h

  run_forever-idle :
      (rounds : ℕ) (world : W)
      → run_forever memory_queue w rounds (record { jobs = [] }) world
        ≡ (ok tt, record { jobs = [] }, world)
  unfolding run_forever memory_queue dequeue
  run_forever-idle zero world = refl
  run_forever-idle (suc rounds) world = run_forever-idle rounds world

  -- As many rounds of `run_forever` as there are jobs in the in-memory queue leave it empty and the
  -- world as `run_until_empty` leaves it; more rounds change nothing.
  pub run_forever-process_all :
      (js : List EventJob) (extra : ℕ) (world : W)
      → run_forever memory_queue w (length js + extra) (record { jobs = js }) world
        ≡ (ok tt, record { jobs = [] }, (process_all w (map job js) world).1)
  unfolding run_forever memory_queue dequeue Memory.ack
  run_forever-process_all [] extra world = rw add.zero (run_forever-idle extra world)
  run_forever-process_all (j ∷ js) extra world =
      rw suc-add (run_forever-process_all js extra (process w (job j) world).1)

-- What was done to a queue.
pub data Action : Type 0 where
  taken acked : QueuedJob → Action

pub record Traced (Q : Type 0) : Type 0 where
  pub queue_state : Q
  pub log : List Action

abbrev log_taken : Result QueueError (Option QueuedJob) → List Action → List Action
log_taken (ok (some j)) log = log ++ taken j ∷ []
log_taken _ log = log

abbrev log_acked : QueuedJob → Result QueueError (Unit {0}) → List Action → List Action
log_acked j (ok done) log = log ++ acked j ∷ []
log_acked j (err e) log = log

-- A queue together with the log of what the worker had of it.
unfoldable pub traced : {Q : Type 0} → JobQueue Q → JobQueue (Traced Q)
traced queue = record {
  dequeue = λ t.
      let (r, q) = queue.dequeue t.queue_state in
      (r, record { queue_state = q; log = log_taken r t.log });
  ack = λ j t.
      let (r, q) = queue.ack j t.queue_state in
      (r, record { queue_state = q; log = log_acked j r t.log });
}

abbrev pub served : List QueuedJob → List Action
served [] = []
served (j ∷ js) = taken j ∷ acked j ∷ served js

-- How a loop may end that began in the world `world` with the results `rs` and the log `log`.
pub data Ends {Q W : Type 0} (w : Worker W) (log : List Action) (rs : List WorkerExecution)
    (world : W) (p : LoopEnd × Traced Q × W) : Type 0 where
  -- The queue was empty.
  all_served :
      (js : List QueuedJob)
      → p.0 ≡ finished (rs ++ (process_all w js world).0)
      → p.1.log ≡ log ++ served js
      → p.2 ≡ (process_all w js world).1
      → Ends w log rs world p
  -- The fuel ran out, or the queue raised when it was asked for a job.
  stopped :
      (js : List QueuedJob)
      → (p.0 ≡ out_of_fuel) ⊎ ((e : QueueError) × (p.0 ≡ queue_raised e))
      → p.1.log ≡ log ++ served js
      → p.2 ≡ (process_all w js world).1
      → Ends w log rs world p
  -- The queue raised when a job was acknowledged, which had been processed.
  unacknowledged :
      (js : List QueuedJob) (j : QueuedJob) (e : QueueError)
      → p.0 ≡ queue_raised e
      → p.1.log ≡ log ++ (served js ++ taken j ∷ [])
      → p.2 ≡ (process w j (process_all w js world).1).1
      → Ends w log rs world p

module _ {Q W : Type 0} (queue : JobQueue Q) (w : Worker W) where
  Ends-cons :
      (j : QueuedJob) (log : List Action) (rs : List WorkerExecution) (world : W)
      {p : LoopEnd × Traced Q × W}
      → Ends w
          ((log ++ taken j ∷ []) ++ acked j ∷ [])
          (rs ++ (process w j world).0 ∷ [])
          (process w j world).1
          p
      → Ends w log rs world p
  Ends-cons j log rs world (all_served js r l v) =
      all_served (j ∷ js) (r ∙ ap finished (append_assoc rs _ _))
        (l ∙ append_assoc (log ++ taken j ∷ []) _ _ ∙ append_assoc log _ _) v
  Ends-cons j log rs world (stopped js r l v) =
      stopped (j ∷ js) r (l ∙ append_assoc (log ++ taken j ∷ []) _ _ ∙ append_assoc log _ _) v
  Ends-cons j log rs world (unacknowledged js k e r l v) =
      unacknowledged (j ∷ js) k e r
        (l ∙ append_assoc (log ++ taken j ∷ []) _ _ ∙ append_assoc log _ _) v

  module _ (again : List WorkerExecution → Traced Q → W → LoopEnd × Traced Q × W)
      (again-Ends : (rs : List WorkerExecution) (t : Traced Q) (world : W)
        → Ends w t.log rs world (again rs t world))
      (rs : List WorkerExecution) (log : List Action) (world : W) where
    ack-Ends :
        (j : QueuedJob) (a : Result QueueError (Unit {0}) × Q)
        → Ends w log rs world (
            after_ack
              (traced queue)
              w
              (again (rs ++ (process w j world).0 ∷ []))
              (a.0, record { queue_state = a.1; log = log_acked j a.0 (log ++ taken j ∷ []) })
              (process w j world).1)
    unfolding after_ack
    ack-Ends j (err e, q) = unacknowledged [] j e refl refl refl
    ack-Ends j (ok done, q) = Ends-cons j log rs world (again-Ends _ _ _)

    dequeue-Ends :
        (d : Result QueueError (Option QueuedJob) × Q)
        → Ends w log rs world (
            after_dequeue
              (traced queue)
              w
              again
              rs
              (d.0, record { queue_state = d.1; log = log_taken d.0 log })
              world)
    unfolding after_dequeue traced
    dequeue-Ends (err e, q) = stopped [] (inr (e, refl)) (sym (append-nil _)) refl
    dequeue-Ends (ok none, q) =
        all_served [] (ap finished (sym (append-nil _))) (sym (append-nil _)) refl
    dequeue-Ends (ok (some j), q) = ack-Ends j (queue.ack j q)

  drain-Ends :
      (fuel : ℕ) (rs : List WorkerExecution) (t : Traced Q) (world : W)
      → Ends w t.log rs world (drain (traced queue) w fuel rs t world)
  unfolding drain traced
  drain-Ends zero rs t world = stopped [] (inl refl) (sym (append-nil _)) refl
  drain-Ends (suc fuel) rs t world =
      dequeue-Ends (drain (traced queue) w fuel) (drain-Ends fuel) rs t.log world
        (queue.dequeue t.queue_state)

  -- On any queue, `run_until_empty` processes each job that it takes once, in the order taken, and
  -- acknowledges it next. If it finishes, its results are the executions of the jobs taken; if the
  -- queue raises or the fuel runs out, at most the last job taken is not acknowledged, and that
  -- one has been processed.
  pub run_until_empty-Ends :
      (fuel : ℕ) (q : Q) (world : W)
      → Ends w [] [] world
          (run_until_empty (traced queue) w fuel (record { queue_state = q; log = [] }) world)
  unfolding run_until_empty
  run_until_empty-Ends fuel q world =
      drain-Ends fuel [] (record { queue_state = q; log = [] }) world
