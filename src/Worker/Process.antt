-- ===== src/Worker/Process.antt =====
-- `Worker.process` of src/app/worker/runner.py: the attempts at one job.
use qaestro.Prelude.{ℕ, zero, suc, ◌+◌, String, none, some, ok, err, eqb, if◌then◌else◌}
use qaestro.Jobs.{EventJob, QueuedJob, job, malformed}
use qaestro.Workflow.{WorkflowResult}
use qaestro.Worker.{
  ErrorText, no_error, malformed_queue_message, succeeded, failed, WorkerExecution, Worker,
  run_once,
}

abbrev pub success : String → ℕ → WorkflowResult → WorkerExecution
success correlation_id attempts result = record {
  correlation_id = correlation_id;
  status = succeeded;
  attempts = attempts;
  result = some result;
  error = no_error;
}

abbrev pub failure : String → ℕ → ErrorText → WorkerExecution
failure correlation_id attempts error = record {
  correlation_id = correlation_id;
  status = failed;
  attempts = attempts;
  result = none;
  error = error;
}

module _ {W : Type 0} (w : Worker W) where
  -- The loop `for attempt in range(attempt, max_attempts + 1)`, with the rounds that are left.
  unfoldable pub attempt_loop : EventJob → ℕ → ℕ → ErrorText → W → WorkerExecution × W
  attempt_loop j zero attempt last_error world =
      (failure j.correlation_id w.max_attempts last_error, world)
  attempt_loop j (suc left) attempt last_error world =
      let (outcome, world') = run_once w j world in
      elim outcome [
        | err e ↦
            let rest = attempt_loop j left (attempt + 1) e world' in
            if eqb attempt w.max_attempts
            then (failure j.correlation_id attempt e, world')
            else rest
        | ok result ↦ (success j.correlation_id attempt result, world')
      ]

  unfoldable pub process : QueuedJob → W → WorkerExecution × W
  process (malformed m) world =
      (failure "" 0 (malformed_queue_message m.delivery_id m.error), world)
  process (job j) world = attempt_loop j w.max_attempts 1 no_error world
