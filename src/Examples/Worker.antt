-- ===== src/Examples/Worker.antt =====
-- A worker whose orchestrator fails as often as the world says, with the loops on concrete queues.
use qaestro.Prelude.{ℕ, zero, suc, ◌≡◌, none, some, List, [], ◌∷◌, ok, err, map, arith}
use qaestro.Prelude.Exec.{Exec}
use qaestro.Contracts.{Event}
use qaestro.Jobs.{EventJob, job}
use qaestro.Workflow.{WorkflowResult, CiWorkflowResult, ci_result, lightweight}
use qaestro.Worker.{ErrorText, message, Services, Worker}
use qaestro.Worker.Process.{process}
use qaestro.Worker.Retry.{Outcome, process-Outcome}
use qaestro.Worker.Loop.{memory_queue, finished, run_until_empty, run_forever}
use qaestro.Worker.Drain.{
  process_all, run_until_empty-process_all, run_forever-process_all, traced, Ends,
  run_until_empty-Ends,
}
use qaestro.Examples.{opened_job, ci_job, ci_at}

abbrev light_result : CiWorkflowResult
light_result = record {
  event = ci_at "e2" "aaa";
  depth = lightweight;
  summary = "CI failed";
  stage_order = [];
  comment_payload = none;
}

-- The world counts the failures that are still to come.
abbrev flaky : Event → Exec ErrorText ℕ WorkflowResult
flaky e zero = (err (message "down"), zero)
flaky e (suc zero) = (ok (ci_result light_result), suc zero)
flaky e (suc (suc n)) = (err (message "down"), suc n)

abbrev flaky_services : Services ℕ
flaky_services = record {
  orchestrate = flaky;
  post_comment = λ c id w. (ok tt, w);
  post_outputs = none;
  within = λ limit m w. (some (m w).0, (m w).1);
}

abbrev three_tries : Worker ℕ
three_tries = record { services = flaky_services; max_attempts = 3; timeout_seconds = none }

process-Outcome_example : Outcome three_tries ci_job 2 (process three_tries (job ci_job) 2)
process-Outcome_example = process-Outcome three_tries ci_job 2

abbrev two_jobs : List EventJob
two_jobs = opened_job ∷ ci_job ∷ []

run_until_empty-process_all_example :
    run_until_empty memory_queue three_tries 3 (record { jobs = two_jobs }) 2 ≡ (
      finished (process_all three_tries (map job two_jobs) 2).0,
      record { jobs = [] },
      (process_all three_tries (map job two_jobs) 2).1,
    )
run_until_empty-process_all_example =
    run_until_empty-process_all three_tries two_jobs 3 2 (omega arith)

run_until_empty-Ends_example : Ends three_tries [] [] 2 (
    run_until_empty
      (traced memory_queue)
      three_tries
      3
      (record { queue_state = record { jobs = two_jobs }; log = [] })
      2)
run_until_empty-Ends_example =
    run_until_empty-Ends memory_queue three_tries 3 (record { jobs = two_jobs }) 2

run_forever-process_all_example :
    run_forever memory_queue three_tries 7 (record { jobs = two_jobs }) 2
    ≡ (ok tt, record { jobs = [] }, (process_all three_tries (map job two_jobs) 2).1)
run_forever-process_all_example = run_forever-process_all three_tries two_jobs 5 2
