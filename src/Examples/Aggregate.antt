-- ===== src/Examples/Aggregate.antt =====
-- An aggregate and a store of a pull request whose head moves.
use qaestro.Prelude.{
  ◌≡◌, ◌↔◌, refl, true, false, none, some, List, [], ◌∷◌, map, ok, lookup, filter, All, string_eq,
  is_set, strip,
}
use qaestro.Contracts.{CiObservation, CiFeedbackContext}
use qaestro.Aggregate.{PrAggregateState, start_at, from_pr_event, head_sha_for}
use qaestro.Aggregate.Consistent.{IsConsistent, from_pr_event-IsConsistent}
use qaestro.Aggregate.Checks.{
  CheckRunSnapshot, queued, completed, is_pending, ready, waiting_for_checks, checks_failed,
  checks_of, evaluate_readiness,
}
use qaestro.Aggregate.Readiness.{some_pending, some_failed, evaluate_readiness_state}
use qaestro.Aggregate.Feedback.{to_ci_feedback_context}
use qaestro.Aggregate.Evidence.{IsHistorical, to_ci_feedback_context-current}
use qaestro.Aggregate.History.{
  StoreEvent, pr_event, ci_event, apply_events, IsValid, apply_events-IsValid,
}
use qaestro.Examples.{pr_at, ci_at}

abbrev first : PrAggregateState
first = start_at "aaa" (pr_at "e1" "aaa")

first_started : from_pr_event (pr_at "e1" "aaa") ≡ ok first
unfolding from_pr_event head_sha_for is_set start_at strip
first_started = refl

first-IsConsistent : IsConsistent first
first-IsConsistent = (from_pr_event-IsConsistent (pr_at "e1" "aaa")).at first first_started

abbrev lint : CheckRunSnapshot
lint = record { name = "lint"; status = completed; conclusion = some "failure"; head_sha = "aaa" }

abbrev build : CheckRunSnapshot
build = record { name = "build"; status = queued; conclusion = none; head_sha = "aaa" }

evaluate_readiness_state_example :
    let state = (evaluate_readiness first (lint ∷ build ∷ [])).state in
    ((state ≡ waiting_for_checks) ↔ (some_pending first (lint ∷ build ∷ []) ≡ true))
    × ((state ≡ checks_failed) ↔ (
        (some_pending first (lint ∷ build ∷ []) ≡ false)
        × (some_failed first (lint ∷ build ∷ []) ≡ true)))
    × ((state ≡ ready) ↔ (
        (some_pending first (lint ∷ build ∷ []) ≡ false)
        × (some_failed first (lint ∷ build ∷ []) ≡ false)))
evaluate_readiness_state_example = evaluate_readiness_state first (lint ∷ build ∷ [])

abbrev lint_observation : CiObservation
lint_observation = record {
  workflow_name = "tests";
  conclusion = "failure";
  run_url = "";
  failed_jobs = "lint" ∷ [];
  commit_sha = "aaa";
  logs_url = "";
}

to_ci_feedback_context-current_example :
    (context : CiFeedbackContext) × (to_ci_feedback_context first
        (evaluate_readiness first (lint ∷ build ∷ []))
        (lint ∷ build ∷ [])
      ≡ ok context)
    × (context.current_head_sha ≡ first.current_head_sha)
    × All
        (λ (o : CiObservation). o.commit_sha ≡ first.current_head_sha)
        context.current_observations
    × All (IsHistorical first.current_head_sha) context.historical_evidence
    × (context.pending_checks
        ≡ map
            (λ c. c.name)
            (filter is_pending (checks_of first.current_head_sha (lint ∷ build ∷ []))))
to_ci_feedback_context-current_example =
    to_ci_feedback_context-current first (lint ∷ build ∷ []) first-IsConsistent

abbrev history : List StoreEvent
history =
    pr_event (pr_at "e1" "aaa") ∷ ci_event (ci_at "e2" "aaa") ∷ pr_event (pr_at "e3" "bbb") ∷ []

empty_store-IsValid : IsValid []
unfolding lookup
empty_store-IsValid = record { at = λ key a h. cc }

apply_events-IsValid_example : IsValid (apply_events history [])
apply_events-IsValid_example = apply_events-IsValid history [] empty_store-IsValid
