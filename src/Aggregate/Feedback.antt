-- ===== src/Aggregate/Feedback.antt =====
-- CI evidence for the strategy engine (`to_ci_feedback_context` and its helpers of
-- src/runtime/orchestrator/pr_aggregate.py).
use qaestro.Prelude.{
  String, Option, none, some, List, [], ◌∷◌, ◌++◌, map, Result, ok, err, if◌then◌else◌, ◌&&◌, ◌||◌,
  not, contains, ◌==◌, string_eq, pair_eq, is_set, filter, is_nonempty, Dict, lookup,
}
use qaestro.Contracts.{CiObservation, CiHistoricalEvidence, CiFeedbackContext, CiReadinessState}
use qaestro.Aggregate.{PrAggregateState, RevisionState, CiRunRecord}
use qaestro.Aggregate.Checks.{
  CheckRunSnapshot, ReadinessState, ready, waiting_for_checks, checks_failed, ReviewReadiness,
  is_failure, checks_of, check_run_status_value,
}

unfoldable pub observation_from_record : CiRunRecord → CiObservation
observation_from_record r = record {
  workflow_name = r.workflow_name;
  conclusion = r.conclusion;
  run_url = r.run_url;
  failed_jobs = r.failed_jobs;
  commit_sha = r.commit_sha;
  logs_url = "";
}

-- `check.conclusion or str(check.status)`
conclusion_or_status : Option String → String → String
conclusion_or_status none status = status
conclusion_or_status (some c) status = if is_set c then c else status

unfoldable pub observation_from_check : CheckRunSnapshot → CiObservation
unfolding conclusion_or_status
observation_from_check c = record {
  workflow_name = c.name;
  conclusion = conclusion_or_status c.conclusion (check_run_status_value c.status);
  run_url = "";
  failed_jobs = if is_failure c then c.name ∷ [] else [];
  commit_sha = c.head_sha;
  logs_url = "";
}

-- `(item.workflow_name, item.commit_sha)`
abbrev pub observation_key : CiObservation → String × String
observation_key o = (o.workflow_name, o.commit_sha)

-- The pairs of a commit and a job that a record names as failed.
failed_pairs : String → List String → List (String × String)
failed_pairs sha [] = []
failed_pairs sha (j ∷ js) =
    let rest = failed_pairs sha js in if is_set sha && is_set j then (sha, j) ∷ rest else rest

unfoldable pub recorded_failed_jobs : List CiObservation → List (String × String)
unfolding failed_pairs
recorded_failed_jobs [] = []
recorded_failed_jobs (r ∷ rs) = failed_pairs r.commit_sha r.failed_jobs ++ recorded_failed_jobs rs

-- The loop over the checks: a set is a list of its elements.
unfoldable pub merge_loop :
    List (String × String)
    → List CiObservation
    → List (String × String)
    → List CiObservation
    → List CiObservation
merge_loop failed_jobs merged seen [] = merged
merge_loop failed_jobs merged seen (check ∷ checks) =
    let key = observation_key check in
    let skipped =
      contains seen key || contains failed_jobs (check.commit_sha, check.workflow_name) in
    merge_loop failed_jobs (if skipped then merged else merged ++ check ∷ [])
      (if skipped then seen else key ∷ seen) checks

unfoldable pub merge_current_observations :
    List CiObservation → List CiObservation → List CiObservation
merge_current_observations records checks =
    merge_loop (recorded_failed_jobs records) records (map observation_key records) checks

unfoldable pub readiness_state_from : ReadinessState → CiReadinessState
readiness_state_from waiting_for_checks = CiReadinessState.waiting_for_checks
readiness_state_from checks_failed = CiReadinessState.checks_failed
readiness_state_from ready = CiReadinessState.ready

abbrev pending_of : ReadinessState → List String → List String
pending_of waiting_for_checks checks = checks
pending_of checks_failed checks = []
pending_of ready checks = []

abbrev pub values : Dict String RevisionState → List RevisionState
values d = map (λ p. p.1) d

unfoldable pub historical_evidence : PrAggregateState → List CiHistoricalEvidence
historical_evidence a =
    map
      (λ r. record { head_sha = r.head_sha; observations = map observation_from_record r.ci_runs })
      (filter (λ r. not (r.head_sha == a.current_head_sha) && is_nonempty r.ci_runs)
        (values a.revisions))

-- The KeyError of `current_revision`.
pub data FeedbackError : Type 0 where
  no_current_revision : FeedbackError

unfoldable pub feedback_of :
    PrAggregateState → RevisionState → ReviewReadiness → List CheckRunSnapshot → CiFeedbackContext
feedback_of a revision readiness snapshot = record {
  current_head_sha = a.current_head_sha;
  readiness = readiness_state_from readiness.state;
  current_observations =
      merge_current_observations (map observation_from_record revision.ci_runs)
        (map observation_from_check (checks_of a.current_head_sha snapshot));
  historical_evidence = historical_evidence a;
  pending_checks = pending_of readiness.state readiness.blocking_checks;
}

unfoldable pub to_ci_feedback_context :
    PrAggregateState
    → ReviewReadiness
    → List CheckRunSnapshot
    → Result FeedbackError CiFeedbackContext
to_ci_feedback_context a readiness snapshot = elim (lookup a.current_head_sha a.revisions) [
  | none ↦ err no_current_revision
  | some revision ↦ ok (feedback_of a revision readiness snapshot)
]
