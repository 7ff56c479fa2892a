-- ===== src/Aggregate/Checks.antt =====
-- Check-run snapshots and readiness (`CheckRunSnapshot`, `ReviewReadiness` and
-- `evaluate_readiness` of src/runtime/orchestrator/pr_aggregate.py).
use qaestro.Prelude.{
  String, Bool, true, false, Option, none, some, List, [], ◌∷◌, map, if◌then◌else◌, ◌&&◌, contains,
  ◌==◌, string_eq, strip, lower, is_set, filter, is_nonempty, join, ◌⋈◌,
}
use qaestro.Aggregate.{PrAggregateState}

pub data CheckRunStatus : Type 0 where
  unknown queued in_progress pending completed : CheckRunStatus

-- `_normalize_check_run_status` of a text.
unfoldable pub normalize_check_run_status : String → CheckRunStatus
normalize_check_run_status status =
    let normalized = lower (strip status) in
    if contains ("requested" ∷ "waiting" ∷ []) normalized
    then pending
    else if normalized == "queued"
    then queued
    else if normalized == "in_progress"
    then in_progress
    else if normalized == "pending"
    then pending
    else if normalized == "completed"
    then completed
    else unknown

-- `str(status)`
abbrev pub check_run_status_value : CheckRunStatus → String
check_run_status_value unknown = "unknown"
check_run_status_value queued = "queued"
check_run_status_value in_progress = "in_progress"
check_run_status_value pending = "pending"
check_run_status_value completed = "completed"

pub record CheckRunSnapshot : Type 0 where
  pub name : String
  pub status : CheckRunStatus
  pub conclusion : Option String
  pub head_sha : String

-- `CheckRunResult` of the GitHub connector.
pub record CheckRunResult : Type 0 where
  pub name : String
  pub status : String
  pub conclusion : String
  pub html_url : String
  pub head_sha : String

-- `CheckRunSnapshot.from_result`, with the normalisation of `__post_init__`.
unfoldable pub from_result : CheckRunResult → CheckRunSnapshot
from_result r = record {
  name = r.name;
  status = normalize_check_run_status r.status;
  conclusion = if is_set r.conclusion then some r.conclusion else none;
  head_sha = r.head_sha;
}

abbrev pub is_completed : CheckRunStatus → Bool
is_completed completed = true
is_completed unknown = false
is_completed queued = false
is_completed in_progress = false
is_completed pending = false

unfoldable pub is_pending : CheckRunSnapshot → Bool
is_pending c = if is_completed c.status then false else true

abbrev pub or_empty : Option String → String
or_empty none = ""
or_empty (some s) = s

unfoldable pub is_failure : CheckRunSnapshot → Bool
is_failure c =
    is_completed c.status
    && contains ("action_required" ∷ "failure" ∷ "startup_failure" ∷ "timed_out" ∷ [])
        (lower (or_empty c.conclusion))

pub data ReadinessState : Type 0 where
  ready waiting_for_checks checks_failed : ReadinessState

pub record ReviewReadiness : Type 0 where
  pub state : ReadinessState
  pub head_sha : String
  pub blocking_checks : List String
  pub summary : String

unfoldable pub can_publish_final_review : ReviewReadiness → Bool
can_publish_final_review r = elim r.state [
  | ready ↦ true
  | waiting_for_checks ↦ false
  | checks_failed ↦ true
]

unfoldable pub can_publish_interim_response : ReviewReadiness → Bool
can_publish_interim_response r = elim r.state [
  | ready ↦ false
  | waiting_for_checks ↦ true
  | checks_failed ↦ false
]

-- The checks of a snapshot that are of the head.
unfoldable pub checks_of : String → List CheckRunSnapshot → List CheckRunSnapshot
checks_of head_sha snapshot = filter (λ c. c.head_sha == head_sha) snapshot

unfoldable pub evaluate_readiness : PrAggregateState → List CheckRunSnapshot → ReviewReadiness
evaluate_readiness a snapshot =
    let current_checks = checks_of a.current_head_sha snapshot in
    let blocking = map (λ c. c.name) (filter is_pending current_checks) in
    let failed = map (λ c. c.name) (filter is_failure current_checks) in
    if is_nonempty blocking
    then record {
      state = waiting_for_checks;
      head_sha = a.current_head_sha;
      blocking_checks = blocking;
      summary = "Waiting for current-head checks to finish: " ⋈ join ", " blocking ⋈ ".";
    }
    else if is_nonempty failed
    then record {
      state = checks_failed;
      head_sha = a.current_head_sha;
      blocking_checks = failed;
      summary = "Current-head checks completed with failures: " ⋈ join ", " failed ⋈ ".";
    }
    else record {
      state = ready;
      head_sha = a.current_head_sha;
      blocking_checks = [];
      summary = "Current-head checks are complete; final review can be published.";
    }
