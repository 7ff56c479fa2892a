-- ===== src/Aggregate.antt =====
-- The state of one pull request over its head revisions (`PRAggregateState` of
-- src/runtime/orchestrator/pr_aggregate.py).
pub mod Checks
pub mod Feedback
pub mod Store
pub mod Consistent
pub mod Recording
pub mod Readiness
pub mod Evidence
pub mod History
use qaestro.Prelude.{
  ℤ, String, Bool, true, false, Option, none, some, List, [], ◌∷◌, ◌++◌, map, Result, ok, err,
  ◌>>=◌, if◌then◌else◌, not, ◌&&◌, any, contains, ◌==◌, string_eq, strip, is_set, text_or, Dict,
  lookup, insert, update_at,
}
use qaestro.Contracts.{PrEvent, CiCompleted}

pub data RevisionStatus : Type 0 where
  current superseded : RevisionStatus

pub data ReviewRunTrigger : Type 0 where
  manual auto ci_completed : ReviewRunTrigger

pub record CiRunRecord : Type 0 where
  pub event_id : String
  pub workflow_name : String
  pub conclusion : String
  pub run_url : String
  pub failed_jobs : List String
  pub commit_sha : String
  pub is_current_head : Bool

-- `CIWorkflowRunRecord.from_event`
unfoldable pub record_from_event : CiCompleted → String → CiRunRecord
record_from_event event current_head_sha = record {
  event_id = event.meta.event_id;
  workflow_name = event.workflow_name;
  conclusion = event.conclusion;
  run_url = event.run_url;
  failed_jobs = event.failed_jobs;
  commit_sha = event.commit_sha;
  is_current_head = event.commit_sha == current_head_sha;
}

unfoldable pub as_historical : CiRunRecord → CiRunRecord
as_historical r = if not r.is_current_head then r else record r { is_current_head = false }

pub record RevisionState : Type 0 where
  pub head_sha : String
  pub status : RevisionStatus
  pub ci_runs : List CiRunRecord

unfoldable pub record_ci_run : RevisionState → CiRunRecord → RevisionState
record_ci_run r x = record r { ci_runs = r.ci_runs ++ x ∷ [] }

abbrev pub is_superseded : RevisionStatus → Bool
is_superseded superseded = true
is_superseded current = false

unfoldable pub supersede : RevisionState → RevisionState
unfolding as_historical
supersede r =
    if is_superseded r.status && not (any (λ x. x.is_current_head) r.ci_runs)
    then r
    else record r { status = superseded; ci_runs = map as_historical r.ci_runs }

pub record ReviewRun : Type 0 where
  pub head_sha : String
  pub trigger : ReviewRunTrigger
  pub requested_by : String

pub record PrAggregateState : Type 0 where
  pub repo_full_name : String
  pub pr_number : ℤ
  pub title : String
  pub current_head_sha : String
  pub revisions : Dict String RevisionState
  pub event_ids : List String
  pub review_runs : List ReviewRun

-- The ValueError of `_head_sha_for`.
pub data AggregateError : Type 0 where
  head_sha_required : AggregateError

unfoldable pub head_sha_for : PrEvent → Result AggregateError String
head_sha_for event =
    let head_sha = strip event.head_sha in
    if is_set head_sha then ok head_sha else err head_sha_required

unfoldable pub append_unique : List String → String → List String
append_unique values value = if contains values value then values else values ++ value ∷ []

abbrev pub fresh_revision : String → RevisionStatus → RevisionState
fresh_revision sha status = record { head_sha = sha; status = status; ci_runs = [] }

abbrev pub or_fresh : String → RevisionStatus → Option RevisionState → RevisionState
or_fresh sha status none = fresh_revision sha status
or_fresh sha status (some r) = r

-- `from_pr_event` and `apply_pr_event` behind `_head_sha_for`.
unfoldable pub start_at : String → PrEvent → PrAggregateState
start_at head_sha event = record {
  repo_full_name = event.repo_full_name;
  pr_number = event.pr_number;
  title = event.title;
  current_head_sha = head_sha;
  revisions = (head_sha, fresh_revision head_sha current) ∷ [];
  event_ids = event.meta.event_id ∷ [];
  review_runs = [];
}

unfoldable pub from_pr_event : PrEvent → Result AggregateError PrAggregateState
from_pr_event event = do head_sha ← head_sha_for event; ok (start_at head_sha event)

-- The revisions with the old head superseded, where the head moves.
unfoldable pub superseded_revisions : String → PrAggregateState → Dict String RevisionState
superseded_revisions head_sha a =
    if head_sha == a.current_head_sha
    then a.revisions
    else update_at a.current_head_sha supersede a.revisions

unfoldable pub move_to : String → PrEvent → PrAggregateState → PrAggregateState
move_to head_sha event a =
    let revisions = superseded_revisions head_sha a in
    record a {
      title = text_or event.title a.title;
      current_head_sha = head_sha;
      revisions =
          insert head_sha
            (record (or_fresh head_sha current (lookup head_sha revisions)) { status = current })
            revisions;
      event_ids = append_unique a.event_ids event.meta.event_id;
    }

unfoldable pub apply_pr_event : PrEvent → PrAggregateState → Result AggregateError PrAggregateState
apply_pr_event event a = do head_sha ← head_sha_for event; ok (move_to head_sha event a)

unfoldable pub record_ci_completed : CiCompleted → PrAggregateState → PrAggregateState
record_ci_completed event a = record a {
  revisions =
      insert event.commit_sha
        (record_ci_run (or_fresh event.commit_sha superseded (lookup event.commit_sha a.revisions))
          (record_from_event event a.current_head_sha))
        a.revisions;
  event_ids = append_unique a.event_ids event.meta.event_id;
}

unfoldable pub start_review_run : ReviewRunTrigger → String → PrAggregateState → PrAggregateState
start_review_run trigger requested_by a = record a {
  review_runs =
      a.review_runs
      ++ record { head_sha = a.current_head_sha; trigger = trigger; requested_by = requested_by }
        ∷ [];
}
