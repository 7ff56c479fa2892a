-- ===== src/Workflow/Feedback.antt =====
-- How the worker makes the CI feedback of a PR event (`_load_ci_feedback_for_pr_event` of
-- src/app/worker/factory.py) and records CI events in the same store. The state is the store beside
-- a world `W`.
pub mod Publishing
use qaestro.Prelude.{ℤ, String, Option, none, some, List, Result, ok, err, Exception, ◌⋈◌}
use qaestro.Prelude.Exec.{Exec, lift, ◌>>=◌}
use qaestro.Contracts.{PrEvent, CiCompleted, CiFeedbackContext}
use qaestro.Aggregate.{PrAggregateState, AggregateError, head_sha_required}
use qaestro.Aggregate.Checks.{CheckRunSnapshot, evaluate_readiness}
use qaestro.Aggregate.Feedback.{FeedbackError, no_current_revision, to_ci_feedback_context}
use qaestro.Aggregate.Store
use qaestro.Aggregate.Store.{Store}

abbrev pub aggregate_exception : {A : Type 0} → Result AggregateError A → Result Exception A
aggregate_exception (ok a) = ok a
aggregate_exception (err head_sha_required) = err (record {
  class_name = "ValueError";
  message = "PR event head_sha is required for aggregate revision state";
})

-- The text of a KeyError is the key in quotes; a commit has no characters that `repr` escapes.
abbrev pub feedback_exception : {A : Type 0} → String → Result FeedbackError A → Result Exception A
feedback_exception sha (ok a) = ok a
feedback_exception sha (err no_current_revision) =
    err (record { class_name = "KeyError"; message = "'" ⋈ sha ⋈ "'" })

abbrev pub context_of :
    PrAggregateState → List CheckRunSnapshot → Result Exception CiFeedbackContext
context_of a checks =
    feedback_exception a.current_head_sha
      (to_ci_feedback_context a (evaluate_readiness a checks) checks)

module _ {W : Type 0} where
  abbrev pub after_apply :
      Store
      → Result AggregateError (PrAggregateState × Store)
      → W
      → Result Exception PrAggregateState × (Store × W)
  after_apply store (ok (a, store')) w = (ok a, (store', w))
  after_apply store (err e) w = (aggregate_exception (err e), (store, w))

  -- `aggregate_store.apply_pr_event(event)`
  abbrev pub apply_event : PrEvent → Exec Exception (Store × W) PrAggregateState
  apply_event event (store, w) = after_apply store (Store.apply_pr_event event store) w

  -- `aggregate_store.record_ci_completed(event)`
  abbrev pub record_event : CiCompleted → Exec Exception (Store × W) (Unit {0})
  record_event event (store, w) = (ok tt, ((Store.record_ci_completed event store).1, w))

  -- A call that does not touch the store.
  abbrev pub beside : {A : Type 0} → Exec Exception W A → Exec Exception (Store × W) A
  beside m (store, w) = let (r, w') = m w in (r, (store, w'))

  unfoldable pub load_ci_feedback :
      (String → String → String → Exec Exception W (List CheckRunSnapshot))
      → PrEvent
      → Exec Exception (Store × W) CiFeedbackContext
  load_ci_feedback load_checks event = do
    a ← apply_event event
    checks ← beside (load_checks event.repo_full_name a.current_head_sha event.meta.correlation_id)
    lift (context_of a checks)
