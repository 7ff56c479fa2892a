-- ===== src/Aggregate/Store.antt =====
-- `InMemoryPRAggregateStore` of src/runtime/orchestrator/pr_aggregate.py.
use qaestro.Prelude.{
  ℤ, String, Option, none, some, Result, ok, ◌>>=◌, Dict, lookup, insert, string_eq, int_eq,
  pair_eq,
}
use qaestro.Contracts.{PrEvent, CiCompleted}
use qaestro.Aggregate.{PrAggregateState, AggregateError, ReviewRunTrigger, from_pr_event}
use qaestro.Aggregate

abbrev pub Store : Type 0
Store = Dict (String × ℤ) PrAggregateState

unfoldable pub get : Store → String → ℤ → Option PrAggregateState
get store repo_full_name pr_number = lookup (repo_full_name, pr_number) store

unfoldable pub save : PrAggregateState → Store → Store
save a store = insert (a.repo_full_name, a.pr_number) a store

unfoldable pub existing_or_new :
    PrEvent → Option PrAggregateState → Result AggregateError PrAggregateState
existing_or_new event none = from_pr_event event
existing_or_new event (some a) = Aggregate.apply_pr_event event a

unfoldable pub apply_pr_event : PrEvent → Store → Result AggregateError (PrAggregateState × Store)
unfolding existing_or_new
apply_pr_event event store = do
  a ← existing_or_new event (get store event.repo_full_name event.pr_number)
  ok (a, save a store)

-- The aggregate that is saved, and the store; an event of an unknown pull request is dropped.
unfoldable pub saved : Store → Option PrAggregateState → Option PrAggregateState × Store
saved store none = (none, store)
saved store (some a) = (some a, save a store)

unfoldable pub existing_for : CiCompleted → Store → Option PrAggregateState
existing_for event store = elim event.pr_number [
  | none ↦ none
  | some n ↦ get store event.repo_full_name n
]

unfoldable pub recorded : CiCompleted → Option PrAggregateState → Option PrAggregateState
recorded event none = none
recorded event (some a) = some (Aggregate.record_ci_completed event a)

unfoldable pub record_ci_completed : CiCompleted → Store → Option PrAggregateState × Store
unfolding saved existing_for recorded
record_ci_completed event store = saved store (recorded event (existing_for event store))

unfoldable pub run_started :
    ReviewRunTrigger → String → Option PrAggregateState → Option PrAggregateState
run_started trigger requested_by none = none
run_started trigger requested_by (some a) = some (Aggregate.start_review_run trigger requested_by a)

unfoldable pub start_review_run :
    String → ℤ → ReviewRunTrigger → String → Store → Option PrAggregateState × Store
unfolding saved run_started
start_review_run repo_full_name pr_number trigger requested_by store =
    saved store (run_started trigger requested_by (get store repo_full_name pr_number))
