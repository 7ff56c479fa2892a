-- ===== src/Workflow/Feedback/Publishing.antt =====
-- When the CI feedback lets an official review be published.
use qaestro.Prelude.{
  String, true, false, not, ◌≡◌, refl, sym, ap, ◌∙◌, Option, none, some, is_some, List, ok,
  Exception, is_set, strip, any, Option-cases, inl, inr, false≢true, lookup, string_eq,
}
use qaestro.Prelude.Exec.{Exec}
use qaestro.Contracts.{PrEvent, CiFeedbackContext}
use qaestro.Aggregate.{
  PrAggregateState, RevisionState, AggregateError, from_pr_event, start_at, move_to, head_sha_for,
}
use qaestro.Aggregate
use qaestro.Aggregate.Checks.{
  CheckRunSnapshot, ReadinessState, ready, waiting_for_checks, checks_failed, evaluate_readiness,
  checks_of, is_pending, can_publish_final_review,
}
use qaestro.Aggregate.Feedback.{feedback_of, readiness_state_from}
use qaestro.Aggregate.Consistent.{IsConsistent}
use qaestro.Aggregate.Evidence.{feedback_found}
use qaestro.Aggregate.Readiness.{can_publish_iff}
use qaestro.Aggregate.Store
use qaestro.Aggregate.Store.{Store, save, existing_or_new}
use qaestro.Aggregate.History.{IsValid, existing-IsConsistent}
use qaestro.Workflow.Pr.{can_publish_official_review, is_waiting}
use qaestro.Workflow.Feedback.{context_of, feedback_exception, load_ci_feedback}

existing_or_new_head :
    (event : PrEvent) (o : Option PrAggregateState)
    → is_set (strip event.head_sha) ≡ true
    → (a : PrAggregateState) × (existing_or_new event o ≡ ok a)
      × (a.current_head_sha ≡ strip event.head_sha)
unfolding existing_or_new from_pr_event Aggregate.apply_pr_event head_sha_for start_at move_to
existing_or_new_head event none h = (start_at (strip event.head_sha) event, rw h refl, refl)
existing_or_new_head event (some a) h = (move_to (strip event.head_sha) event a, rw h refl, refl)

can_publish_state :
    (state : ReadinessState)
    → not (is_waiting (readiness_state_from state))
      ≡ (elim state [ ready ↦ true | waiting_for_checks ↦ false | checks_failed ↦ true ])
unfolding readiness_state_from
can_publish_state ready = refl
can_publish_state waiting_for_checks = refl
can_publish_state checks_failed = refl

can_publish_feedback :
    (a : PrAggregateState) (r : RevisionState) (checks : List CheckRunSnapshot)
    → can_publish_official_review (some (feedback_of a r (evaluate_readiness a checks) checks))
      ≡ can_publish_final_review (evaluate_readiness a checks)
unfolding can_publish_official_review can_publish_final_review feedback_of
can_publish_feedback a r checks = can_publish_state (evaluate_readiness a checks).state

-- What the feedback of a PR event says of its head.
abbrev pub IsVerdict : PrEvent → List CheckRunSnapshot → CiFeedbackContext → Type 0
IsVerdict event checks ci =
    (ci.current_head_sha ≡ strip event.head_sha)
    × (can_publish_official_review (some ci)
        ≡ not (any is_pending (checks_of (strip event.head_sha) checks)))

context_of-IsVerdict :
    (event : PrEvent) (a : PrAggregateState) (checks : List CheckRunSnapshot)
    → IsConsistent a
    → a.current_head_sha ≡ strip event.head_sha
    → (ci : CiFeedbackContext) × (context_of a checks ≡ ok ci) × IsVerdict event checks ci
unfolding feedback_of
context_of-IsVerdict event a checks c h =
    elim (Option-cases (lookup a.current_head_sha a.revisions)) [
      | inl missing ↦ absurd (false≢true (ap is_some (sym missing) ∙ c.has_current))
      | inr (r, found) ↦ (
        feedback_of a r (evaluate_readiness a checks) checks,
        ap (feedback_exception a.current_head_sha)
            (feedback_found a r (evaluate_readiness a checks) checks found),
        (
          h,
          can_publish_feedback a r checks
              ∙ (can_publish_iff a checks).0
              ∙ ap (λ s. not (any is_pending (checks_of s checks))) h,
        ),
      )
    ]

module _ {W : Type 0}
    (load_checks : String → String → String → Exec Exception W (List CheckRunSnapshot)) where
  -- For a PR event with a head commit, when its checks can be loaded, the feedback is always made:
  -- it is of this head, and lets an official review be published exactly if no check of the head
  -- is pending.
  pub load_ci_feedback-IsVerdict :
      (event : PrEvent) (store : Store) (w : W) (checks : List CheckRunSnapshot)
      → IsValid store
      → is_set (strip event.head_sha) ≡ true
      → (load_checks event.repo_full_name (strip event.head_sha) event.meta.correlation_id w).0
        ≡ ok checks
      → (ci : CiFeedbackContext) × ((load_ci_feedback load_checks event (store, w)).0 ≡ ok ci)
        × IsVerdict event checks ci
  unfolding load_ci_feedback Store.apply_pr_event Store.get
  load_ci_feedback-IsVerdict event store w checks v h loads =
      let o = Store.get store event.repo_full_name event.pr_number in
      let (a, found, head) = existing_or_new_head event o h in
      let c = (existing-IsConsistent store v event o refl).at a found in
      let loaded : (load_checks event.repo_full_name a.current_head_sha event.meta.correlation_id
            w).0
          ≡ ok checks =
        rw head loads in
      let (ci, made, verdict) = context_of-IsVerdict event a checks c head in
      (ci, rw (found, loaded) made, verdict)
