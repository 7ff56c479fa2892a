-- ===== src/Workflow/Pr/Publish.antt =====
-- When the PR workflow has an official review.
use qaestro.Prelude.{
  ℤ, pos, true, ◌≡◌, refl, Option, none, some, List, [], ◌∷◌, All, All-append, Bool-cases, inl, inr,
  is_set, ltb_ℤ, arith, false≢true, sym, ap, ◌∙◌, not,
}
use qaestro.Prelude.Exec.{pure, Always, Always-bind, Always-pure}
use qaestro.Contracts.{
  CiFeedbackContext, waiting_for_checks, PrEvent, ValidationResult, ValidationLocation,
}
use qaestro.Review.{PrCommentPayload, PrReviewComment, PrReviewPayload}
use qaestro.Analyzer.{PrAnalysisContext}
use qaestro.Outputs.Prepare.{is_mapped}
use qaestro.Tools.{context, triage, renderer}
use qaestro.Workflow.{PrWorkflowDraft, PrWorkflowResult}
use qaestro.Workflow.Triage.{PrWorkflowTriage, renders_output, runs_analysis}
use qaestro.Workflow.Pr.{
  Components, triage_only_report, unreviewed, reviewed, full_draft, light_draft,
  can_publish_official_review, is_waiting, strategy_stage, validation_due, validator_stage,
  render_light, render_full, run_full, run_triaged, run,
}
use qaestro.Workflow.Pr.Review.{
  comment_at, comments_at, is_located, is_fail, review_inline_comments, review_payload_for_draft,
}

-- The comment stands at a line of a file, on the side that the output takes.
abbrev pub IsPlaced : PrReviewComment → Type 0
IsPlaced c =
    (is_mapped c ≡ true)
    × ((c.side ≡ "RIGHT") × ((line : ℤ) × ((c.line ≡ some line) × (ltb_ℤ (pos 0) line ≡ true))))

-- The CI feedback, where there is one, does not wait for checks.
abbrev pub IsSettled : Option CiFeedbackContext → Type 0
IsSettled none = Unit
IsSettled (some ci) = ¬ (ci.readiness ≡ waiting_for_checks)

abbrev pub IsReviewOf : PrWorkflowResult → Option PrReviewPayload → Type 0
IsReviewOf r none = Unit
IsReviewOf r (some p) =
    (is_set r.event.head_sha ≡ true)
    × (IsSettled r.report.ci_feedback × ((p.head_sha ≡ r.event.head_sha) × All IsPlaced p.comments))

-- A review is of the event's head, which is known; where the run has CI feedback, this does not
-- wait for checks; and each comment of the review stands at a line.
abbrev pub IsPublishable : PrWorkflowResult → Type 0
IsPublishable r = IsReviewOf r r.review_payload

comment_at-IsPlaced :
    (r : ValidationResult) (l : ValidationLocation)
    → is_located l ≡ true
    → IsPlaced (comment_at r l)
unfolding comment_at is_located is_mapped
comment_at-IsPlaced r l h = (ground arith, (refl, (l.line, (refl, ground arith))))

comments_at-IsPlaced :
    (r : ValidationResult) (ls : List ValidationLocation) → All IsPlaced (comments_at r ls)
unfolding comments_at
comments_at-IsPlaced r [] = tt
comments_at-IsPlaced r (l ∷ ls) = elim (Bool-cases (is_located l)) [
  | inl h ↦ rw h (comment_at-IsPlaced r l h, comments_at-IsPlaced r ls)
  | inr h ↦ rw h (comments_at-IsPlaced r ls)
]

inline-IsPlaced : (rs : List ValidationResult) → All IsPlaced (review_inline_comments rs)
unfolding review_inline_comments
inline-IsPlaced [] = tt
inline-IsPlaced (r ∷ rs) = elim (Bool-cases (is_fail r.outcome)) [
  | inl h ↦ rw h (
      All-append IsPlaced (comments_at r r.locations) (review_inline_comments rs)
        (comments_at-IsPlaced r r.locations) (inline-IsPlaced rs))
  | inr h ↦ rw h (inline-IsPlaced rs)
]

can_publish-IsSettled :
    (o : Option CiFeedbackContext) → can_publish_official_review o ≡ true → IsSettled o
unfolding can_publish_official_review
can_publish-IsSettled none h = tt
can_publish-IsSettled (some ci) h =
    λ waits. false≢true (sym (ap (λ s. not (is_waiting s)) waits) ∙ h)

reviewed-IsPublishable :
    (draft : PrWorkflowDraft) (comment : PrCommentPayload) → IsPublishable (reviewed draft comment)
unfolding review_payload_for_draft
reviewed-IsPublishable draft comment =
    elim (Bool-cases (can_publish_official_review draft.report.ci_feedback)) [
      | inr h ↦ rw h tt
      | inl h ↦ elim (Bool-cases (is_set draft.event.head_sha)) [
        | inr k ↦ rw (h, k) tt
        | inl k ↦
            rw (h, k)
              (
                k,
                (
                  can_publish-IsSettled draft.report.ci_feedback h,
                  (refl, inline-IsPlaced draft.report.validations),
                ),
              )
      ]
    ]

module _ {W : Type 0} (with_components : Components W) where
  render_full-IsPublishable :
      (draft : PrWorkflowDraft) → Always IsPublishable (render_full with_components draft)
  unfolding render_full
  render_full-IsPublishable draft =
      Always-bind IsPublishable (with_components.render draft)
        (λ comment. pure (reviewed draft comment))
        (λ comment.
          Always-pure IsPublishable (reviewed draft comment) (reviewed-IsPublishable draft comment))

  run_full-IsPublishable :
      (event : PrEvent) (c : PrAnalysisContext) (t : PrWorkflowTriage)
      → Always IsPublishable (run_full with_components event c t)
  unfolding run_full
  run_full-IsPublishable event c t =
      Always-bind IsPublishable (with_components.analyze c) _ (λ impact.
        Always-bind IsPublishable (strategy_stage with_components event c t impact) _ (λ planned.
          Always-bind IsPublishable (validation_due with_components event t impact planned.strategy)
            _
            (λ due.
              Always-bind IsPublishable (validator_stage with_components event due planned.strategy)
                _ (λ v. render_full-IsPublishable (full_draft event c impact planned t v)))))

  run_triaged-IsPublishable :
      (event : PrEvent) (c : PrAnalysisContext) (t : PrWorkflowTriage)
      → Always IsPublishable (run_triaged with_components event c t)
  unfolding run_triaged render_light
  run_triaged-IsPublishable event c t = elim (Bool-cases (renders_output t)) [
    | inr h ↦ rw h (Always-pure IsPublishable _ tt)
    | inl h ↦ rw h (elim (Bool-cases (runs_analysis t)) [
      | inl k ↦ rw k (run_full-IsPublishable event c t)
      | inr k ↦
          rw (k, render_light)
            (Always-bind IsPublishable (with_components.render (light_draft event c t))
              (λ comment. pure (
                unreviewed event (triage_only_report event c t) t (context ∷ triage ∷ renderer ∷ [])
                  (some comment)))
              (λ comment. Always-pure IsPublishable _ tt))
    ])
  ]

  -- The PR workflow has an official review only of a known head and, where the run has CI
  -- feedback, only if this does not wait for checks; and each of the review's inline comments
  -- stands at a positive line on the right side. Without CI feedback nothing is said of checks.
  pub run-IsPublishable : (event : PrEvent) → Always IsPublishable (run with_components event)
  unfolding run
  run-IsPublishable event = Always-bind IsPublishable (with_components.load event) _ (λ c.
      Always-bind IsPublishable (with_components.classify c) _
        (λ t. run_triaged-IsPublishable event c t))
