-- ===== src/Workflow/Pr.antt =====
-- `PRWorkflowOrchestrator` of src/runtime/orchestrator/pr_workflow.py. The components behind its
-- protocols act on a world `W` and may raise.
pub mod Review
pub mod Orders
pub mod Publish
use qaestro.Prelude.{
  ℤ, pos, String, Bool, true, false, not, ◌&&◌, ◌||◌, Option, none, some, List, [], ◌∷◌, ◌++◌, map,
  Exception, if◌then◌else◌, ◌⋈◌, is_set, text_or, join, length, take, is_some,
}
use qaestro.Prelude.Exec.{Exec, pure, ◌>>=◌}
use qaestro.Contracts.{
  PrEvent, BehaviourImpact, CiFeedbackContext, CiReadinessState, ready, waiting_for_checks,
  checks_failed, QaReport, not_assessed, StrategyAction, StrategyResult, ValidationResult, skipped,
  number, text,
}
use qaestro.Review.{PrCommentPayload, PrReviewPayload}
use qaestro.Tools.{WorkflowStage, context, triage, analyzer, strategy, validator, renderer}
use qaestro.Analyzer.{PrAnalysisContext}
use qaestro.Analyzer.Report.{counted, additions_of, deletions_of}
use qaestro.Workflow.{PrWorkflowDraft, PrWorkflowResult}
use qaestro.Workflow.Triage.{
  PrWorkflowTriage, depth_value, is_deep, runs_analysis, runs_strategy, allows_validation,
  renders_output,
}
use qaestro.Workflow.Pr.Review.{review_payload_for_draft}

-- A validator with `validate_for_event`, or one that has `validate` alone.
pub data Validator (W : Type 0) : Type 0 where
  for_event : (PrEvent → StrategyResult → Exec Exception W (List ValidationResult)) → Validator W
  for_strategy : (StrategyResult → Exec Exception W (List ValidationResult)) → Validator W

pub record Components (W : Type 0) : Type 0 where
  pub load : PrEvent → Exec Exception W PrAnalysisContext
  pub classify : PrAnalysisContext → Exec Exception W PrWorkflowTriage
  pub analyze : PrAnalysisContext → Exec Exception W BehaviourImpact
  pub plan :
      String
      → ℤ
      → String
      → BehaviourImpact
      → Option CiFeedbackContext
      → Exec Exception W StrategyResult
  pub runtime_validator : Validator W
  pub render : PrWorkflowDraft → Exec Exception W PrCommentPayload
  pub should_validate : PrEvent → BehaviourImpact → StrategyResult → Exec Exception W Bool
  pub ci_feedback_provider : Option (PrEvent → Exec Exception W (Option CiFeedbackContext))

-- `StubPRRuntimeValidator.validate`
unfoldable pub stub_validate : StrategyResult → List ValidationResult
stub_validate s =
    map
      (λ action. record {
        action = action;
        outcome = skipped;
        details = "Runtime validation is not executed in Step 3.";
        duration_seconds = record { numerator = pos 0; exponent = 0 };
        artifacts = [];
        locations = [];
      })
      s.actions

-- `_empty_strategy`
unfoldable pub empty_strategy : PrWorkflowTriage → StrategyResult
empty_strategy t = record {
  actions = [];
  reasoning = t.rationale;
  confidence = record { numerator = pos 0; exponent = 0 };
  knowledge_refs = [];
}

unfoldable pub triage_summary : PrAnalysisContext → PrWorkflowTriage → String
triage_summary c t =
    "Workflow depth `"
    ⋈ depth_value t.depth
    ⋈ "` selected after context triage; "
    ⋈ t.rationale
    ⋈ " Changed files: "
    ⋈ text_or (join ", " (map (λ f. "`" ⋈ f.path ⋈ "`") (take 5 c.files))) "no files"
    ⋈ "."

unfoldable pub triage_only_report : PrEvent → PrAnalysisContext → PrWorkflowTriage → QaReport
unfolding triage_summary empty_strategy
triage_only_report event c t = record {
  event_id = event.meta.event_id;
  repo_full_name = c.repo_full_name;
  pr_number = some c.pr_number;
  impact = record {
    summary = t.rationale;
    areas = [];
    overall_risk = not_assessed;
    raw_diff_stats =
        ("files_changed", counted (length c.files))
        ∷ ("additions", number (additions_of c.files))
        ∷ ("deletions", number (deletions_of c.files))
        ∷ [];
  };
  strategy = empty_strategy t;
  validations = [];
  summary_markdown = triage_summary c t;
  ci_feedback = none;
}

abbrev pub is_waiting : CiReadinessState → Bool
is_waiting waiting_for_checks = true
is_waiting ready = false
is_waiting checks_failed = false

-- `_can_publish_official_review`
unfoldable pub can_publish_official_review : Option CiFeedbackContext → Bool
can_publish_official_review none = true
can_publish_official_review (some ci) = not (is_waiting ci.readiness)

-- What the strategy stage leaves.
pub record Planned : Type 0 where
  pub ci_feedback : Option CiFeedbackContext
  pub strategy : StrategyResult

-- The result without a review.
abbrev pub unreviewed :
    PrEvent
    → QaReport
    → PrWorkflowTriage
    → List WorkflowStage
    → Option PrCommentPayload
    → PrWorkflowResult
unreviewed event report t stages comment = record {
  event = event;
  report = report;
  triage = t;
  comment_payload = comment;
  review_payload = none;
  stage_order = stages;
}

abbrev pub full_report :
    PrEvent
    → PrAnalysisContext
    → BehaviourImpact
    → Planned
    → Option (List ValidationResult)
    → QaReport
full_report event c impact planned validations = record {
  event_id = event.meta.event_id;
  repo_full_name = c.repo_full_name;
  pr_number = some c.pr_number;
  impact = impact;
  strategy = planned.strategy;
  validations = elim validations [ none ↦ [] | some results ↦ results ];
  summary_markdown = impact.summary;
  ci_feedback = planned.ci_feedback;
}

-- The stages of a run with analysis.
abbrev pub full_order : PrWorkflowTriage → Option (List ValidationResult) → List WorkflowStage
full_order t validations =
    context ∷ triage ∷ analyzer ∷ (if runs_strategy t then strategy ∷ [] else [])
    ++ (if is_some validations then validator ∷ [] else [])
    ++ renderer ∷ []

-- The result of a run with analysis.
abbrev pub reviewed : PrWorkflowDraft → PrCommentPayload → PrWorkflowResult
reviewed draft comment = record {
  event = draft.event;
  report = draft.report;
  triage = draft.triage;
  comment_payload = some comment;
  review_payload =
      if can_publish_official_review draft.report.ci_feedback
      then review_payload_for_draft draft
      else none;
  stage_order = draft.stage_order;
}

abbrev pub full_draft :
    PrEvent
    → PrAnalysisContext
    → BehaviourImpact
    → Planned
    → PrWorkflowTriage
    → Option (List ValidationResult)
    → PrWorkflowDraft
full_draft event c impact planned t validations = record {
  event = event;
  report = full_report event c impact planned validations;
  triage = t;
  stage_order = full_order t validations;
}

-- The draft of a run without analysis.
abbrev pub light_draft : PrEvent → PrAnalysisContext → PrWorkflowTriage → PrWorkflowDraft
light_draft event c t = record {
  event = event;
  report = triage_only_report event c t;
  triage = t;
  stage_order = context ∷ triage ∷ renderer ∷ [];
}

module _ {W : Type 0} (with_components : Components W) where
  abbrev pub provided_feedback :
      Option (PrEvent → Exec Exception W (Option CiFeedbackContext))
      → PrEvent
      → Exec Exception W (Option CiFeedbackContext)
  provided_feedback none event = pure none
  provided_feedback (some provider) event = provider event

  unfoldable pub strategy_stage :
      PrEvent → PrAnalysisContext → PrWorkflowTriage → BehaviourImpact → Exec Exception W Planned
  strategy_stage event c t impact =
      if runs_strategy t
      then (do
        ci ← provided_feedback with_components.ci_feedback_provider event
        planned ← with_components.plan c.repo_full_name c.pr_number c.title impact ci
        pure (record { ci_feedback = ci; strategy = planned }))
      else pure (record { ci_feedback = none; strategy = empty_strategy t })

  abbrev pub run_validator :
      Validator W → PrEvent → StrategyResult → Exec Exception W (List ValidationResult)
  run_validator (for_event validate) event planned = validate event planned
  run_validator (for_strategy validate) event planned = validate planned

  -- Whether the validator is to run; `should_validate` is asked below the depth `deep` only.
  unfoldable pub validation_due :
      PrEvent → PrWorkflowTriage → BehaviourImpact → StrategyResult → Exec Exception W Bool
  validation_due event t impact planned =
      if not (allows_validation t)
      then pure false
      else if is_deep t.depth
      then pure true
      else with_components.should_validate event impact planned

  -- The validations, `none` where the stage does not run.
  unfoldable pub validator_stage :
      PrEvent → Bool → StrategyResult → Exec Exception W (Option (List ValidationResult))
  validator_stage event due planned =
      if due
      then (do
        results ← run_validator with_components.runtime_validator event planned
        pure (some results))
      else pure none

  unfoldable pub render_full : PrWorkflowDraft → Exec Exception W PrWorkflowResult
  render_full draft = do comment ← with_components.render draft; pure (reviewed draft comment)

  unfoldable pub run_full :
      PrEvent → PrAnalysisContext → PrWorkflowTriage → Exec Exception W PrWorkflowResult
  run_full event c t = do
    impact ← with_components.analyze c
    planned ← strategy_stage event c t impact
    due ← validation_due event t impact planned.strategy
    validations ← validator_stage event due planned.strategy
    render_full (full_draft event c impact planned t validations)

  unfoldable pub render_light : PrWorkflowDraft → Exec Exception W PrWorkflowResult
  render_light draft = do
    comment ← with_components.render draft
    pure (unreviewed draft.event draft.report draft.triage draft.stage_order (some comment))

  unfoldable pub run_triaged :
      PrEvent → PrAnalysisContext → PrWorkflowTriage → Exec Exception W PrWorkflowResult
  run_triaged event c t =
      if not (renders_output t)
      then pure (unreviewed event (triage_only_report event c t) t (context ∷ triage ∷ []) none)
      else if not (runs_analysis t)
      then render_light (light_draft event c t)
      else run_full event c t

  unfoldable pub run : PrEvent → Exec Exception W PrWorkflowResult
  run event = do
    c ← with_components.load event
    t ← with_components.classify c
    run_triaged event c t
