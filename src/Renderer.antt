-- ===== src/Renderer.antt =====
-- `GitHubPRCommentRenderer` of src/adapters/renderers/pr_comment.py. `fixed` prints a duration with
-- three decimals, as Python's format does.
pub mod Markdown
pub mod Sections
pub mod Actions
pub mod Spans
pub mod Marker
use qaestro.Prelude.{
  ℤ, String, Option, none, some, List, [], ◌∷◌, ◌++◌, Result, ok, err, Exception, text_or, join,
  ◌⋈◌, int_text,
}
use qaestro.Contracts.{CiFeedbackContext, Float, QaReport}
use qaestro.Review.{PrCommentPayload}
use qaestro.Outputs.Prepare.{attribution}
use qaestro.Workflow.{PrWorkflowDraft}
use qaestro.Workflow.Triage.{PrWorkflowTriage}
use qaestro.Renderer.Sections.{
  triage_lines, overall_risk_label, diff_stat_lines, ci_feedback_section, impact_lines,
}
use qaestro.Renderer.Actions.{action_lines, validation_lines}

abbrev pub or_report :
    Option CiFeedbackContext → Option CiFeedbackContext → Option CiFeedbackContext
or_report none o = o
or_report (some ci) o = some ci

-- The lines of the comment.
unfoldable pub comment_lines :
    (Float → String)
    → QaReport
    → ℤ
    → String
    → Option PrWorkflowTriage
    → Option CiFeedbackContext
    → List String
comment_lines fixed report n correlation_id triage ci_feedback =
    "## Behaviour Impact Report"
    ∷ ""
    ∷ ("Repository: `" ⋈ report.repo_full_name ⋈ "`")
    ∷ ("Pull request: `#" ⋈ int_text n ⋈ "`")
    ∷ ("Event: `" ⋈ report.event_id ⋈ "`")
    ∷ ("Overall risk: **" ⋈ overall_risk_label report ⋈ "**")
    ∷ (triage_lines triage
        ++ (""
            ∷ "### Change Summary"
            ∷ text_or report.summary_markdown report.impact.summary
            ∷ ""
            ∷ "### Diff Stats"
            ∷ diff_stat_lines report)
        ++ ci_feedback_section ci_feedback
        ++ ("" ∷ "### Impact Areas" ∷ impact_lines report)
        ++ (""
            ∷ "### Strategy Evidence"
            ∷ text_or report.strategy.reasoning "No strategy reasoning provided."
            ∷ action_lines report)
        ++ ("" ∷ "### Validation" ∷ validation_lines fixed report)
        ++ ("" ∷ ("Correlation ID: `" ⋈ correlation_id ⋈ "`") ∷ "" ∷ attribution ∷ []))

unfoldable pub render :
    (Float → String)
    → QaReport
    → String
    → Option PrWorkflowTriage
    → Option CiFeedbackContext
    → Result Exception PrCommentPayload
render fixed report correlation_id triage ci_feedback = elim report.pr_number [
  | none ↦ err (record {
    class_name = "ValueError";
    message = "PR comment renderer requires report.pr_number";
  })
  | some n ↦ ok (record {
    repo_full_name = report.repo_full_name;
    pr_number = n;
    body = join "\n" (
        comment_lines fixed report n correlation_id triage
          (or_report ci_feedback report.ci_feedback));
  })
]

-- `_DefaultDraftRenderer.render` of src/runtime/orchestrator/pr_workflow.py.
unfoldable pub render_draft : (Float → String) → PrWorkflowDraft → Result Exception PrCommentPayload
render_draft fixed draft =
    render fixed draft.report draft.event.meta.correlation_id (some draft.triage)
      draft.report.ci_feedback
