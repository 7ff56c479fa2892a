-- ===== src/Workflow/Pr/Review.antt =====
-- The official review of a PR workflow (src/runtime/orchestrator/pr_workflow.py).
use qaestro.Prelude.{
  ℤ, pos, zero, String, Bool, true, false, not, ◌&&◌, Option, none, some, List, [], ◌∷◌, ◌++◌,
  if◌then◌else◌, ◌⋈◌, is_set, strip, text_or, join, is_nonempty, ltb_ℤ, upper,
}
use qaestro.Contracts.{
  ValidationResult, ValidationLocation, ValidationOutcome, passed, failed, error, skipped,
  validation_outcome_value,
}
use qaestro.Review.{PrReviewComment, PrReviewPayload}
use qaestro.Workflow.{PrWorkflowDraft}

abbrev pub target_of : ValidationResult → String
target_of r = text_or r.action.target r.action.description

abbrev pub detail_of : ValidationResult → String
detail_of r = text_or r.details r.action.rationale

-- `f": {detail}" if detail else ""`
abbrev pub suffix_of : ValidationResult → String
suffix_of r = if is_set (detail_of r) then ": " ⋈ detail_of r else ""

abbrev pub is_fail : ValidationOutcome → Bool
is_fail failed = true
is_fail passed = false
is_fail error = false
is_fail skipped = false

-- `location.path.strip() and location.line > 0`
unfoldable pub is_located : ValidationLocation → Bool
is_located l = is_set (strip l.path) && ltb_ℤ (pos 0) l.line

unfoldable pub comment_at : ValidationResult → ValidationLocation → PrReviewComment
comment_at r l = record {
  path = l.path;
  body = "Runtime validation failed for `" ⋈ target_of r ⋈ "`" ⋈ suffix_of r;
  line = some l.line;
  side = "RIGHT";
  start_line = l.start_line;
  start_side = "";
}

unfoldable pub comments_at : ValidationResult → List ValidationLocation → List PrReviewComment
comments_at r [] = []
comments_at r (l ∷ ls) =
    let rest = comments_at r ls in if is_located l then comment_at r l ∷ rest else rest

-- `_review_inline_comments` on the validations.
unfoldable pub review_inline_comments : List ValidationResult → List PrReviewComment
unfolding comments_at
review_inline_comments [] = []
review_inline_comments (r ∷ rs) =
    let rest = review_inline_comments rs in
    if is_fail r.outcome then comments_at r r.locations ++ rest else rest

unfoldable pub review_validation_lines : List ValidationResult → List String
review_validation_lines [] = []
review_validation_lines (r ∷ rs) =
    ("- **" ⋈ upper (validation_outcome_value r.outcome) ⋈ "** `" ⋈ target_of r ⋈ "`" ⋈ suffix_of r)
    ∷ review_validation_lines rs

-- `report.pr_number or event.pr_number`
abbrev pub number_or : Option ℤ → ℤ → ℤ
number_or none n = n
number_or (some (pos zero)) n = n
number_or (some m) n = m

abbrev pub lines_or_none : List String → List String
lines_or_none lines =
    if is_nonempty lines
    then lines
    else "- No runtime validation evidence was produced for this run." ∷ []

unfoldable pub review_body : PrWorkflowDraft → String
review_body draft = join "\n" (
    ("## Runtime Validation Review"
      ∷ ""
      ∷ text_or draft.report.summary_markdown draft.report.impact.summary
      ∷ ""
      ∷ "### Validation Evidence"
      ∷ lines_or_none (review_validation_lines draft.report.validations))
    ++ ("" ∷ ("Correlation ID: `" ⋈ draft.event.meta.correlation_id ⋈ "`") ∷ []))

unfoldable pub review_payload_for_draft : PrWorkflowDraft → Option PrReviewPayload
unfolding review_body
review_payload_for_draft draft =
    if not (is_set draft.event.head_sha)
    then none
    else some (record {
      repo_full_name = draft.report.repo_full_name;
      pr_number = number_or draft.report.pr_number draft.event.pr_number;
      head_sha = draft.event.head_sha;
      body = review_body draft;
      event = "COMMENT";
      comments = review_inline_comments draft.report.validations;
    })
