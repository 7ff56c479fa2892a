-- ===== src/Examples/Outputs.antt =====
-- A posting with a review of a commit that is not the head any more.
use qaestro.Prelude.{
  none, starts_with, occurs, ℤ, pos, ◌≡◌, refl, some, List, [], ◌∷◌, ok, err, lookup, insert, strip,
}
use qaestro.Review.{PrCommentPayload, PrReviewPayload}
use qaestro.Tools.{read, ToolDefinition, stage_eq, capability_eq}
use qaestro.Tools.Policy.{denial_reason, allowed_tools, check}
use qaestro.Tools.WorkerPolicy.{worker_policy}
use qaestro.Tools.Runtime.{ToolRuntime, make_runtime}
use qaestro.Tools.Runtime
use qaestro.Outputs.{OutputInput, view_input, OutputValue, with_head, stale_head}
use qaestro.Outputs.Prepare.{
  with_attribution_text, prepared_for_submission, mapped_comments, with_correlation_id,
  prepare_review,
}
use qaestro.Outputs.Poster.{run_tool, output_of, post_outputs}
use qaestro.Outputs.Sequence.{RunsAtMost}
use qaestro.Outputs.Order.{tools_of, post_outputs-RunsAtMost}
use qaestro.Outputs.Stale.{post_outputs_stale}

abbrev old_review : PrReviewPayload
old_review = record {
  repo_full_name = "o/r";
  pr_number = pos 7;
  head_sha = "aaa";
  body = "Looks good. Generated by Qaestro. Correlation ID: `c1`";
  event = "COMMENT";
  comments = [];
}

abbrev summary : PrCommentPayload
summary = record { repo_full_name = "o/r"; pr_number = pos 7; body = "Summary" }

-- The world counts the calls of the handlers.
abbrev output_tools : List (ToolDefinition OutputInput OutputValue ℤ)
output_tools =
    record {
      name = "github.pr.view";
      capabilities = read ∷ [];
      handler = λ call w. (ok (with_head "bbb"), pos 1);
      description = "";
      input_schema = none;
    }
    ∷ []

abbrev output_runtime : ToolRuntime OutputInput OutputValue ℤ
output_runtime = make_runtime output_tools worker_policy (pos 0)

post_outputs-RunsAtMost_example :
    RunsAtMost (tools_of (some old_review)) (post_outputs {W = ℤ} summary (some old_review) "c1")
post_outputs-RunsAtMost_example = post_outputs-RunsAtMost summary (some old_review) "c1"

review_prepared : prepare_review old_review "c1" ≡ ok old_review
unfolding prepare_review prepared_for_submission mapped_comments with_correlation_id occurs
    with_attribution_text strip starts_with
review_prepared = refl

abbrev after_view : ToolRuntime OutputInput OutputValue ℤ
after_view = (run_tool {W = ℤ} "github.pr.view" (view_input "o/r" (pos 7)) "c1" output_runtime).1

view_runs :
    run_tool {W = ℤ} "github.pr.view" (view_input "o/r" (pos 7)) "c1" output_runtime
    ≡ (ok (with_head "bbb"), after_view)
unfolding run_tool output_of make_runtime Runtime.execute lookup insert check denial_reason
    allowed_tools
view_runs = refl

post_outputs_stale_example :
    post_outputs summary (some old_review) "c1" output_runtime
    ≡ (err (stale_head "bbb" "aaa"), after_view)
post_outputs_stale_example =
    post_outputs_stale old_review old_review "c1" "bbb" output_runtime after_view summary
      review_prepared view_runs refl
