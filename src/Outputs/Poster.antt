-- ===== src/Outputs/Poster.antt =====
-- `ToolRuntimePROutputPoster` and `ToolRuntimePRCommentPoster` of
-- src/runtime/orchestrator/tool_output.py over the tool runtime.
use qaestro.Prelude.{
  occurs, int_text, ℤ, String, ◌&&◌, Option, none, some, List, [], ◌∷◌, Result, ok, err,
  if◌then◌else◌, ◌==◌, string_eq, text_or, ◌⋈◌,
}
use qaestro.Prelude.Exec.{Exec, pure, lift, continue, ◌>>=◌, ◌>>◌}
use qaestro.Review.{PrCommentPayload, PrReviewPayload}
use qaestro.Tools.{output, ToolCall, ToolResult}
use qaestro.Tools.Runtime.{ToolRuntime, ToolError}
use qaestro.Tools.Runtime
use qaestro.Outputs.{
  CommentResult, ReviewResult, OutputInput, view_input, list_input, comment_input, review_input,
  OutputValue, with_head, comment_value, review_value, reviews_value, other_value, OutputError,
  invalid_review, tool_error, tool_failed, unexpected_output, stale_head, PrOutputPostResult,
}
use qaestro.Outputs.Prepare.{prepare_review}

abbrev pub wrap_error : {A : Type 0} → Result ToolError A → Result OutputError A
wrap_error (ok a) = ok a
wrap_error (err e) = err (tool_error e)

-- The result's output; `RuntimeError(result.error or "... failed")` where it is not ok.
unfoldable pub output_of :
    String → ToolResult OutputInput OutputValue → Result OutputError OutputValue
output_of name r =
    if r.ok
    then (elim r.output [ none ↦ ok other_value | some v ↦ ok v ])
    else err (tool_failed (text_or r.error (name ⋈ " failed")))

unfoldable pub head_sha_from_output : OutputValue → Result OutputError String
head_sha_from_output (with_head sha) = ok sha
head_sha_from_output value = err (unexpected_output "github.pr.view")

unfoldable pub as_comment : OutputValue → Result OutputError CommentResult
as_comment (comment_value c) = ok c
as_comment value = err (unexpected_output "github.pr.comment.create_or_update")

unfoldable pub as_review : OutputValue → Result OutputError ReviewResult
as_review (review_value r) = ok r
as_review value = err (unexpected_output "github.pr.review.create")

-- The loop of `_find_existing_review`.
unfoldable pub find_review :
    String → String → List (Option ReviewResult) → Result OutputError (Option ReviewResult)
find_review head_sha correlation_id [] = ok none
find_review head_sha correlation_id (none ∷ rest) = err (unexpected_output "github.pr.review.list")
find_review head_sha correlation_id (some r ∷ rest) =
    let found = find_review head_sha correlation_id rest in
    if r.commit_id == head_sha && occurs correlation_id r.body then ok (some r) else found

unfoldable pub review_in : String → String → OutputValue → Result OutputError (Option ReviewResult)
review_in head_sha correlation_id (reviews_value rs) = find_review head_sha correlation_id rs
review_in head_sha correlation_id value = err (unexpected_output "github.pr.review.list")

unfoldable pub check_head : String → String → Result OutputError (Unit {0})
check_head head_sha current_head =
    if current_head == head_sha then ok tt else err (stale_head current_head head_sha)

unfoldable pub comment_marker : String → ℤ → String
comment_marker repo_full_name pr_number =
    "Repository: `" ⋈ repo_full_name ⋈ "`\nPull request: `#" ⋈ int_text pr_number ⋈ "`"

abbrev pub invalid_if : Result String PrReviewPayload → Result OutputError PrReviewPayload
invalid_if (ok p) = ok p
invalid_if (err e) = err (invalid_review e)

abbrev pub prepare_or_invalid : PrReviewPayload → String → Result OutputError PrReviewPayload
prepare_or_invalid payload correlation_id = invalid_if (prepare_review payload correlation_id)

abbrev pub output_call : String → OutputInput → String → ToolCall OutputInput
output_call name input correlation_id = record {
  stage = output;
  name = name;
  input = input;
  correlation_id = correlation_id;
}

abbrev pub Posting : Type 0 → Type 0 → Type 0
Posting W A = Exec OutputError (ToolRuntime OutputInput OutputValue W) A

module _ {W : Type 0} where
  -- A call of an output tool, and its output.
  unfoldable pub run_tool : String → OutputInput → String → Posting W OutputValue
  run_tool name input correlation_id t =
      let (r, t') = Runtime.execute (output_call name input correlation_id) t in
      continue (wrap_error r) (λ result. lift (output_of name result)) t'

  unfoldable pub ensure_current_head : PrReviewPayload → String → Posting W (Unit {0})
  ensure_current_head p correlation_id = do
    value ← run_tool "github.pr.view" (view_input p.repo_full_name p.pr_number) correlation_id
    current_head ← lift (head_sha_from_output value)
    lift (check_head p.head_sha current_head)

  unfoldable pub find_existing_review : PrReviewPayload → String → Posting W (Option ReviewResult)
  find_existing_review p correlation_id = do
    value ←
        run_tool "github.pr.review.list" (list_input p.repo_full_name p.pr_number) correlation_id
    lift (review_in p.head_sha correlation_id value)

  unfoldable pub preflight_review : PrReviewPayload → String → Posting W (Option ReviewResult)
  preflight_review p correlation_id = do
    ensure_current_head p correlation_id
    find_existing_review p correlation_id

  unfoldable pub create_review : PrReviewPayload → String → Posting W ReviewResult
  create_review p correlation_id = do
    value ←
        run_tool "github.pr.review.create"
          (review_input p.repo_full_name p.pr_number p.head_sha p.body p.event p.comments)
          correlation_id
    lift (as_review value)

  unfoldable pub post_comment : PrCommentPayload → String → Posting W CommentResult
  post_comment p correlation_id = do
    value ←
        run_tool "github.pr.comment.create_or_update"
          (comment_input p.repo_full_name p.pr_number p.body
            (comment_marker p.repo_full_name p.pr_number))
          correlation_id
    lift (as_comment value)

  -- The review that is there, or a new one.
  unfoldable pub existing_or_created :
      PrReviewPayload → String → Option ReviewResult → Posting W ReviewResult
  existing_or_created p correlation_id (some r) = pure r
  existing_or_created p correlation_id none = create_review p correlation_id

  unfoldable pub post_review : PrReviewPayload → String → Posting W ReviewResult
  post_review payload correlation_id = do
    prepared ← lift (prepare_or_invalid payload correlation_id)
    existing ← preflight_review prepared correlation_id
    existing_or_created prepared correlation_id existing

  unfoldable pub post_outputs :
      PrCommentPayload → Option PrReviewPayload → String → Posting W PrOutputPostResult
  post_outputs comment_payload none correlation_id = do
    comment ← post_comment comment_payload correlation_id
    pure (record { comment = comment; review = none })
  post_outputs comment_payload (some review_payload) correlation_id = do
    prepared ← lift (prepare_or_invalid review_payload correlation_id)
    existing ← preflight_review prepared correlation_id
    comment ← post_comment comment_payload correlation_id
    review ← existing_or_created prepared correlation_id existing
    pure (record { comment = comment; review = some review })
