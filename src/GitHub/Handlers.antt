-- ===== src/GitHub/Handlers.antt =====
-- The handlers of the GitHub tools and their definitions (src/runtime/tools/github.py).
use qaestro.Prelude.{
  ℤ, String, ◌&&◌, ◌||◌, not, Option, none, some, List, [], ◌∷◌, Result, ok, err, Exception,
  if◌then◌else◌, ◌⋈◌, strip, is_set, occurs,
}
use qaestro.Prelude.Exec.{Exec, lift, pure, ◌>>=◌}
use qaestro.Json.{str, int, Fields, field, get_default}
use qaestro.Review.{PrReviewPayload}
use qaestro.Tools.{ToolCapability, read, write, ToolDefinition}
use qaestro.Outputs.{CommentResult}
use qaestro.Outputs.Prepare.{prepared_for_submission}
use qaestro.GitHub.{
  GitHubClient, GitHubValue, meta, files, diff, jobs, checks, comment, reviews, review,
}
use qaestro.GitHub.Input.{
  Python, value_error, text_of, positive_input, repo_input, repo_pr_input, from_tool_input,
  to_client_comments,
}

-- `_persisted_comment_body`
unfoldable pub persisted_comment_body : String → String → String
persisted_comment_body body marker =
    if not (is_set marker) || occurs marker body
    then body
    else if not (is_set body)
    then marker
    else marker ⋈ "\n\n" ⋈ body

-- The first comment that holds the marker.
unfoldable pub marked_comment : String → List CommentResult → Option CommentResult
marked_comment marker [] = none
marked_comment marker (c ∷ cs) =
    let rest = marked_comment marker cs in
    if is_set marker && occurs marker c.body then some c else rest

-- `{**call.input, "repo_full_name": ..., "pr_number": ...}`, as far as it is read.
abbrev pub with_target : String → String → ℤ → Fields → Fields
with_target owner repo n input =
    field "repo_full_name" (str (owner ⋈ "/" ⋈ repo)) (field "pr_number" (int n) input)

abbrev pub prepared_or_raise : PrReviewPayload → Result Exception PrReviewPayload
prepared_or_raise payload = elim (prepared_for_submission payload) [
  | ok prepared ↦ ok prepared
  | err text ↦ value_error text
]

module _ {W : Type 0} (client : GitHubClient W) (python : Python) where
  unfoldable pub get_pull_request : Fields → Exec Exception W GitHubValue
  get_pull_request input = do
    (owner, repo, n) ← lift (repo_pr_input python input)
    m ← client.get_pull_request owner repo n
    pure (meta m)

  unfoldable pub list_pull_request_files : Fields → Exec Exception W GitHubValue
  list_pull_request_files input = do
    (owner, repo, n) ← lift (repo_pr_input python input)
    fs ← client.list_pull_request_files owner repo n
    pure (files fs)

  unfoldable pub get_pull_request_diff : Fields → Exec Exception W GitHubValue
  get_pull_request_diff input = do
    (owner, repo, n) ← lift (repo_pr_input python input)
    d ← client.get_pull_request_diff owner repo n
    pure (diff d)

  unfoldable pub list_workflow_run_jobs : Fields → Exec Exception W GitHubValue
  list_workflow_run_jobs input = do
    (owner, repo) ← lift (repo_input python input)
    run_id ← lift (positive_input python "run_id" input)
    js ← client.list_workflow_run_jobs owner repo run_id
    pure (jobs js)

  abbrev pub ref_input : Fields → Result Exception String
  ref_input input =
      let ref = strip (text_of python (get_default "ref" (str "") input)) in
      if is_set ref then ok ref else value_error "ref is required"

  unfoldable pub list_check_runs_for_ref : Fields → Exec Exception W GitHubValue
  list_check_runs_for_ref input = do
    (owner, repo) ← lift (repo_input python input)
    ref ← lift (ref_input input)
    cs ← client.list_check_runs_for_ref owner repo ref
    pure (checks cs)

  -- The comment that holds the marker is updated; without one a comment is created.
  abbrev pub write_comment :
      String → String → ℤ → String → Option CommentResult → Exec Exception W CommentResult
  write_comment owner repo n body none = client.create_issue_comment owner repo n body
  write_comment owner repo n body (some c) = client.update_issue_comment owner repo c.id body

  abbrev pub body_input : Fields → String
  body_input input = text_of python (get_default "body" (str "") input)

  abbrev pub marker_input : Fields → String
  marker_input input = strip (text_of python (get_default "marker" (str "") input))

  unfoldable pub create_or_update_comment : Fields → Exec Exception W GitHubValue
  create_or_update_comment input = do
    (owner, repo, n) ← lift (repo_pr_input python input)
    existing ← client.list_issue_comments owner repo n
    c ←
        write_comment owner repo n (persisted_comment_body (body_input input) (marker_input input))
          (marked_comment (marker_input input) existing)
    pure (comment c)

  unfoldable pub list_pull_request_reviews : Fields → Exec Exception W GitHubValue
  list_pull_request_reviews input = do
    (owner, repo, n) ← lift (repo_pr_input python input)
    rs ← client.list_pull_request_reviews owner repo n
    pure (reviews rs)

  unfoldable pub create_pull_request_review : Fields → Exec Exception W GitHubValue
  create_pull_request_review input = do
    (owner, repo, n) ← lift (repo_pr_input python input)
    payload ← lift (from_tool_input python (with_target owner repo n input))
    prepared ← lift (prepared_or_raise payload)
    comments ← lift (to_client_comments prepared.comments)
    r ←
        client.create_pull_request_review owner repo n prepared.body prepared.head_sha
          prepared.event comments
    pure (review r)

  abbrev pub by_message : Result Exception GitHubValue → Result String GitHubValue
  by_message (ok v) = ok v
  by_message (err e) = err e.message

  -- The tool's handler, whose exception the runtime reads as a text.
  abbrev pub tool :
      String
      → ToolCapability
      → (Fields → Exec Exception W GitHubValue)
      → ToolDefinition Fields GitHubValue W
  tool name capability handler = record {
    name = name;
    capabilities = capability ∷ [];
    handler = λ call w. let (r, w') = handler call.input w in (by_message r, w');
    description = "";
    input_schema = none;
  }

  unfoldable pub build_github_pr_tools : List (ToolDefinition Fields GitHubValue W)
  build_github_pr_tools =
      tool "github.pr.view" read get_pull_request
      ∷ tool "github.pr.files" read list_pull_request_files
      ∷ tool "github.pr.diff" read get_pull_request_diff
      ∷ tool "github.actions.run.jobs" read list_workflow_run_jobs
      ∷ tool "github.checks.runs_for_ref" read list_check_runs_for_ref
      ∷ tool "github.pr.comment.create_or_update" write create_or_update_comment
      ∷ tool "github.pr.review.list" read list_pull_request_reviews
      ∷ tool "github.pr.review.create" write create_pull_request_review
      ∷ []
