-- ===== src/GitHub/Client.antt =====
-- `GitHubClient` of src/adapters/connectors/github/client.py, over the authentication and the
-- transport. The page size, which its callers leave at 100, is a natural number.
use qaestro.Prelude.{
  ℕ, ℤ, pos, String, not, ◌&&◌, Option, none, some, List, [], ◌∷◌, Dict, insert, Result, ok,
  if◌then◌else◌, leb, ltb_ℤ, string_eq, ◌⋈◌, int_text, decimal, strip, is_set, is_nonempty,
  rstrip_chars,
}
use qaestro.Prelude.Exec.{pure, lift, ◌>>=◌, ◌>>◌}
use qaestro.Json.{Json, str, arr, obj, Items, Fields, field, end, get_default, null}
use qaestro.Outputs.{CommentResult, ReviewResult}
use qaestro.Aggregate.Checks.{CheckRunResult}
use qaestro.GitHub.{PrMeta, FileDiff, ReviewCommentInput, ActionsJobResult}
use qaestro.GitHub.Http.{
  HttpResponse, Library, GitHubFault, faulted, shape_fault, value_fault, raise_for_status, json_of,
}
use qaestro.GitHub.Auth.{AppAuth, AuthParts, Connected}
use qaestro.GitHub.Auth.Issue.{send, installation_token}
use qaestro.GitHub.Payload.{
  text_of, no_get, pr_meta_from_payload, comment_result_from_payload, review_result_from_payload,
  file_diff_from_payload, actions_job_from_payload, check_run_from_payload, review_comment_payloads,
  read_items,
}
use qaestro.GitHub.Paging.{walk_pages}

-- The client's fields beside the authentication and the transport.
pub record ClientConfig : Type 0 where
  pub base_url : String
  pub user_agent : String

-- `GitHubClient(...)`
unfoldable pub make_config : String → String → ClientConfig
make_config base_url user_agent = record {
  base_url = rstrip_chars "/" base_url;
  user_agent = user_agent;
}

-- The elements of a page: those of a list, or of the list under a key of an object.
abbrev pub list_page : String → Json → Result GitHubFault Items
list_page text (arr xs) = ok xs
list_page text value = shape_fault text

abbrev pub keyed_page : String → String → Json → Result GitHubFault Items
keyed_page key text (obj fs) = list_page text (get_default key null fs)
keyed_page key text value = shape_fault text

abbrev pub object_of : String → Json → Result GitHubFault Fields
object_of text (obj fs) = ok fs
object_of text value = shape_fault text

-- `headers.update(extra)`
unfoldable pub updated : Dict String String → Dict String String → Dict String String
updated [] headers = headers
updated ((k, v) ∷ extra) headers = updated extra (insert k v headers)

module _ {B W D : Type 0} (lib : Library B) (no_body : B) (cfg : ClientConfig) (auth : AppAuth)
    (parts : AuthParts B W D) where
  abbrev pub segment : String → String
  segment value = lib.quote value

  abbrev pub repo_path : String → String → String
  repo_path owner repo = "/repos/" ⋈ segment owner ⋈ "/" ⋈ segment repo

  abbrev pub token_headers : Json → Dict String String
  token_headers token =
      ("Authorization", "Bearer " ⋈ text_of lib token)
      ∷ ("Accept", "application/vnd.github+json")
      ∷ ("X-GitHub-Api-Version", "2022-11-28")
      ∷ ("User-Agent", cfg.user_agent)
      ∷ []

  -- `_request`.
  unfoldable pub request :
      String → String → Option B → Dict String String → Connected W (HttpResponse B)
  request method path body extra = do
    token ← installation_token lib auth parts no_body
    r ← send lib auth parts method (cfg.base_url ⋈ path) (updated extra (token_headers token)) body
    lift (raise_for_status lib r)
    pure r

  -- A request whose response is read as JSON.
  unfoldable pub request_json : String → String → Option B → Dict String String → Connected W Json
  request_json method path body extra = do
    r ← request method path body extra
    lift (faulted (json_of lib r))

  abbrev pub request_object :
      String → String → String → Option B → Dict String String → Connected W Fields
  request_object text method path body extra = do
    value ← request_json method path body extra
    lift (object_of text value)

  abbrev pub json_content : Dict String String
  json_content = ("Content-Type", "application/json") ∷ []

  -- A page of a listing, whose elements are read one by one.
  unfoldable pub fetch_page :
      {A : Type 0}
      → (Json → Result GitHubFault Items)
      → Result GitHubFault A
      → (Fields → Result GitHubFault A)
      → String
      → ℕ
      → ℕ
      → Connected W (List A)
  fetch_page items_of not_object reading path per_page page = do
    value ←
        request_json "GET" (path ⋈ "?per_page=" ⋈ decimal per_page ⋈ "&page=" ⋈ decimal page) none
          []
    items ← lift (items_of value)
    lift (read_items not_object reading items)

  abbrev pub list_pages :
      {A : Type 0}
      → (Json → Result GitHubFault Items)
      → Result GitHubFault A
      → (Fields → Result GitHubFault A)
      → String
      → ℕ
      → Connected W (List A)
  list_pages items_of not_object reading path per_page =
      if not (leb 1 per_page && leb per_page 100)
      then lift (value_fault "per_page must be between 1 and 100")
      else walk_pages (fetch_page items_of not_object reading path per_page) per_page

  unfoldable pub get_pull_request : String → String → ℤ → Connected W PrMeta
  get_pull_request owner repo number = do
    fs ←
        request_object "unexpected pull request payload shape" "GET"
          (repo_path owner repo ⋈ "/pulls/" ⋈ int_text number) none []
    lift (pr_meta_from_payload lib fs)

  unfoldable pub list_pull_request_files : String → String → ℤ → ℕ → Connected W (List FileDiff)
  list_pull_request_files owner repo number =
      list_pages (list_page "unexpected pull request files payload shape") no_get
        (file_diff_from_payload lib) (repo_path owner repo ⋈ "/pulls/" ⋈ int_text number ⋈ "/files")

  unfoldable pub get_pull_request_diff : String → String → ℤ → Connected W String
  get_pull_request_diff owner repo number = do
    r ←
        request "GET" (repo_path owner repo ⋈ "/pulls/" ⋈ int_text number) none
          (("Accept", "application/vnd.github.diff") ∷ [])
    pure (lib.decode_replace r.body)

  unfoldable pub create_issue_comment : String → String → ℤ → String → Connected W CommentResult
  create_issue_comment owner repo number body =
      if not (is_set (strip body)) then lift (value_fault "comment body must not be empty") else (do
        fs ←
            request_object "unexpected create-comment payload shape" "POST"
              (repo_path owner repo ⋈ "/issues/" ⋈ int_text number ⋈ "/comments")
              (some (lib.dumps (obj (field "body" (str body) end)))) json_content
        lift (comment_result_from_payload lib fs))

  unfoldable pub list_issue_comments : String → String → ℤ → ℕ → Connected W (List CommentResult)
  list_issue_comments owner repo number =
      list_pages (list_page "unexpected issue-comments payload shape")
        (shape_fault "unexpected issue-comments payload shape") (comment_result_from_payload lib)
        (repo_path owner repo ⋈ "/issues/" ⋈ int_text number ⋈ "/comments")

  unfoldable pub update_issue_comment : String → String → ℤ → String → Connected W CommentResult
  update_issue_comment owner repo comment_id body =
      if not (is_set (strip body)) then lift (value_fault "comment body must not be empty") else (do
        fs ←
            request_object "unexpected update-comment payload shape" "PATCH"
              (repo_path owner repo ⋈ "/issues/comments/" ⋈ int_text comment_id)
              (some (lib.dumps (obj (field "body" (str body) end)))) json_content
        lift (comment_result_from_payload lib fs))

  abbrev pub review_payload : String → String → String → Items → Json
  review_payload body commit_id event comments = obj (
      field "body" (str body) (
        field "commit_id" (str commit_id)
          (field "event" (str event) (field "comments" (arr comments) end))))

  unfoldable pub create_pull_request_review :
      String
      → String
      → ℤ
      → String
      → String
      → String
      → List ReviewCommentInput
      → Connected W ReviewResult
  create_pull_request_review owner repo number body commit_id event comments =
      if not (is_set (strip body)) && not (is_nonempty comments)
      then lift (value_fault "review body or comments must be provided")
      else if not (is_set (strip commit_id))
      then lift (value_fault "commit_id must not be empty")
      else (do
        payloads ← lift (review_comment_payloads comments)
        fs ←
            request_object "unexpected create-review payload shape" "POST"
              (repo_path owner repo ⋈ "/pulls/" ⋈ int_text number ⋈ "/reviews")
              (some (lib.dumps (review_payload (strip body) commit_id event payloads))) json_content
        lift (review_result_from_payload lib fs))

  unfoldable pub list_pull_request_reviews :
      String → String → ℤ → ℕ → Connected W (List ReviewResult)
  list_pull_request_reviews owner repo number =
      list_pages (list_page "unexpected pull request reviews payload shape")
        (shape_fault "unexpected pull request reviews payload shape")
        (review_result_from_payload lib)
        (repo_path owner repo ⋈ "/pulls/" ⋈ int_text number ⋈ "/reviews")

  unfoldable pub list_workflow_run_jobs :
      String → String → ℤ → ℕ → Connected W (List ActionsJobResult)
  list_workflow_run_jobs owner repo run_id per_page =
      if not (ltb_ℤ (pos 0) run_id)
      then lift (value_fault "run_id must be a positive integer")
      else list_pages (keyed_page "jobs" "unexpected workflow-run jobs payload shape")
          (shape_fault "unexpected workflow-run jobs payload shape") (actions_job_from_payload lib)
          (repo_path owner repo ⋈ "/actions/runs/" ⋈ int_text run_id ⋈ "/jobs") per_page

  unfoldable pub list_check_runs_for_ref :
      String → String → String → ℕ → Connected W (List CheckRunResult)
  list_check_runs_for_ref owner repo ref per_page =
      if not (is_set (strip ref))
      then lift (value_fault "ref must not be empty")
      else list_pages (keyed_page "check_runs" "unexpected check-runs payload shape")
          (shape_fault "unexpected check-runs payload shape") (check_run_from_payload lib ref)
          (repo_path owner repo ⋈ "/commits/" ⋈ segment ref ⋈ "/check-runs") per_page
