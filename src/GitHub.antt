-- ===== src/GitHub.antt =====
-- The types of the GitHub connector (src/adapters/connectors/github/types.py) and the calls of its
-- client that the tools use (`GitHubPRToolClient` of src/runtime/tools/github.py). The client
-- reaches a remote service: it acts on a world `W` and may raise.
pub mod Input
pub mod Handlers
pub mod Blank
pub mod Upsert
pub mod Valid
pub mod Http
pub mod Auth
pub mod Payload
pub mod Paging
pub mod Listing
pub mod Served
pub mod Connected
pub mod Service
pub mod Client
use qaestro.Prelude.{ℤ, String, Bool, Option, List, Exception}
use qaestro.Prelude.Exec.{Exec}
use qaestro.Outputs.{CommentResult, ReviewResult}
use qaestro.Aggregate.Checks.{CheckRunResult}

pub record PrMeta : Type 0 where
  pub number : ℤ
  pub title : String
  pub state : String
  pub head_sha : String
  pub base_ref : String
  pub head_ref : String
  pub author : String
  pub draft : Bool
  pub html_url : String
  pub body : String

pub record FileDiff : Type 0 where
  pub filename : String
  pub status : String
  pub additions : ℤ
  pub deletions : ℤ
  pub changes : ℤ
  pub patch : Option String
  pub previous_filename : String

pub record ReviewCommentInput : Type 0 where
  pub path : String
  pub body : String
  pub line : Option ℤ
  pub side : String
  pub start_line : Option ℤ
  pub start_side : String

pub record ActionsJobResult : Type 0 where
  pub name : String
  pub conclusion : String
  pub html_url : String

pub record GitHubClient (W : Type 0) : Type 0 where
  pub get_pull_request : String → String → ℤ → Exec Exception W PrMeta
  pub list_pull_request_files : String → String → ℤ → Exec Exception W (List FileDiff)
  pub get_pull_request_diff : String → String → ℤ → Exec Exception W String
  pub list_workflow_run_jobs : String → String → ℤ → Exec Exception W (List ActionsJobResult)
  pub list_check_runs_for_ref : String → String → String → Exec Exception W (List CheckRunResult)
  pub create_issue_comment : String → String → ℤ → String → Exec Exception W CommentResult
  pub list_issue_comments : String → String → ℤ → Exec Exception W (List CommentResult)
  pub update_issue_comment : String → String → ℤ → String → Exec Exception W CommentResult
  pub list_pull_request_reviews : String → String → ℤ → Exec Exception W (List ReviewResult)
  pub create_pull_request_review :
      String
      → String
      → ℤ
      → String
      → String
      → String
      → List ReviewCommentInput
      → Exec Exception W ReviewResult

-- What a GitHub tool returns.
pub data GitHubValue : Type 0 where
  meta : PrMeta → GitHubValue
  files : List FileDiff → GitHubValue
  diff : String → GitHubValue
  jobs : List ActionsJobResult → GitHubValue
  checks : List CheckRunResult → GitHubValue
  comment : CommentResult → GitHubValue
  reviews : List ReviewResult → GitHubValue
  review : ReviewResult → GitHubValue
