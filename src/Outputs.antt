-- ===== src/Outputs.antt =====
-- Posting to a pull request (src/runtime/orchestrator/tool_output.py and the review payload of
-- src/adapters/renderers/pr_comment.py).
pub mod Prepare
pub mod Poster
pub mod Order
pub mod Sequence
pub mod Stale
use qaestro.Prelude.{ℤ, String, List, Option}
use qaestro.Review.{PrReviewComment}
use qaestro.Tools.Runtime.{ToolError}

pub record CommentResult : Type 0 where
  pub id : ℤ
  pub html_url : String
  pub body : String

pub record ReviewResult : Type 0 where
  pub id : ℤ
  pub html_url : String
  pub state : String
  pub body : String
  pub commit_id : String

-- The inputs that the poster gives to its tools.
pub data OutputInput : Type 0 where
  view_input : String → ℤ → OutputInput
  list_input : String → ℤ → OutputInput
  comment_input : String → ℤ → String → String → OutputInput
  review_input : String → ℤ → String → String → String → List PrReviewComment → OutputInput

-- What a tool may return, as the poster tells it apart. Of a `PRMeta` or a mapping it reads the head.
pub data OutputValue : Type 0 where
  with_head : String → OutputValue
  comment_value : CommentResult → OutputValue
  review_value : ReviewResult → OutputValue
  -- A tuple; `none` is an element of another type.
  reviews_value : List (Option ReviewResult) → OutputValue
  other_value : OutputValue

pub data OutputError : Type 0 where
  invalid_review : String → OutputError
  tool_error : ToolError → OutputError
  tool_failed : String → OutputError
  unexpected_output : String → OutputError
  stale_head : String → String → OutputError

pub record PrOutputPostResult : Type 0 where
  pub comment : CommentResult
  pub review : Option ReviewResult
