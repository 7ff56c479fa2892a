-- ===== src/Review.antt =====
-- Payloads of the pull-request output (src/adapters/renderers/pr_comment.py).
use qaestro.Prelude.{ℤ, String, List, Option}

pub record PrCommentPayload : Type 0 where
  pub repo_full_name : String
  pub pr_number : ℤ
  pub body : String

pub record PrReviewComment : Type 0 where
  pub path : String
  pub body : String
  pub line : Option ℤ
  pub side : String
  pub start_line : Option ℤ
  pub start_side : String

pub record PrReviewPayload : Type 0 where
  pub repo_full_name : String
  pub pr_number : ℤ
  pub head_sha : String
  pub body : String
  pub event : String
  pub comments : List PrReviewComment
