-- ===== src/Workflow.antt =====
-- The workflows of src/runtime/orchestrator and their results (types.py, ci_workflow.py).
pub mod Triage
pub mod Pr
pub mod Ci
pub mod Dispatch
pub mod Feedback
pub mod Context
use qaestro.Prelude.{String, Option, List}
use qaestro.Contracts.{PrEvent, CiCompleted, QaReport}
use qaestro.Review.{PrCommentPayload, PrReviewPayload}
use qaestro.Tools.{WorkflowStage}
use qaestro.Workflow.Triage.{PrWorkflowTriage}

pub record PrWorkflowDraft : Type 0 where
  pub event : PrEvent
  pub report : QaReport
  pub triage : PrWorkflowTriage
  pub stage_order : List WorkflowStage

pub record PrWorkflowResult : Type 0 where
  pub event : PrEvent
  pub report : QaReport
  pub triage : PrWorkflowTriage
  pub comment_payload : Option PrCommentPayload
  pub review_payload : Option PrReviewPayload
  pub stage_order : List WorkflowStage

pub data CiWorkflowDepth : Type 0 where
  orphan lightweight normal deep : CiWorkflowDepth

pub record CiWorkflowResult : Type 0 where
  pub event : CiCompleted
  pub depth : CiWorkflowDepth
  pub summary : String
  pub stage_order : List WorkflowStage
  pub comment_payload : Option PrCommentPayload

-- `PRWorkflowResult | CIWorkflowResult`
pub data WorkflowResult : Type 0 where
  pr_result : PrWorkflowResult → WorkflowResult
  ci_result : CiWorkflowResult → WorkflowResult
