-- ===== src/Workflow/Dispatch.antt =====
-- `EventOrchestrator` of src/runtime/orchestrator/dispatcher.py, with the workflows that are stubs
-- (pr_event_stubs.py and chat_workflow.py) and the fallback provider of pr_context.py.
use qaestro.Prelude.{String, none, Exception, int_text, ◌⋈◌, map}
use qaestro.Prelude.Exec.{Exec, pure, raise, ◌>>=◌}
use qaestro.Contracts.{
  Event, opened, updated, commented, reviewed, completed, mentioned, PrEvent, PrCommented,
  PrReviewed, CiCompleted, ChatMention, FileChange,
}
use qaestro.Analyzer.{PrFileDiff, PrAnalysisContext, normalize}
use qaestro.Workflow.{PrWorkflowResult, CiWorkflowResult, WorkflowResult, pr_result, ci_result}

abbrev pub unsupported : String → Exception
unsupported text = record { class_name = "UnsupportedEventError"; message = text }

-- `PRCommentWorkflowOrchestrator.run`
unfoldable pub comment_unsupported : PrCommented → Exception
comment_unsupported e = unsupported (
    "PR comment workflow orchestration is planned for a later milestone and is not implemented yet: "
    ⋈ e.repo_full_name
    ⋈ "#"
    ⋈ int_text e.pr_number
    ⋈ " comment "
    ⋈ int_text e.comment_id)

-- `PRReviewWorkflowOrchestrator.run`
unfoldable pub review_unsupported : PrReviewed → Exception
review_unsupported e = unsupported (
    "PR review workflow orchestration is planned for a later milestone and is not implemented yet: "
    ⋈ e.repo_full_name
    ⋈ "#"
    ⋈ int_text e.pr_number
    ⋈ " review "
    ⋈ e.state)

-- `ChatWorkflowOrchestrator.run`
unfoldable pub chat_unsupported : ChatMention → Exception
chat_unsupported e = unsupported (
    "Chat workflow orchestration is planned for a later milestone and is not implemented yet: "
    ⋈ e.platform ⋈ ":" ⋈ e.channel_id)

-- The two workflows that do run.
pub record Orchestrators (W : Type 0) : Type 0 where
  pub run_pr : PrEvent → Exec Exception W PrWorkflowResult
  pub run_ci : CiCompleted → Exec Exception W CiWorkflowResult

module _ {W : Type 0} (orchestrators : Orchestrators W) where
  unfoldable pub dispatch : Event → Exec Exception W WorkflowResult
  dispatch (opened e) = do r ← orchestrators.run_pr e; pure (pr_result r)
  dispatch (updated e) = do r ← orchestrators.run_pr e; pure (pr_result r)
  dispatch (commented e) = raise (comment_unsupported e)
  dispatch (reviewed e) = raise (review_unsupported e)
  dispatch (completed e) = do r ← orchestrators.run_ci e; pure (ci_result r)
  dispatch (mentioned e) = raise (chat_unsupported e)

unfoldable pub event_file : FileChange → PrFileDiff
event_file f = record {
  path = f.path;
  status = normalize f.status;
  additions = f.additions;
  deletions = f.deletions;
  patch = none;
  previous_filename = f.previous_filename;
  first_added_line = none;
}

-- `EventPRContextProvider.load`
unfoldable pub context_of_event : PrEvent → PrAnalysisContext
context_of_event e = record {
  repo_full_name = e.repo_full_name;
  pr_number = e.pr_number;
  title = e.title;
  body = e.body;
  base_branch = e.base_branch;
  head_branch = e.head_branch;
  files = map event_file e.files_changed;
  unified_diff = "";
}
