-- ===== src/Tools/WorkerPolicy.antt =====
-- The tools and the policy of the worker (`_build_github_tool_runtime` of src/app/worker/factory.py
-- and `build_github_pr_tools` of src/runtime/tools/github.py).
use qaestro.Prelude.{String, List, [], ◌∷◌, false}
use qaestro.Tools.{context, output, ToolCapability, read, write}
use qaestro.Tools.Policy.{StageToolPolicy}

-- The name and the capabilities of each tool.
abbrev pub github_pr_tools : List (String × List ToolCapability)
github_pr_tools =
    ("github.pr.view", read ∷ [])
    ∷ ("github.pr.files", read ∷ [])
    ∷ ("github.pr.diff", read ∷ [])
    ∷ ("github.actions.run.jobs", read ∷ [])
    ∷ ("github.checks.runs_for_ref", read ∷ [])
    ∷ ("github.pr.comment.create_or_update", write ∷ [])
    ∷ ("github.pr.review.list", read ∷ [])
    ∷ ("github.pr.review.create", write ∷ [])
    ∷ []

abbrev pub worker_policy : StageToolPolicy
worker_policy = record {
  allowed_tools_by_stage =
      (
        context,
        "github.pr.view" ∷ "github.pr.files" ∷ "github.pr.diff" ∷ "github.actions.run.jobs"
            ∷ "github.checks.runs_for_ref" ∷ [],
      )
      ∷ (
        output,
        "github.pr.view" ∷ "github.pr.comment.create_or_update" ∷ "github.pr.review.list"
            ∷ "github.pr.review.create" ∷ [],
      )
      ∷ [];
  allow_destructive = false;
}
