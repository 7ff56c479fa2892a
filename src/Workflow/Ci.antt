-- ===== src/Workflow/Ci.antt =====
-- `CIWorkflowOrchestrator` of src/runtime/orchestrator/ci_workflow.py. `quoted` is Python's `repr`
-- of a text.
pub mod Recording
use qaestro.Prelude.{
  ℤ, String, Bool, ◌||◌, Option, none, some, List, [], ◌∷◌, Exception, if◌then◌else◌, ◌==◌,
  string_eq, lower, join, ◌⋈◌, is_nonempty, int_text,
}
use qaestro.Prelude.Exec.{Exec, pure, ◌>>=◌, ◌>>◌}
use qaestro.Contracts.{CiCompleted}
use qaestro.Tools.{WorkflowStage, context, triage}
use qaestro.Workflow.{CiWorkflowDepth, orphan, lightweight, normal, deep, CiWorkflowResult}

-- `_depth_for`
unfoldable pub depth_for : CiCompleted → CiWorkflowDepth
depth_for event =
    let conclusion = lower event.conclusion in
    if conclusion == "failure" || conclusion == "timed_out" || is_nonempty event.failed_jobs
    then deep
    else if conclusion == "success"
    then lightweight
    else normal

-- The optional parts of the orchestrator, which act on a world `W`.
pub record CiComponents (W : Type 0) : Type 0 where
  pub load : Option (CiCompleted → Exec Exception W CiCompleted)
  pub record_completed : Option (CiCompleted → Exec Exception W (Unit {0}))

unfoldable pub orphan_summary : (String → String) → CiCompleted → String
orphan_summary quoted event =
    "No pull request context is linked to this CI run; workflow "
    ⋈ quoted event.workflow_name
    ⋈ " completed with "
    ⋈ event.conclusion
    ⋈ "."

abbrev pub pr_text : Option ℤ → String
pr_text none = "None"
pr_text (some n) = int_text n

unfoldable pub linked_summary : CiCompleted → String
linked_summary event =
    "CI completed with "
    ⋈ event.conclusion
    ⋈ " for PR #"
    ⋈ pr_text event.pr_number
    ⋈ " at "
    ⋈ event.commit_sha
    ⋈ "; failed jobs: "
    ⋈ (if is_nonempty event.failed_jobs
        then join ", " event.failed_jobs
        else "no failed jobs reported")
    ⋈ "."

abbrev pub ci_stages : List WorkflowStage
ci_stages = context ∷ triage ∷ []

abbrev pub orphan_result : (String → String) → CiCompleted → CiWorkflowResult
orphan_result quoted event = record {
  event = event;
  depth = orphan;
  summary = orphan_summary quoted event;
  stage_order = ci_stages;
  comment_payload = none;
}

abbrev pub linked_result : CiCompleted → CiWorkflowResult
linked_result event = record {
  event = event;
  depth = depth_for event;
  summary = linked_summary event;
  stage_order = ci_stages;
  comment_payload = none;
}

module _ {W : Type 0} (quoted : String → String) (parts : CiComponents W) where
  abbrev pub loaded :
      Option (CiCompleted → Exec Exception W CiCompleted)
      → CiCompleted
      → Exec Exception W CiCompleted
  loaded none event = pure event
  loaded (some load) event = load event

  abbrev pub recorded :
      Option (CiCompleted → Exec Exception W (Unit {0})) → CiCompleted → Exec Exception W (Unit {0})
  recorded none event = pure tt
  recorded (some record_completed) event = record_completed event

  unfoldable pub run_linked : CiCompleted → Exec Exception W CiWorkflowResult
  run_linked event = do
    enriched ← loaded parts.load event
    recorded parts.record_completed enriched
    pure (linked_result enriched)

  abbrev pub run_for : Option ℤ → CiCompleted → Exec Exception W CiWorkflowResult
  run_for none event = pure (orphan_result quoted event)
  run_for (some n) event = run_linked event

  unfoldable pub run : CiCompleted → Exec Exception W CiWorkflowResult
  run event = run_for event.pr_number event
