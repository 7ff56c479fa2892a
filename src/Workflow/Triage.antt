-- ===== src/Workflow/Triage.antt =====
-- Workflow depths and the triage record (src/runtime/orchestrator/pr_triage.py).
pub mod Answer
pub mod Agent
pub mod Stages
pub mod Session
use qaestro.Prelude.{
  String, Bool, true, false, not, Option, none, some, List, [], ◌∷◌, contains, if◌then◌else◌, ◌==◌,
  string_eq,
}
use qaestro.Tools.{
  WorkflowStage, context, triage, analyzer, strategy, validator, renderer, output, stage_eq,
}
use qaestro.Analyzer.{PrAnalysisContext}

pub data PrWorkflowDepth : Type 0 where
  noop lightweight normal deep : PrWorkflowDepth

-- `PRWorkflowDepth.value`
unfoldable pub depth_value : PrWorkflowDepth → String
depth_value noop = "noop"
depth_value lightweight = "lightweight"
depth_value normal = "normal"
depth_value deep = "deep"

-- `PRWorkflowDepth(text)`; `none` is the ValueError.
unfoldable pub depth_of : String → Option PrWorkflowDepth
depth_of text =
    if text == "noop"
    then some noop
    else if text == "lightweight"
    then some lightweight
    else if text == "normal"
    then some normal
    else if text == "deep"
    then some deep
    else none

abbrev pub is_noop : PrWorkflowDepth → Bool
is_noop noop = true
is_noop lightweight = false
is_noop normal = false
is_noop deep = false

abbrev pub is_deep : PrWorkflowDepth → Bool
is_deep deep = true
is_deep noop = false
is_deep lightweight = false
is_deep normal = false

-- `WorkflowStage(text)`; `none` is the ValueError.
unfoldable pub stage_of : String → Option WorkflowStage
stage_of text =
    if text == "context"
    then some context
    else if text == "triage"
    then some triage
    else if text == "analyzer"
    then some analyzer
    else if text == "strategy"
    then some strategy
    else if text == "validator"
    then some validator
    else if text == "renderer"
    then some renderer
    else if text == "output"
    then some output
    else none

pub record PrWorkflowTriage : Type 0 where
  pub depth : PrWorkflowDepth
  pub rationale : String
  pub allowed_stages : List WorkflowStage

unfoldable pub runs_analysis : PrWorkflowTriage → Bool
runs_analysis t = contains t.allowed_stages analyzer

unfoldable pub runs_strategy : PrWorkflowTriage → Bool
runs_strategy t = contains t.allowed_stages strategy

unfoldable pub allows_validation : PrWorkflowTriage → Bool
allows_validation t = contains t.allowed_stages validator

-- `depth is not NOOP`
unfoldable pub renders_output : PrWorkflowTriage → Bool
renders_output t = not (is_noop t.depth)

abbrev pub full_stages : List WorkflowStage
full_stages = analyzer ∷ strategy ∷ validator ∷ []

-- `RuleBasedPRWorkflowTriageClassifier.classify`
unfoldable pub classify_by_rule : PrAnalysisContext → PrWorkflowTriage
classify_by_rule pr_context = record {
  depth = normal;
  rationale =
      "Conservative default PR workflow depth; run behaviour analysis and strategy planning.";
  allowed_stages = full_stages;
}
