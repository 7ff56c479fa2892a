-- ===== src/Strategy/Engine.antt =====
-- `EvidenceBackedPRStrategyEngine` of src/core/strategy/rules.py. The knowledge base, which has an
-- interface of its own, is its method `search`.
use qaestro.Prelude.{
  ℤ, pos, String, Bool, not, ◌&&◌, ◌||◌, Option, none, some, List, [], ◌∷◌, ◌++◌, map,
  if◌then◌else◌, ◌==◌, string_eq, filter, is_nonempty, lower, strip, join, text_or, ◌⋈◌,
}
use qaestro.Contracts.{
  BehaviourImpact, CiFeedbackContext, CiHistoricalEvidence, CiObservation, StrategyAction,
  StrategyResult, ImpactArea, custom,
}
use qaestro.Strategy.{KnowledgeEntry, KnowledgeQuery}

abbrev pub conclusion_of : CiObservation → String
conclusion_of o = lower (strip o.conclusion)

-- The conclusions that ask for a look with priority.
unfoldable pub is_urgent : String → Bool
is_urgent conclusion =
    conclusion == "failure"
    || conclusion == "timed_out"
    || conclusion == "action_required"
    || conclusion == "startup_failure"

unfoldable pub is_failing : String → Bool
is_failing conclusion = is_urgent conclusion || conclusion == "cancelled"

unfoldable pub ci_job_action : CiObservation → String → StrategyAction
ci_job_action observation job = record {
  action_type = custom;
  description =
      "Prioritize failed CI job '" ⋈ job ⋈ "' from workflow '" ⋈ observation.workflow_name ⋈ "'";
  target = "ci:" ⋈ observation.workflow_name ⋈ "/" ⋈ job;
  priority = pos 5;
  rationale = "Current-head failed job is observed evidence and should drive validation priority.";
}

unfoldable pub ci_workflow_action : CiObservation → StrategyAction
ci_workflow_action observation = record {
  action_type = custom;
  description = "Review current-head CI workflow '" ⋈ observation.workflow_name ⋈ "' result";
  target = "ci:" ⋈ observation.workflow_name;
  priority = if is_urgent (conclusion_of observation) then pos 4 else pos 3;
  rationale = "Current-head CI workflow concluded " ⋈ conclusion_of observation ⋈ ".";
}

-- What an observation adds to the actions.
unfoldable pub actions_of : CiObservation → List StrategyAction
actions_of o =
    if is_failing (conclusion_of o)
    then ci_workflow_action o ∷ map (ci_job_action o) o.failed_jobs
    else []

unfoldable pub actions_of_all : List CiObservation → List StrategyAction
unfolding actions_of
actions_of_all [] = []
actions_of_all (o ∷ os) = actions_of o ++ actions_of_all os

unfoldable pub ci_feedback_actions : Option CiFeedbackContext → List StrategyAction
unfolding actions_of_all
ci_feedback_actions none = []
ci_feedback_actions (some ci_feedback) = actions_of_all ci_feedback.current_observations

unfoldable pub observation_summary : CiObservation → String
observation_summary o =
    o.workflow_name
    ⋈ "="
    ⋈ conclusion_of o
    ⋈ (if is_nonempty o.failed_jobs then " (failed jobs: " ⋈ join ", " o.failed_jobs ⋈ ")" else "")

unfoldable pub historical_summary : CiHistoricalEvidence → String
historical_summary e = e.head_sha ⋈ ": " ⋈ join ", " (map observation_summary e.observations)

-- The segment of a list, where it is not empty.
abbrev pub segment : {A : Type 0} → List A → String → List String
segment xs text = if is_nonempty xs then text ∷ [] else []

abbrev pub is_superseded_evidence : String → CiHistoricalEvidence → Bool
is_superseded_evidence current_head_sha e =
    not (e.head_sha == current_head_sha) && is_nonempty e.observations

unfoldable pub ci_reasoning : CiFeedbackContext → String
unfolding observation_summary historical_summary
ci_reasoning ci =
    let historical = filter (is_superseded_evidence ci.current_head_sha) ci.historical_evidence in
    join " " (
      ("source of truth: " ⋈ ci.current_head_sha ⋈ ".")
        ∷ segment ci.current_observations (
            "current-head CI/check feedback: "
            ⋈ join "; " (map observation_summary ci.current_observations)
            ⋈ ".")
      ++ segment ci.pending_checks ("pending checks: " ⋈ join ", " ci.pending_checks ⋈ ".")
      ++ segment historical (
          "historical CI evidence on superseded heads: "
          ⋈ join "; " (map historical_summary historical)
          ⋈ "."))

abbrev pub ci_segments : Option CiFeedbackContext → List String
ci_segments none = []
ci_segments (some ci) = ci_reasoning ci ∷ []

unfoldable pub reasoning_of :
    BehaviourImpact → List KnowledgeEntry → Option CiFeedbackContext → String
unfolding ci_reasoning
reasoning_of impact matches ci_feedback = join " " (
    "Uncalibrated strategy context only; path groups and knowledge token matches are not executable recommendations."
      ∷ ("Observed path groups: "
          ⋈ text_or (join ", " (map (λ a. a.module_name) impact.areas)) "none"
          ⋈ ".")
      ∷ segment matches ("Knowledge refs: " ⋈ join ", " (map (λ e. e.key) matches) ⋈ ".")
    ++ ci_segments ci_feedback)

abbrev pub files_of_areas : List ImpactArea → List String
files_of_areas [] = []
files_of_areas (area ∷ areas) = area.affected_files ++ files_of_areas areas

-- `_query_text_from_title_and_impact`
unfoldable pub query_text_of : String → BehaviourImpact → String
query_text_of title impact = join " " (
    title
    ∷ impact.summary
    ∷ join " " (map (λ a. a.module_name) impact.areas)
    ∷ join " " (files_of_areas impact.areas)
    ∷ [])

unfoldable pub plan :
    (KnowledgeQuery → List KnowledgeEntry)
    → String
    → ℤ
    → String
    → BehaviourImpact
    → Option CiFeedbackContext
    → StrategyResult
unfolding reasoning_of query_text_of ci_feedback_actions
plan search repo_full_name pr_number title impact ci_feedback =
    let matches =
      search
        (record { repo_full_name = repo_full_name; query_text = query_text_of title impact }) in
    record {
      actions = ci_feedback_actions ci_feedback;
      reasoning = reasoning_of impact matches ci_feedback;
      confidence = record { numerator = pos 0; exponent = 0 };
      knowledge_refs = map (λ e. e.key) matches;
    }
