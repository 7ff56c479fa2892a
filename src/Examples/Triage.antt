-- ===== src/Examples/Triage.antt =====
-- A runner whose world is the ids of the sessions that it started, and an agent that answers.
use qaestro.Prelude.{pos, String, ◌≡◌, refl, List, [], ◌∷◌, ok, Exception, string_eq}
use qaestro.Json.{null}
use qaestro.Sessions.{
  AgentSessionHandle, AgentRunInput, AgentRunResult, AgentRunner, RunRequest, succeeded,
}
use qaestro.Analyzer.{PrAnalysisContext}
use qaestro.Workflow.Triage.{classify_by_rule}
use qaestro.Workflow.Triage.Answer.{Python, is_allowable}
use qaestro.Workflow.Triage.Agent.{TriageClassifier, triage_session_handle, classify_by_agent}
use qaestro.Workflow.Triage.Stages.{IsAllowed, classify_by_agent-AllowsOnly}
use qaestro.Workflow.Triage.Session.{watched, started, ran, closed, classify_by_agent_calls}

abbrev python : Python
python = record { loads = λ s. ok null; str_of = λ value. "None"; repr = λ value. "None" }

abbrev refused : Exception
refused = record { class_name = "RuntimeError"; message = "session is open" }

abbrev answer_of : AgentSessionHandle → AgentRunInput RunRequest → AgentRunResult
answer_of h x = record {
  session = h;
  stage = x.stage;
  status = succeeded;
  output_text = "null";
  error = "";
  allowed_tool_names = x.allowed_tool_names;
}

abbrev runner : AgentRunner RunRequest (List String)
runner = record {
  start_session = λ h w. (ok h, h.session_id ∷ w);
  run = λ h x w. (ok (answer_of h x), w);
  close_session = λ h reason w. (ok tt, w);
}

abbrev classifier : TriageClassifier
classifier = record {
  fallback = classify_by_rule;
  max_turns = pos 3;
  timeout_seconds = record { numerator = pos 30; exponent = 0 };
}

abbrev pub pr_context : PrAnalysisContext
pr_context = record {
  repo_full_name = "o/r";
  pr_number = pos 7;
  title = "Add a cache";
  body = "";
  base_branch = "main";
  head_branch = "cache";
  files = [];
  unified_diff = "";
}

fallback-IsAllowed : IsAllowed (classifier.fallback pr_context).allowed_stages
unfolding classify_by_rule is_allowable
fallback-IsAllowed = ((refl, (refl, (refl, tt))), (refl, (refl, (refl, tt))))

classify_by_agent-AllowsOnly_example :
    IsAllowed
      (classify_by_agent runner (ok "Triage") python classifier pr_context []).0.allowed_stages
classify_by_agent-AllowsOnly_example =
    classify_by_agent-AllowsOnly runner (ok "Triage") python classifier pr_context []
      fallback-IsAllowed

classify_by_agent_calls_example :
    classify_by_agent
      (watched runner)
      (ok "Triage")
      python
      classifier
      pr_context
      (record { calls = []; world = "a" ∷ [] })
    ≡ (let (t, world) =
          classify_by_agent runner (ok "Triage") python classifier pr_context ("a" ∷ []) in
        (
          t,
          record {
            calls =
                closed (triage_session_handle pr_context) "triage stage complete"
                ∷ ran (triage_session_handle pr_context)
                ∷ started (triage_session_handle pr_context)
                ∷ [];
            world = world;
          },
        ))
classify_by_agent_calls_example =
    classify_by_agent_calls runner (ok "Triage") python classifier pr_context [] ("a" ∷ [])
