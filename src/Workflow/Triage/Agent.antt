-- ===== src/Workflow/Triage/Agent.antt =====
-- `AgentBackedPRWorkflowTriageClassifier` of src/runtime/orchestrator/pr_triage.py. `load_prompt`
-- gives the text of the triage prompt.
use Prim.Native.Char.{Char}
use qaestro.Prelude.{
  ℤ, pos, String, Bool, true, false, Option, none, some, [], map, Result, ok, err, Exception,
  if◌then◌else◌, ◌⋈◌, is_set, strip, text_or, text_take, strip_chars, is_among, spaces_for_newlines,
  sum_ℤ, ◌+ℤ◌, int_text,
}
use qaestro.Prelude.Exec.{Exec, lift, ◌>>=◌}
use qaestro.Contracts.{Float}
use qaestro.Json.{Json, str, int, obj, arr, Fields, field, end, items_of}
use qaestro.Tools.{triage}
use qaestro.Sessions.{
  stage, AgentSessionHandle, AgentRunInput, AgentRunResult, succeeded, run_status_value,
  AgentRunner, RunRequest,
}
use qaestro.Analyzer.{PrAnalysisContext, PrFileDiff, file_status_value}
use qaestro.Analyzer.Patch.{patch_of}
use qaestro.Workflow.Triage.{PrWorkflowTriage}
use qaestro.Workflow.Triage.Answer.{Python, triage_from_agent_output}

-- `[a-zA-Z0-9_.-]`
abbrev pub is_session_char : Char → Bool
is_session_char c = is_among c "abcdefghijklmnopqrstuvwxyzABCDEFGHIJKLMNOPQRSTUVWXYZ0123456789_.-"

-- `re.sub(r"[^a-zA-Z0-9_.-]+", "-", value)`; `inside` says that the last character was of a run.
unfoldable pub dashed : Bool → String → String
dashed inside String.[] = ""
dashed inside (String.◌∷◌ c s) =
    let kept = dashed false s in
    let run = dashed true s in
    if is_session_char c then String.◌∷◌ c kept else if inside then run else "-" ⋈ run

unfoldable pub safe_session_part : String → String
unfolding dashed
safe_session_part value = text_or (strip_chars "-" (dashed false value)) "repo"

unfoldable pub safe_error : Exception → String
safe_error e = text_or (text_take 160 (strip (spaces_for_newlines e.message))) e.class_name

unfoldable pub triage_session_handle : PrAnalysisContext → AgentSessionHandle
triage_session_handle c = record {
  session_id = "triage-" ⋈ safe_session_part c.repo_full_name ⋈ "-" ⋈ int_text c.pr_number;
  scope = stage;
  repo_full_name = c.repo_full_name;
  pr_number = c.pr_number;
  head_sha = "unknown";
  trigger = "triage";
  correlation_id = "triage-" ⋈ c.repo_full_name ⋈ "-" ⋈ int_text c.pr_number;
  provider_session_id = "";
}

abbrev pub patch_field : Option String → Fields
patch_field none = end
patch_field (some p) = field "patch_excerpt" (str (text_take 1200 p)) end

unfoldable pub file_summary : PrFileDiff → Json
file_summary file = obj (
    field "path" (str file.path) (
      field "status" (str (file_status_value file.status)) (
        field "additions" (int file.additions) (
          field "deletions" (int file.deletions) (
            if is_set file.previous_filename
            then field "previous_filename" (str file.previous_filename)
                (patch_field (patch_of file))
            else patch_field (patch_of file))))))

unfoldable pub agent_triage_context : PrAnalysisContext → Fields
unfolding file_summary
agent_triage_context c = field "repo_full_name" (str c.repo_full_name) (
    field "pr_number" (int c.pr_number) (
      field "title" (str c.title) (
        field "body" (str c.body) (
          field "base_branch" (str c.base_branch) (
            field "head_branch" (str c.head_branch) (
              field "changed_lines" (int (sum_ℤ (map (λ f. f.additions +ℤ f.deletions) c.files))) (
                field "files" (arr (items_of (map file_summary c.files)))
                  (field "unified_diff_excerpt" (str (text_take 8000 c.unified_diff)) end))))))))

unfoldable pub fallback_triage : PrWorkflowTriage → String → PrWorkflowTriage
fallback_triage fallback reason = record {
  depth = fallback.depth;
  rationale = "Agent triage unavailable (" ⋈ reason ⋈ "); fallback used: " ⋈ fallback.rationale;
  allowed_stages = fallback.allowed_stages;
}

-- The classifier's fields beside the runner.
pub record TriageClassifier : Type 0 where
  pub fallback : PrAnalysisContext → PrWorkflowTriage
  pub max_turns : ℤ
  pub timeout_seconds : Float

-- The triage by the answer of a turn that ended.
unfoldable pub triage_of_answer : Python → PrWorkflowTriage → String → PrWorkflowTriage
triage_of_answer python fallback output_text = elim (triage_from_agent_output python output_text) [
  | ok t ↦ t
  | err e ↦ fallback_triage fallback ("invalid_agent_output: " ⋈ safe_error e)
]

unfoldable pub triage_of_result : Python → PrWorkflowTriage → AgentRunResult → PrWorkflowTriage
unfolding triage_of_answer
triage_of_result python fallback result = elim result.status [
  | succeeded ↦ triage_of_answer python fallback result.output_text
  | status ↦ fallback_triage fallback ("agent_runner_status: " ⋈ run_status_value status)
]

unfoldable pub triage_of_turn :
    Python → PrWorkflowTriage → Result Exception AgentRunResult → PrWorkflowTriage
unfolding triage_of_result
triage_of_turn python fallback (ok result) = triage_of_result python fallback result
triage_of_turn python fallback (err e) =
    fallback_triage fallback ("agent_runner_exception: " ⋈ safe_error e)

unfoldable pub triage_run_input :
    TriageClassifier → PrAnalysisContext → AgentSessionHandle → String → AgentRunInput RunRequest
triage_run_input classifier c session prompt = record {
  stage = triage;
  rest = record {
    prompt = prompt;
    context = some (agent_triage_context c);
    allowed_tools = [];
    max_turns = some classifier.max_turns;
    max_tool_calls = some (pos 0);
    timeout_seconds = some classifier.timeout_seconds;
  };
  correlation_id = session.correlation_id;
  allowed_tool_names = [];
}

module _ {W : Type 0} (runner : AgentRunner RunRequest W)
    (load_prompt : Result Exception String) where
  -- The turn in a session, with the prompt that is read before it.
  unfoldable pub triage_turn :
      TriageClassifier → PrAnalysisContext → AgentSessionHandle → Exec Exception W AgentRunResult
  triage_turn classifier c session = do
    prompt ← lift load_prompt
    runner.run session (triage_run_input classifier c session prompt)

  abbrev pub after_start :
      TriageClassifier
      → PrAnalysisContext
      → Result Exception AgentSessionHandle
      → W
      → AgentSessionHandle × (Result Exception AgentRunResult × W)
  after_start classifier c (err e) w = (triage_session_handle c, (err e, w))
  after_start classifier c (ok session) w = (session, triage_turn classifier c session w)

  -- The `try` block: the session as far as it was set, and the result of the turn.
  unfoldable pub triage_attempt :
      TriageClassifier
      → PrAnalysisContext
      → W
      → AgentSessionHandle × (Result Exception AgentRunResult × W)
  triage_attempt classifier c w =
      let (started, w₁) = runner.start_session (triage_session_handle c) w in
      after_start classifier c started w₁

  -- Whatever the turn did, the session is closed, and what closing raises is dropped.
  unfoldable pub classify_by_agent :
      Python → TriageClassifier → PrAnalysisContext → W → PrWorkflowTriage × W
  unfolding triage_attempt triage_of_turn
  classify_by_agent python classifier c w =
      let (session, turn) = triage_attempt classifier c w in
      (
        triage_of_turn python (classifier.fallback c) turn.0,
        (runner.close_session session "triage stage complete" turn.1).1,
      )
