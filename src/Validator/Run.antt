-- ===== src/Validator/Run.antt =====
-- `AgentRuntimePRValidator` of src/runtime/validator/agent_runtime.py.
use qaestro.Prelude.{
  pos, int_eq, ◌==◌, String, Bool, true, false, not, Option, none, some, List, [], ◌∷◌, map, Result,
  ok, err, Exception, if◌then◌else◌, ◌⋈◌, is_set,
}
use qaestro.Prelude.Exec.{Exec, pure, ◌>>=◌}
use qaestro.Contracts.{
  PrEvent, Float, StrategyAction, StrategyResult, ActionType, verify_api_contract,
  action_type_value, ValidationOutcome, error, skipped, ValidationResult, event_type_value,
}
use qaestro.Json.{Fields, field, end, str, int}
use qaestro.Tools.{validator}
use qaestro.Tools.Policy.{Denial}
use qaestro.Tools.Adapter.{AgentFrameworkToolSpec, tool_exposure_for_stage, tool_specs_for_stage}
use qaestro.Sessions.{
  AgentSessionHandle, AgentSessionRecord, AgentRunInput, AgentRunResult, AgentRunStatus, succeeded,
  RunRequest, SessionError, not_found, not_active, runner_error, SessionManager,
}
use qaestro.Sessions.Manager.{start_workflow_session, run_stage, close_pr_sessions}
use qaestro.Prompts.{validation_api_contract_probe_selection, render_prompt}
use qaestro.Validator.{Validator, ApiContractProbeRequest, ApiContractProbeResult}
use qaestro.Validator.Target.{
  probe_name, api_contract_probe_request, target_policy_denial, find_tool_exposure,
  probe_policy_denial, has_complete_pr_event_context,
}
use qaestro.Validator.Details.{
  sanitize_pr_facing_details, probe_error_details, agent_runner_error_details,
  agent_runner_status_details,
}

abbrev pub no_time : Float
no_time = record { numerator = pos 0; exponent = 0 }

-- `ValidationResult(action=..., outcome=..., details=...)`
abbrev pub answer : ValidationOutcome → StrategyAction → String → ValidationResult
answer outcome action details = record {
  action = action;
  outcome = outcome;
  details = details;
  duration_seconds = no_time;
  artifacts = [];
  locations = [];
}

-- `validate`
unfoldable pub validate : StrategyResult → List ValidationResult
validate s =
    map
      (λ action.
        answer error action "PR event context is required before Agent Runtime validation can run.")
      s.actions

abbrev pub is_api_contract : ActionType → Bool
is_api_contract verify_api_contract = true
is_api_contract _ = false

-- The exception that a session error is, with its class.
abbrev pub session_exception : (String → String) → SessionError → Exception
session_exception quoted (not_found id) = record {
  class_name = "AgentSessionNotFoundError";
  message = "agent session " ⋈ quoted id ⋈ " was not found";
}
session_exception quoted (not_active id) = record {
  class_name = "AgentSessionNotFoundError";
  message = "agent session " ⋈ quoted id ⋈ " is not active";
}
session_exception quoted (runner_error e) = e

-- What the run of a probe shows; `elapsed` is the time that it took.
unfoldable pub probed :
    (Exception → Bool)
    → StrategyAction
    → Float
    → Result Exception ApiContractProbeResult
    → ValidationResult
probed is_timeout action elapsed (err e) =
    record (answer error action
      (probe_error_details (if is_timeout e then "timeout" else "exception") e.class_name)) {
        duration_seconds = elapsed;
      }
probed is_timeout action elapsed (ok result) = record {
  action = action;
  outcome = result.outcome;
  details = sanitize_pr_facing_details result.details;
  duration_seconds =
      if result.duration_seconds.numerator == pos 0 then elapsed else result.duration_seconds;
  artifacts = result.artifacts;
  locations = [];
}

module _ {W : Type 0} (v : Validator W) where
  abbrev pub Validation : Type 0
  Validation = Exec Exception (SessionManager W) ValidationResult

  -- `_run_api_contract_probe`
  unfoldable pub run_api_contract_probe : StrategyAction → ApiContractProbeRequest → Validation
  unfolding probed
  run_api_contract_probe action request m =
      let (start, w₁) = v.monotonic m.world in
      let (r, w₂) = v.execute request w₁ in
      let (now, w₃) = v.monotonic w₂ in
      (ok (probed v.is_timeout action (v.minus now start) r), record m { world = w₃ })

  -- `_validation_prompt`
  unfoldable pub validation_prompt : StrategyAction → Result Exception String
  validation_prompt action =
      render_prompt v.prompt_dir v.read_text validation_api_contract_probe_selection (
        ("action_type", action_type_value action.action_type)
        ∷ ("target", action.target)
        ∷ ("description", action.description)
        ∷ ("rationale", action.rationale)
        ∷ [])

  abbrev pub selection_context : PrEvent → StrategyAction → Fields
  selection_context event action = field "repo_full_name" (str event.repo_full_name) (
      field "pr_number" (int event.pr_number) (
        field "head_sha" (str event.head_sha) (
          field "action_type" (str (action_type_value action.action_type))
            (field "target" (str action.target) end))))

  unfoldable pub selection_input : PrEvent → StrategyAction → String → AgentRunInput RunRequest
  selection_input event action prompt =
      let specs = tool_specs_for_stage v.tool_adapter validator in
      record {
        stage = validator;
        rest = record {
          prompt = prompt;
          context = some (selection_context event action);
          allowed_tools = specs;
          max_turns = some v.budget.max_turns;
          max_tool_calls = some v.budget.max_tool_calls;
          timeout_seconds = some v.budget.timeout_seconds;
        };
        correlation_id = event.meta.correlation_id;
        allowed_tool_names = map (λ s. s.name) specs;
      }

  abbrev pub after_status : StrategyAction → ApiContractProbeRequest → AgentRunStatus → Validation
  after_status action request succeeded = run_api_contract_probe action request
  after_status action request status =
      pure (answer error action (agent_runner_status_details status))

  -- What follows the agent's turn, whose exceptions are caught.
  abbrev pub after_selection :
      StrategyAction → ApiContractProbeRequest → Result SessionError AgentRunResult → Validation
  after_selection action request (ok result) = after_status action request result.status
  after_selection action request (err e) = pure (
      answer error action (
        agent_runner_error_details "agent_runner_exception"
          (session_exception v.quoted e).class_name))

  abbrev pub select :
      PrEvent
      → StrategyAction
      → AgentSessionHandle
      → ApiContractProbeRequest
      → Result Exception String
      → Validation
  select event action handle request (err e) m = (err e, m)
  select event action handle request (ok prompt) m =
      let (r, m₁) = run_stage v.runner handle (selection_input event action prompt) m in
      after_selection action request r m₁

  -- `_run_agent_selection` and what follows it.
  unfoldable pub run_selected :
      PrEvent → StrategyAction → AgentSessionHandle → ApiContractProbeRequest → Validation
  run_selected event action handle request =
      select event action handle request (validation_prompt action)

  abbrev pub run_exposed :
      PrEvent
      → StrategyAction
      → AgentSessionHandle
      → ApiContractProbeRequest
      → Option (AgentFrameworkToolSpec × Option Denial)
      → Validation
  run_exposed event action handle request none =
      pure (answer error action (probe_name ⋈ " is not allowed during validator stage."))
  run_exposed event action handle request (some (spec, reason)) =
      let denial = probe_policy_denial v.quoted spec reason in
      if is_set denial
      then pure (answer skipped action denial)
      else run_selected event action handle request

  abbrev pub run_request :
      PrEvent → StrategyAction → AgentSessionHandle → Option ApiContractProbeRequest → Validation
  run_request event action handle none = pure (
      answer skipped action (
        "invalid_target: API contract target must be '<METHOD> /path'; got "
        ⋈ v.quoted action.target
        ⋈ "."))
  run_request event action handle (some request) =
      let denial = target_policy_denial request in
      if is_set denial
      then pure (answer skipped action denial)
      else run_exposed event action handle request
          (find_tool_exposure probe_name (tool_exposure_for_stage v.tool_adapter validator))

  -- `_run_action`
  unfoldable pub run_action : PrEvent → StrategyAction → AgentSessionHandle → Validation
  run_action event action handle =
      if not (is_api_contract action.action_type)
      then pure (
          answer skipped action
            ("unsupported validation action: " ⋈ action_type_value action.action_type))
      else run_request event action handle
          (api_contract_probe_request event action v.budget.timeout_seconds)

  unfoldable pub run_actions :
      PrEvent
      → AgentSessionHandle
      → List StrategyAction
      → Exec Exception (SessionManager W) (List ValidationResult)
  run_actions event handle [] = pure []
  run_actions event handle (action ∷ actions) = do
    r ← run_action event action handle
    rs ← run_actions event handle actions
    pure (r ∷ rs)

  -- `finally`: an exception of closing takes the place of what the block did.
  abbrev pub finally :
      {A B : Type 0} → Result Exception A → Result SessionError B → Result Exception A
  finally r (ok closed) = r
  finally r (err e) = err (session_exception v.quoted e)

  abbrev pub after_start :
      PrEvent
      → StrategyResult
      → Result SessionError AgentSessionRecord
      → Exec Exception (SessionManager W) (List ValidationResult)
  after_start event s (err e) m = (err (session_exception v.quoted e), m)
  after_start event s (ok session) m =
      let (results, m₁) = run_actions event session.handle s.actions m in
      let (closed, m₂) =
        close_pr_sessions v.runner event.repo_full_name event.pr_number "validation stage complete"
          m₁ in
      (finally results closed, m₂)

  unfoldable pub validate_for_event :
      PrEvent → StrategyResult → Exec Exception (SessionManager W) (List ValidationResult)
  validate_for_event event s =
      if not (has_complete_pr_event_context event)
      then pure (
          map
            (λ action.
              answer error action
                "complete PR event context is required before API contract probes can run.")
            s.actions)
      else λ m.
          let (started, m₁) =
            start_workflow_session v.runner event.repo_full_name event.pr_number event.head_sha
              (event_type_value event.meta.event_type) event.meta.correlation_id m in
          after_start event s started m₁
