-- ===== src/Examples/Validator.antt =====
-- A validator with the default tool, whose executor passes every probe.
use qaestro.Prelude.{
  string_eq, replace_char, text_take, dashes_for_slashes, decimal, decimal_digits, int_text, ℕ, ◌+◌,
  pos, String, true, false, ◌≡◌, refl, some, List, [], ◌∷◌, ok, lookup, is_set, strip, insert,
}
use qaestro.Prelude.Exec.{Always}
use qaestro.Contracts.{
  event_type_value, StrategyAction, StrategyResult, verify_api_contract, custom, action_type_value,
  passed, skipped, Float, ValidationResult,
}
use qaestro.Sessions.{
  AgentRunner, RunRequest, SessionManager, AgentSessionRecord, is_active, workflow, completed,
  succeeded,
}
use qaestro.Sessions.Manager.{
  closed_record, fresh_record, session_id_text, start_workflow_session, new_session_id,
  close_pr_sessions, close_matching, close_loop, closes,
}
use qaestro.Sessions.Keys.{IsKeyed}
use qaestro.Validator.{Validator, ApiContractProbeResult}
use qaestro.Validator.Target.{has_complete_pr_event_context}
use qaestro.Validator.Run.{answer, run_action, run_actions, validate_for_event}
use qaestro.Validator.Default.{default_tool_adapter}
use qaestro.Validator.Probes.{Answers, validate_for_event-Answers}
use qaestro.Validator.Closing.{validate_for_event_closed}
use qaestro.Examples.{pr_at}

abbrev zero_time : Float
zero_time = record { numerator = pos 0; exponent = 0 }

abbrev runner : AgentRunner RunRequest ℕ
runner = record {
  start_session = λ h w. (ok h, w + 1);
  run = λ h x w. (
    ok (record {
      session = h;
      stage = x.stage;
      status = succeeded;
      output_text = "";
      error = "";
      allowed_tool_names = x.allowed_tool_names;
    }),
    w + 1,
  );
  close_session = λ h reason w. (ok tt, w + 1);
}

abbrev all_pass : ApiContractProbeResult
all_pass = record {
  outcome = passed;
  details = "200";
  duration_seconds = zero_time;
  artifacts = [];
}

abbrev validator : Validator ℕ
validator = record {
  runner = runner;
  tool_adapter = default_tool_adapter;
  execute = λ request w. (ok all_pass, w + 1);
  budget = record {
    max_turns = pos 2;
    max_tool_calls = pos 1;
    timeout_seconds = record { numerator = pos 30; exponent = 0 };
  };
  quoted = λ s. s;
  is_timeout = λ e. false;
  monotonic = λ w. (zero_time, w);
  minus = λ a b. zero_time;
  prompt_dir = "catalog";
  read_text = λ path. some "Probe {target}.";
}

abbrev probe_of : String → StrategyAction
probe_of target = record {
  action_type = verify_api_contract;
  description = "";
  target = target;
  priority = pos 3;
  rationale = "";
}

abbrev planned : StrategyResult
planned = record {
  actions = probe_of "get /users" ∷ probe_of "DELETE /users" ∷ [];
  reasoning = "";
  confidence = record { numerator = pos 1; exponent = 1 };
  knowledge_refs = [];
}

abbrev started : SessionManager ℕ
started = record { records = []; next_id = 1; world = 0 }

validate_for_event-Answers_example :
    Always (Answers planned.actions) (validate_for_event validator (pr_at "e1" "aaa") planned)
validate_for_event-Answers_example = validate_for_event-Answers validator (pr_at "e1" "aaa") planned

-- An action that the validator does not know.
abbrev unsupported : StrategyAction
unsupported = record (probe_of "") { action_type = custom }

abbrev one_action : StrategyResult
one_action = record planned { actions = unsupported ∷ [] }

abbrev results : List ValidationResult
results = answer skipped unsupported "unsupported validation action: custom" ∷ []

abbrev ended : SessionManager ℕ
ended = (validate_for_event validator (pr_at "e1" "aaa") one_action started).1

validation_runs :
    validate_for_event validator (pr_at "e1" "aaa") one_action started ≡ (ok results, ended)
unfolding validate_for_event has_complete_pr_event_context is_set strip start_workflow_session
    new_session_id close_pr_sessions close_matching close_loop run_actions run_action insert closes
    action_type_value
validation_runs = refl

started-IsKeyed : IsKeyed started.records
unfolding lookup
started-IsKeyed = (tt, tt)

context_complete : has_complete_pr_event_context (pr_at "e1" "aaa") ≡ true
unfolding has_complete_pr_event_context is_set strip
context_complete = refl

abbrev closed_session : AgentSessionRecord
closed_session = closed_record completed "validation stage complete" (
    fresh_record (record {
      session_id = "review-o-r-7-aaa-1";
      scope = workflow;
      repo_full_name = "o/r";
      pr_number = pos 7;
      head_sha = "aaa";
      trigger = "pr_opened";
      correlation_id = "c1";
      provider_session_id = "";
    }))

session_found : lookup "review-o-r-7-aaa-1" ended.records ≡ some closed_session
unfolding validate_for_event has_complete_pr_event_context is_set strip start_workflow_session
    new_session_id close_pr_sessions close_matching close_loop run_actions run_action insert closes
    action_type_value lookup event_type_value session_id_text text_take dashes_for_slashes decimal
    decimal_digits int_text replace_char
session_found = refl

validate_for_event_closed_example : is_active closed_session ≡ false
validate_for_event_closed_example =
    validate_for_event_closed validator (pr_at "e1" "aaa") one_action started started-IsKeyed
      context_complete validation_runs "review-o-r-7-aaa-1" closed_session session_found refl refl
