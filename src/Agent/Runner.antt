-- ===== src/Agent/Runner.antt =====
-- The runner over a chat client, which azure_openai.py and openai_compatible.py of src/runtime/agent
-- write alike, and the fake runner of fake.py.
use qaestro.Prelude.{
  ℤ, zero, String, Option, none, some, List, [], ◌∷◌, ◌++◌, Result, ok, err, Exception,
  if◌then◌else◌, is_set, replace_from,
}
use qaestro.Prelude.Exec.{Exec, pure}
use qaestro.Contracts.{Float}
use qaestro.Json.{Json, bool, int, float, str, arr, Items, nil, cons, Fields, field, end}
use qaestro.Tools.{stage_value}
use qaestro.Sessions.{
  AgentSessionHandle, AgentRunInput, RunRequest, succeeded, failed, AgentRunResult, AgentRunner,
}
use qaestro.Config.{AgentRuntimeConfig}

pub record ClientResponse : Type 0 where
  pub output_text : String
  pub error : String

abbrev pub ChatClient : Type 0 → Type 0
ChatClient W = Fields → Exec Exception W ClientResponse

-- `_redact_secret`
unfoldable pub redact_secret : String → String → String
redact_secret value secret =
    if is_set secret then replace_from zero secret "<redacted>" value else value

-- `env.get(config.credential_env_var, "")`
abbrev pub credential_of : AgentRuntimeConfig → (String → Option String) → String
credential_of config environ = elim (environ config.credential_env_var) [
  | none ↦ ""
  | some text ↦ text
]

abbrev pub int_or : ℤ → Option ℤ → Json
int_or n none = int n
int_or n (some m) = int m

abbrev pub seconds_or : Json → Option Float → Json
seconds_or x none = x
seconds_or x (some t) = float t.numerator t.exponent

abbrev pub name_items : List String → Items
name_items [] = nil
name_items (s ∷ ss) = cons (str s) (name_items ss)

-- The fields that both requests end with.
abbrev pub run_fields : AgentRuntimeConfig → AgentRunInput RunRequest → String → Fields
run_fields config input credential = field "prompt" (str input.rest.prompt) (
    field "stage" (str (stage_value input.stage)) (
      field "correlation_id" (str input.correlation_id) (
        field "timeout_seconds" (seconds_or config.timeout_seconds input.rest.timeout_seconds) (
          field "max_turns" (int_or config.max_turns input.rest.max_turns) (
            field "max_tool_calls" (int_or config.max_tool_calls input.rest.max_tool_calls) (
              field "temperature" config.temperature (
                field "tool_names" (arr (name_items input.allowed_tool_names))
                  (field "credential_present" (bool (is_set credential)) end))))))))

-- `_request_for` of azure_openai.py.
unfoldable pub azure_request : AgentRuntimeConfig → AgentRunInput RunRequest → String → Fields
azure_request config input credential = field "endpoint" (str config.endpoint) (
    field "deployment" (str config.deployment) (
      field "model" (str config.model)
        (field "api_version" (str config.api_version) (run_fields config input credential))))

-- `OpenAICompatibleAgentRunner._request_for`
unfoldable pub compatible_request : AgentRuntimeConfig → AgentRunInput RunRequest → String → Fields
compatible_request config input credential =
    field "base_url" (str config.base_url)
      (field "model" (str config.model) (run_fields config input credential))

module _ (session : AgentSessionHandle) (input : AgentRunInput RunRequest) where
  abbrev pub run_failed : String → AgentRunResult
  run_failed error = record {
    session = session;
    stage = input.stage;
    status = failed;
    output_text = "";
    error = error;
    allowed_tool_names = input.allowed_tool_names;
  }

  abbrev pub run_succeeded : String → AgentRunResult
  run_succeeded output_text = record {
    session = session;
    stage = input.stage;
    status = succeeded;
    output_text = output_text;
    error = "";
    allowed_tool_names = input.allowed_tool_names;
  }

  unfoldable pub result_of : String → Result Exception ClientResponse → AgentRunResult
  result_of credential (err e) = run_failed (redact_secret e.message credential)
  result_of credential (ok r) =
      if is_set r.error
      then run_failed (redact_secret r.error credential)
      else run_succeeded r.output_text

module _ {W : Type 0} where
  unfoldable pub chat_runner :
      (AgentRunInput RunRequest → Fields) → ChatClient W → String → AgentRunner RunRequest W
  unfolding result_of
  chat_runner request_for complete credential = record {
    start_session = λ handle. pure handle;
    run = λ session input w.
        let (r, w') = complete (request_for input) w in
        (ok (result_of session input credential r), w');
    close_session = λ handle reason. pure tt;
  }

  -- `AzureOpenAIAgentRunner`
  unfoldable pub azure_runner :
      AgentRuntimeConfig → ChatClient W → String → AgentRunner RunRequest W
  azure_runner config client credential =
      chat_runner (λ input. azure_request config input credential) client credential

  -- `OpenAICompatibleAgentRunner`
  unfoldable pub compatible_runner :
      AgentRuntimeConfig → ChatClient W → String → AgentRunner RunRequest W
  compatible_runner config client credential =
      chat_runner (λ input. compatible_request config input credential) client credential

-- What a fake runner has recorded.
pub record FakeLog : Type 0 where
  pub started_sessions : List AgentSessionHandle
  pub closed_sessions : List (String × String)
  pub run_inputs : List (AgentRunInput RunRequest)

-- `FakeAgentRunner`
unfoldable pub fake_runner : String → AgentRunner RunRequest FakeLog
fake_runner response = record {
  start_session = λ handle log.
      (ok handle, record log { started_sessions = log.started_sessions ++ handle ∷ [] });
  run = λ session input log. (
    ok (run_succeeded session input response),
    record log { run_inputs = log.run_inputs ++ input ∷ [] },
  );
  close_session = λ handle reason log. (
    ok tt,
    record log { closed_sessions = log.closed_sessions ++ (handle.session_id, reason) ∷ [] },
  );
}
