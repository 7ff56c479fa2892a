-- ===== src/Examples/Agent.antt =====
-- Settings in an environment, and the runner that they stand for.
use qaestro.Prelude.{
  ℕ, zero, suc, pos, String, ◌≡◌, ◌↔◌, refl, true, false, Option, none, some, [], ok, err, ◌==◌,
  string_eq, if◌then◌else◌, is_set, occurs, int_text, decimal, decimal_digits, text_take,
  rstrip_chars,
}
use qaestro.Tools.{validator}
use qaestro.Sessions.{
  AgentSessionHandle, stage, AgentRunInput, RunRequest, AgentRunResult, AgentRunner,
}
use qaestro.Config.{
  Readings, AgentRuntimeConfig, AppConfig, azure_openai, default_agent_runtime, default_config,
}
use qaestro.Config.Load.{load_config}
use qaestro.Config.Readable.{AllReadable, load_config_iff}
use qaestro.Agent.Health.{
  HealthResult, degraded, check_agent_runtime_health, provider_config_errors, capability_errors,
  has_degradation_warning, capability_warnings,
}
use qaestro.Agent.Ready.{check_agent_runtime_health-status_of}
use qaestro.Agent.Runner.{ChatClient, azure_runner}
use qaestro.Agent.Build.{AgentWorld, runner_in_world, build_agent_runner}
use qaestro.GitHub.Auth.{AppAuth, make_auth}
use qaestro.GitHub.Client.{ClientConfig, make_config}
use qaestro.Worker.Parts.{
  WorkerParts, make_worker, make_event_orchestrator, make_pr_orchestrator,
  build_github_tool_runtime, noop_output_poster, tool_runtime_pr_output_poster,
  tool_runtime_pr_context_provider, agent_backed_triage, agent_runtime_validator, ToolRuntimeParts,
}
use qaestro.Tools.WorkerPolicy.{github_pr_tools, worker_policy}
use qaestro.Worker.Factory.{build_github_client, build_worker, IsWired, build_worker-IsWired}
use qaestro.Agent.Build.Answers.{IsAnswer, build_agent_runner-IsAnswer}

abbrev readings : Readings
readings = record {
  int_of_text = λ s. if s == "8080" then some (pos 8080) else none;
  float_of_text = λ s. none;
  repr = λ s. s;
}

-- A port, and a credential.
abbrev environ : String → Option String
environ key =
    if key == "QAESTRO_GATEWAY_PORT"
    then some "8080"
    else if key == "KEY"
    then some "secret"
    else none

load_config_iff_example :
    ((c : AppConfig) × (load_config readings environ ≡ ok c)) ↔ AllReadable readings environ
load_config_iff_example = load_config_iff readings environ

abbrev azure : AgentRuntimeConfig
azure = record default_agent_runtime {
  provider = azure_openai;
  endpoint = "https://r.openai.azure.com/openai/v1";
  deployment = "gpt";
  api_version = "v1";
  credential_env_var = "KEY";
  supports_tool_calling = true;
  supports_structured_output = true;
  context_window_tokens = pos 16000;
}

check_agent_runtime_health-status_of_example :
    HealthResult.status (check_agent_runtime_health azure environ false) ≡ degraded
unfolding is_set
check_agent_runtime_health-status_of_example =
    check_agent_runtime_health-status_of azure environ false

-- A client that fails every second time.
abbrev client : ChatClient ℕ
client request zero = (ok (record { output_text = "hello"; error = "" }), 1)
client request (suc n) = (err (record { class_name = "TimeoutError"; message = "timed out" }), n)

abbrev runner : AgentRunner RunRequest (AgentWorld ℕ)
runner = runner_in_world (azure_runner azure client "secret")

built : build_agent_runner (λ credential. client) azure environ none none ≡ ok runner
unfolding build_agent_runner check_agent_runtime_health provider_config_errors capability_errors
    is_set has_degradation_warning capability_warnings occurs int_text decimal decimal_digits
    text_take
built = refl

abbrev session : AgentSessionHandle
session = record {
  session_id = "s1";
  scope = stage;
  repo_full_name = "o/r";
  pr_number = pos 7;
  head_sha = "aaa";
  trigger = "";
  correlation_id = "c1";
  provider_session_id = "";
}

abbrev input : AgentRunInput RunRequest
input = record {
  stage = validator;
  rest = record {
    prompt = "probe";
    context = none;
    allowed_tools = [];
    max_turns = none;
    max_tool_calls = none;
    timeout_seconds = none;
  };
  correlation_id = "c1";
  allowed_tool_names = [];
}

abbrev state : AgentWorld ℕ
state = record {
  log = record { started_sessions = []; closed_sessions = []; run_inputs = [] };
  world = 1;
}

build_agent_runner-IsAnswer_example :
    (result : AgentRunResult) × ((runner.run session input state).0 ≡ ok result)
    × IsAnswer "secret" session input result
build_agent_runner-IsAnswer_example =
    build_agent_runner-IsAnswer (λ credential. client) azure environ none none runner built session
      input state

abbrev durable : AppConfig
durable = record default_config {
  github_app_id = pos 5;
  github_app_installation_id = pos 9;
  github_app_private_key_path = "/key.pem";
  queue_backend = "redis-streams";
  agent_runtime = azure;
}

abbrev app : AppAuth
app = record {
  app_id = pos 5;
  private_key = "PEM";
  installation_id = pos 9;
  api_base = "https://api.github.com";
}

abbrev github : ClientConfig
github = record { base_url = "https://api.github.com"; user_agent = "qaestro" }

abbrev runtime_parts : ToolRuntimeParts
runtime_parts = record {
  auth = app;
  client = github;
  tools = github_pr_tools;
  policy = worker_policy;
}

abbrev built_worker : WorkerParts (AgentRunner RunRequest (AgentWorld ℕ))
built_worker = record {
  orchestrator = record {
    pr_orchestrator = record {
      context_provider = tool_runtime_pr_context_provider runtime_parts;
      triage_classifier = agent_backed_triage runner;
      validator = agent_runtime_validator runner;
      ci_feedback_provider = some (record { aggregate_store = 1; check_provider = runtime_parts });
    };
    ci_orchestrator = record { context_provider = some runtime_parts; aggregate_store = some 1 };
  };
  output_poster = tool_runtime_pr_output_poster runtime_parts;
  max_attempts = 3;
  timeout_seconds = none;
}

worker_built :
    build_worker (λ path. ok "PEM") (λ credential. client) environ 1 durable ≡ ok built_worker
unfolding build_worker build_github_client make_auth make_config rstrip_chars build_agent_runner
    check_agent_runtime_health provider_config_errors capability_errors is_set
    has_degradation_warning capability_warnings occurs int_text decimal decimal_digits text_take
    make_worker make_event_orchestrator make_pr_orchestrator build_github_tool_runtime
worker_built = refl

build_worker-IsWired_example :
    IsWired (λ path. ok "PEM") (λ credential. client) environ 1 durable built_worker
build_worker-IsWired_example =
    build_worker-IsWired (λ path. ok "PEM") (λ credential. client) environ 1 durable built_worker
      worker_built refl

-- For the memory queue the worker is built without a poster.
memory_worker :
    (elim (build_worker (λ path. ok "PEM") (λ credential. client) environ 1 default_config) [
      | ok w ↦ some w.output_poster
      | err e ↦ none
    ])
    ≡ some noop_output_poster
unfolding build_worker make_worker
memory_worker = refl
