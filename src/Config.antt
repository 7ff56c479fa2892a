-- ===== src/Config.antt =====
-- The configuration (src/shared/config.py). Its floats are the numbers of `Json`. Python's `int`,
-- `float` and `repr` of a text are parameters.
pub mod Load
pub mod Converts
pub mod Readable
use qaestro.Prelude.{
  ℤ, pos, String, Bool, true, false, Option, none, some, List, [], ◌∷◌, map, Dict, Result, ok, err,
  ◌>>=◌, Exception, if◌then◌else◌, ◌==◌, string_eq, ◌⋈◌, join, strip, lower, contains,
}
use qaestro.Json.{Json, float}

pub data AgentRuntimeProvider : Type 0 where
  disabled azure_openai github_copilot openai_compatible : AgentRuntimeProvider

unfoldable pub provider_value : AgentRuntimeProvider → String
provider_value disabled = "disabled"
provider_value azure_openai = "azure-openai"
provider_value github_copilot = "github-copilot"
provider_value openai_compatible = "openai-compatible"

abbrev pub providers : List AgentRuntimeProvider
providers = disabled ∷ azure_openai ∷ github_copilot ∷ openai_compatible ∷ []

pub record AgentRuntimeConfig : Type 0 where
  pub provider : AgentRuntimeProvider
  pub model : String
  pub deployment : String
  pub endpoint : String
  pub base_url : String
  pub api_version : String
  pub credential_env_var : String
  pub timeout_seconds : Json
  pub max_turns : ℤ
  pub max_tool_calls : ℤ
  pub temperature : Json
  pub supports_tool_calling : Bool
  pub supports_structured_output : Bool
  pub context_window_tokens : ℤ

pub record AppConfig : Type 0 where
  pub env : String
  pub debug : Bool
  pub log_level : String
  pub log_format : String
  pub gateway_host : String
  pub gateway_port : ℤ
  pub github_webhook_secret : String
  pub github_app_id : ℤ
  pub github_app_installation_id : ℤ
  pub github_app_private_key_path : String
  pub worker_concurrency : ℤ
  pub queue_backend : String
  pub redis_url : String
  pub redis_stream : String
  pub redis_consumer_group : String
  pub redis_consumer : String
  pub redis_read_block_ms : ℤ
  pub redis_claim_idle_ms : ℤ
  pub agent_runtime : AgentRuntimeConfig
  pub features : Dict String Bool

-- `AgentRuntimeConfig()`
abbrev pub default_agent_runtime : AgentRuntimeConfig
default_agent_runtime = record {
  provider = disabled;
  model = "";
  deployment = "";
  endpoint = "";
  base_url = "";
  api_version = "";
  credential_env_var = "";
  timeout_seconds = float (pos 60) 0;
  max_turns = pos 8;
  max_tool_calls = pos 16;
  temperature = float (pos 0) 0;
  supports_tool_calling = false;
  supports_structured_output = false;
  context_window_tokens = pos 0;
}

-- `AppConfig()`
abbrev pub default_config : AppConfig
default_config = record {
  env = "development";
  debug = false;
  log_level = "INFO";
  log_format = "json";
  gateway_host = "0.0.0.0";
  gateway_port = pos 8000;
  github_webhook_secret = "";
  github_app_id = pos 0;
  github_app_installation_id = pos 0;
  github_app_private_key_path = "";
  worker_concurrency = pos 4;
  queue_backend = "memory";
  redis_url = "redis://localhost:6379/0";
  redis_stream = "qaestro:jobs";
  redis_consumer_group = "qaestro-workers";
  redis_consumer = "";
  redis_read_block_ms = pos 5000;
  redis_claim_idle_ms = pos 300000;
  agent_runtime = default_agent_runtime;
  features = [];
}

-- Python's readings of a text: `int`, `float` and `repr`.
pub record Readings : Type 0 where
  pub int_of_text : String → Option ℤ
  pub float_of_text : String → Option Json
  pub repr : String → String

-- `_parse_bool`
unfoldable pub parse_bool : String → Bool
parse_bool value = contains ("1" ∷ "true" ∷ "yes" ∷ "on" ∷ []) (lower (strip value))

abbrev pub invalid : {A : Type 0} → String → Result Exception A
invalid text = err (record { class_name = "ValueError"; message = text })

-- `AgentRuntimeProvider(raw)`
unfoldable pub provider_of : List AgentRuntimeProvider → String → Option AgentRuntimeProvider
unfolding provider_value
provider_of [] raw = none
provider_of (p ∷ ps) raw = if provider_value p == raw then some p else provider_of ps raw

-- `_convert_env_value`, by converter.
module _ (readings : Readings) (env_key raw : String) where
  unfoldable pub int_value : Result Exception ℤ
  int_value = elim (readings.int_of_text raw) [
    | none ↦ invalid ("Invalid integer value for " ⋈ env_key ⋈ ": " ⋈ readings.repr raw)
    | some n ↦ ok n
  ]

  unfoldable pub float_value : Result Exception Json
  float_value = elim (readings.float_of_text raw) [
    | none ↦ invalid ("Invalid float value for " ⋈ env_key ⋈ ": " ⋈ readings.repr raw)
    | some x ↦ ok x
  ]

  unfoldable pub provider_from : Result Exception AgentRuntimeProvider
  unfolding provider_of provider_value
  provider_from = elim (provider_of providers raw) [
    | none ↦ invalid (
        "Invalid Agent Runtime provider for "
        ⋈ env_key
        ⋈ ": "
        ⋈ readings.repr raw
        ⋈ ". Expected one of: "
        ⋈ join ", " (map provider_value providers))
    | some p ↦ ok p
  ]
