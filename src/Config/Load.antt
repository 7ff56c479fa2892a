-- ===== src/Config/Load.antt =====
-- `load_config` of src/shared/config.py. `environ` is `os.environ.get`; a value that was read is
-- written to its field at once, where the source passes all of them to the constructor.
use qaestro.Prelude.{
  String, string_eq, Bool, Option, none, some, List, [], ◌∷◌, Result, ok, ◌>>=◌, Exception, ◌⋈◌,
}
use qaestro.Config.{
  AgentRuntimeConfig, AppConfig, default_agent_runtime, default_config, Readings, parse_bool,
  int_value, float_value, provider_from,
}

-- An entry of `_ENV_MAP` or `_AGENT_ENV_MAP`: the variable, and what its text sets.
pub record Setting (C : Type 0) : Type 0 where
  pub key : String
  pub put : String → Result Exception (C → C)

abbrev pub env_key : String → String
env_key suffix = "QAESTRO_" ⋈ suffix

module _ {C : Type 0} where
  abbrev pub setting :
      {A : Type 0} → String → (String → String → Result Exception A) → (A → C → C) → Setting C
  setting suffix convert put = record {
    key = env_key suffix;
    put = λ raw. (do a ← convert (env_key suffix) raw; ok (put a));
  }

  abbrev pub put_if_set : Option String → Setting C → C → Result Exception C
  put_if_set none s c = ok c
  put_if_set (some raw) s c = do put ← s.put raw; ok (put c)

  -- The loop over the entries of a map.
  unfoldable pub load : (String → Option String) → List (Setting C) → C → Result Exception C
  load environ [] c = ok c
  load environ (s ∷ ss) c = do c' ← put_if_set (environ s.key) s c; load environ ss c'

abbrev pub str_value : String → String → Result Exception String
str_value key raw = ok raw

abbrev pub bool_value : String → String → Result Exception Bool
bool_value key raw = ok (parse_bool raw)

module _ (readings : Readings) where
  -- `_ENV_MAP`
  abbrev pub env_map : List (Setting AppConfig)
  env_map =
      setting "ENV" str_value (λ s c. record c { env = s })
      ∷ setting "DEBUG" bool_value (λ b c. record c { debug = b })
      ∷ setting "LOG_LEVEL" str_value (λ s c. record c { log_level = s })
      ∷ setting "LOG_FORMAT" str_value (λ s c. record c { log_format = s })
      ∷ setting "GATEWAY_HOST" str_value (λ s c. record c { gateway_host = s })
      ∷ setting "GATEWAY_PORT" (int_value readings) (λ n c. record c { gateway_port = n })
      ∷ setting "GITHUB_WEBHOOK_SECRET" str_value (λ s c. record c { github_webhook_secret = s })
      ∷ setting "GITHUB_APP_ID" (int_value readings) (λ n c. record c { github_app_id = n })
      ∷ setting "GITHUB_APP_INSTALLATION_ID" (int_value readings)
          (λ n c. record c { github_app_installation_id = n })
      ∷ setting "GITHUB_APP_PRIVATE_KEY_PATH" str_value
          (λ s c. record c { github_app_private_key_path = s })
      ∷ setting "WORKER_CONCURRENCY" (int_value readings)
          (λ n c. record c { worker_concurrency = n })
      ∷ setting "QUEUE_BACKEND" str_value (λ s c. record c { queue_backend = s })
      ∷ setting "REDIS_URL" str_value (λ s c. record c { redis_url = s })
      ∷ setting "REDIS_STREAM" str_value (λ s c. record c { redis_stream = s })
      ∷ setting "REDIS_CONSUMER_GROUP" str_value (λ s c. record c { redis_consumer_group = s })
      ∷ setting "REDIS_CONSUMER" str_value (λ s c. record c { redis_consumer = s })
      ∷ setting "REDIS_READ_BLOCK_MS" (int_value readings)
          (λ n c. record c { redis_read_block_ms = n })
      ∷ setting "REDIS_CLAIM_IDLE_MS" (int_value readings)
          (λ n c. record c { redis_claim_idle_ms = n })
      ∷ []

  -- `_AGENT_ENV_MAP`
  abbrev pub agent_env_map : List (Setting AgentRuntimeConfig)
  agent_env_map =
      setting "AGENT_PROVIDER" (provider_from readings) (λ p c. record c { provider = p })
      ∷ setting "AGENT_MODEL" str_value (λ s c. record c { model = s })
      ∷ setting "AGENT_DEPLOYMENT" str_value (λ s c. record c { deployment = s })
      ∷ setting "AGENT_ENDPOINT" str_value (λ s c. record c { endpoint = s })
      ∷ setting "AGENT_BASE_URL" str_value (λ s c. record c { base_url = s })
      ∷ setting "AGENT_API_VERSION" str_value (λ s c. record c { api_version = s })
      ∷ setting "AGENT_CREDENTIAL_ENV_VAR" str_value (λ s c. record c { credential_env_var = s })
      ∷ setting "AGENT_TIMEOUT_SECONDS" (float_value readings)
          (λ x c. record c { timeout_seconds = x })
      ∷ setting "AGENT_MAX_TURNS" (int_value readings) (λ n c. record c { max_turns = n })
      ∷ setting "AGENT_MAX_TOOL_CALLS" (int_value readings) (λ n c. record c { max_tool_calls = n })
      ∷ setting "AGENT_TEMPERATURE" (float_value readings) (λ x c. record c { temperature = x })
      ∷ setting "AGENT_SUPPORTS_TOOL_CALLING" bool_value
          (λ b c. record c { supports_tool_calling = b })
      ∷ setting "AGENT_SUPPORTS_STRUCTURED_OUTPUT" bool_value
          (λ b c. record c { supports_structured_output = b })
      ∷ setting "AGENT_CONTEXT_WINDOW_TOKENS" (int_value readings)
          (λ n c. record c { context_window_tokens = n })
      ∷ []

  -- `_load_agent_runtime_config`
  unfoldable pub load_agent_runtime_config :
      (String → Option String) → Result Exception AgentRuntimeConfig
  load_agent_runtime_config environ = load environ agent_env_map default_agent_runtime

  unfoldable pub load_config : (String → Option String) → Result Exception AppConfig
  load_config environ = do
    c ← load environ env_map default_config
    agent_runtime ← load_agent_runtime_config environ
    ok (record c { agent_runtime = agent_runtime })
