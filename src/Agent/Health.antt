-- ===== src/Agent/Health.antt =====
-- The offline check of the agent runtime (src/runtime/agent/health.py). `environ` is the `get` of the
-- environment.
use qaestro.Prelude.{
  ℤ, pos, String, Bool, true, false, not, ◌&&◌, Option, none, some, List, [], ◌∷◌, ◌++◌,
  if◌then◌else◌, ltb_ℤ, ◌⋈◌, int_text, is_set, is_nonempty, any, occurs,
}
use qaestro.Config.{
  AgentRuntimeProvider, disabled as no_provider, azure_openai, github_copilot, openai_compatible,
  AgentRuntimeConfig,
}

pub data HealthStatus : Type 0 where
  disabled supported degraded unsupported : HealthStatus

pub data LiveSmokeProbeStatus : Type 0 where
  not_requested not_implemented succeeded failed : LiveSmokeProbeStatus

pub record HealthResult : Type 0 where
  pub provider : AgentRuntimeProvider
  pub status : HealthStatus
  pub actionable_errors : List String
  pub warnings : List String
  pub live_smoke_probe_status : LiveSmokeProbeStatus

-- `AgentRuntimeHealthResult.ok`
abbrev pub is_ok : HealthResult → Bool
is_ok health = elim health.status [
  | disabled ↦ false
  | supported ↦ true
  | degraded ↦ true
  | unsupported ↦ false
]

abbrev pub is_unsupported : HealthResult → Bool
is_unsupported health = elim health.status [
  | disabled ↦ false
  | supported ↦ false
  | degraded ↦ false
  | unsupported ↦ true
]

-- `if test: errors.append(text)`
abbrev pub error_if : Bool → String → List String
error_if test text = if test then text ∷ [] else []

abbrev pub recommended_context_window_tokens : ℤ
recommended_context_window_tokens = pos 32000

-- `env.get(name)` that is missing or empty.
abbrev pub is_unset : Option String → Bool
is_unset none = true
is_unset (some text) = not (is_set text)

abbrev pub credential_errors : AgentRuntimeConfig → (String → Option String) → List String
credential_errors config environ =
    if not (is_set config.credential_env_var)
    then "Credential environment variable name is required for QAESTRO_AGENT_CREDENTIAL_ENV_VAR."
      ∷ []
    else error_if (is_unset (environ config.credential_env_var))
        ("Credential environment variable " ⋈ config.credential_env_var ⋈ " is not set.")

abbrev pub errors_of :
    AgentRuntimeProvider → AgentRuntimeConfig → (String → Option String) → List String
errors_of no_provider config environ = credential_errors config environ
errors_of azure_openai config environ =
    error_if (not (is_set config.endpoint))
      "Azure OpenAI endpoint is required for QAESTRO_AGENT_ENDPOINT."
    ++ error_if (not (is_set config.deployment))
        "Azure OpenAI deployment is required for QAESTRO_AGENT_DEPLOYMENT."
    ++ error_if (not (is_set config.api_version))
        "Azure OpenAI API version is required for QAESTRO_AGENT_API_VERSION."
    ++ credential_errors config environ
errors_of github_copilot config environ =
    "GitHub Copilot is not supported as a non-interactive Agent Runtime provider yet." ∷ []
errors_of openai_compatible config environ =
    error_if (not (is_set config.base_url))
      "OpenAI-compatible base URL is required for QAESTRO_AGENT_BASE_URL."
    ++ error_if (not (is_set config.model))
        "OpenAI-compatible model is required for QAESTRO_AGENT_MODEL."
    ++ credential_errors config environ

-- `_provider_config_errors`
unfoldable pub provider_config_errors : AgentRuntimeConfig → (String → Option String) → List String
provider_config_errors config environ = errors_of config.provider config environ

-- `_capability_errors`
unfoldable pub capability_errors : AgentRuntimeConfig → List String
capability_errors config =
    error_if (not config.supports_tool_calling) "tool calling is required"
    ++ error_if (not config.supports_structured_output)
        "structured output or schema-constrained responses are required"
    ++ error_if (not (ltb_ℤ (pos 0) config.context_window_tokens))
        "context window token capacity is required for QAESTRO_AGENT_CONTEXT_WINDOW_TOKENS."

abbrev pub is_small : AgentRuntimeConfig → Bool
is_small config =
    ltb_ℤ (pos 0) config.context_window_tokens
    && ltb_ℤ config.context_window_tokens recommended_context_window_tokens

abbrev pub window_warning : ℤ → String
window_warning tokens =
    "Configured context window "
    ⋈ int_text tokens
    ⋈ " tokens is below the recommended "
    ⋈ int_text recommended_context_window_tokens
    ⋈ " tokens."

-- `_capability_warnings`
unfoldable pub capability_warnings : AgentRuntimeConfig → List String
capability_warnings config =
    error_if (is_small config) (window_warning config.context_window_tokens)

-- `_has_degradation_warning`
unfoldable pub has_degradation_warning : List String → Bool
has_degradation_warning warnings = any (occurs "context window") warnings

abbrev pub smoke_warning : Bool → String
smoke_warning true =
    "Live provider smoke check was requested but no provider adapter implements it yet."
smoke_warning false =
    "Live provider smoke check not executed; set opt_in_live_smoke=True to probe provider connectivity."

abbrev pub unsupported_because : AgentRuntimeConfig → List String → HealthResult
unsupported_because config errors = record {
  provider = config.provider;
  status = unsupported;
  actionable_errors = errors;
  warnings = capability_warnings config;
  live_smoke_probe_status = not_requested;
}

abbrev pub checked : AgentRuntimeConfig → (String → Option String) → Bool → HealthResult
checked config environ opt_in_live_smoke =
    let warnings = capability_warnings config ++ smoke_warning opt_in_live_smoke ∷ [] in
    if is_nonempty (provider_config_errors config environ)
    then unsupported_because config (provider_config_errors config environ)
    else if is_nonempty (capability_errors config)
    then unsupported_because config (capability_errors config)
    else record {
      provider = config.provider;
      status = if has_degradation_warning warnings then degraded else supported;
      actionable_errors = [];
      warnings = warnings;
      live_smoke_probe_status = if opt_in_live_smoke then not_implemented else not_requested;
    }

abbrev pub is_disabled : AgentRuntimeProvider → Bool
is_disabled no_provider = true
is_disabled azure_openai = false
is_disabled github_copilot = false
is_disabled openai_compatible = false

unfoldable pub check_agent_runtime_health :
    AgentRuntimeConfig → (String → Option String) → Bool → HealthResult
check_agent_runtime_health config environ opt_in_live_smoke =
    if is_disabled config.provider
    then record {
      provider = config.provider;
      status = disabled;
      actionable_errors = [];
      warnings =
          "Agent Runtime is disabled; runtime validation will not call an LLM provider." ∷ [];
      live_smoke_probe_status = not_requested;
    }
    else checked config environ opt_in_live_smoke
