-- ===== src/Agent/Ready.antt =====
-- The status of the agent runtime, against what a provider needs (src/runtime/agent/health.py).
use qaestro.Prelude.{
  ℤ, pos, String, Bool, true, false, not, ◌&&◌, ◌≡◌, refl, ap, Option, [], ◌∷◌, ◌++◌, if◌then◌else◌,
  ltb_ℤ, ◌⋈◌, is_set, is_nonempty, occurs, starts_with, Bool-cases, inl, inr, arith,
}
use text.Mathlib.TextLemmas.{cons-append}
use qaestro.GitHub.Upsert.{starts_with-append, occurs_start}
use qaestro.Config.{
  AgentRuntimeProvider, disabled as no_provider, azure_openai, github_copilot, openai_compatible,
  AgentRuntimeConfig,
}
use qaestro.Agent.Health.{
  HealthStatus, HealthResult, disabled, supported, degraded, unsupported, is_unset, is_small,
  window_warning, errors_of, credential_errors, is_disabled, smoke_warning,
  recommended_context_window_tokens, provider_config_errors, capability_errors, capability_warnings,
  has_degradation_warning, check_agent_runtime_health, checked,
}

abbrev has_credential : AgentRuntimeConfig → (String → Option String) → Bool
has_credential config environ =
    is_set config.credential_env_var && not (is_unset (environ config.credential_env_var))

-- The settings of the provider, and a credential in the variable that is named.
abbrev is_configured : AgentRuntimeProvider → AgentRuntimeConfig → (String → Option String) → Bool
is_configured no_provider config environ = has_credential config environ
is_configured azure_openai config environ =
    is_set config.endpoint
    && is_set config.deployment
    && is_set config.api_version
    && has_credential config environ
is_configured github_copilot config environ = false
is_configured openai_compatible config environ =
    is_set config.base_url && is_set config.model && has_credential config environ

abbrev is_capable : AgentRuntimeConfig → Bool
is_capable config =
    config.supports_tool_calling
    && config.supports_structured_output
    && ltb_ℤ (pos 0) config.context_window_tokens

-- The status by what the configuration has.
abbrev pub status_of : AgentRuntimeConfig → (String → Option String) → HealthStatus
status_of config environ =
    if is_disabled config.provider
    then disabled
    else if not (is_configured config.provider config environ && is_capable config)
    then unsupported
    else if ltb_ℤ config.context_window_tokens recommended_context_window_tokens
    then degraded
    else supported

credential_errors-configured :
    (config : AgentRuntimeConfig) (environ : String → Option String)
    → is_nonempty (credential_errors config environ) ≡ not (has_credential config environ)
credential_errors-configured config environ = ground arith

errors_of-configured :
    (p : AgentRuntimeProvider) (config : AgentRuntimeConfig) (environ : String → Option String)
    → is_nonempty (errors_of p config environ) ≡ not (is_configured p config environ)
errors_of-configured no_provider config environ = credential_errors-configured config environ
errors_of-configured azure_openai config environ =
    ground (arith, credential_errors-configured config environ)
errors_of-configured github_copilot config environ = refl
errors_of-configured openai_compatible config environ =
    ground (arith, credential_errors-configured config environ)

capability_errors-capable :
    (config : AgentRuntimeConfig) → is_nonempty (capability_errors config) ≡ not (is_capable config)
unfolding capability_errors
capability_errors-capable config = ground arith

occurs_before : (p s t : String) → occurs p s ≡ true → occurs p (s ⋈ t) ≡ true
unfolding occurs
occurs_before p String.[] t h = occurs_start p (String.[] ⋈ t) (starts_with-append p String.[] t h)
occurs_before p (String.◌∷◌ c s) t h = elim (Bool-cases (starts_with p (String.◌∷◌ c s))) [
  | inl k ↦ occurs_start p (String.◌∷◌ c s ⋈ t) (starts_with-append p (String.◌∷◌ c s) t k)
  | inr k ↦
      (let later = occurs_before p s t (rw k at h) in
        rw (cons-append c s t) (ground (arith, later)))
]

smoke_warning_found : (b : Bool) → has_degradation_warning (smoke_warning b ∷ []) ≡ false
unfolding has_degradation_warning occurs starts_with
smoke_warning_found false = refl
smoke_warning_found true = refl

named_window : occurs "context window" "Configured context window " ≡ true
unfolding occurs starts_with
named_window = refl

window_warning_found : (tokens : ℤ) → occurs "context window" (window_warning tokens) ≡ true
window_warning_found tokens = occurs_before "context window" _ " tokens." (
    occurs_before "context window" _ _
      (occurs_before "context window" _ _ (occurs_before "context window" _ _ named_window)))

warnings-small :
    (config : AgentRuntimeConfig) (b : Bool)
    → has_degradation_warning (capability_warnings config ++ smoke_warning b ∷ []) ≡ is_small config
unfolding has_degradation_warning capability_warnings
warnings-small config b = elim (Bool-cases (is_small config)) [
  | inl small ↦ rw (small, window_warning_found config.context_window_tokens) refl
  | inr large ↦ rw large (smoke_warning_found b)
]

is_small_capable :
    (config : AgentRuntimeConfig)
    → is_capable config ≡ true
    → is_small config ≡ ltb_ℤ config.context_window_tokens recommended_context_window_tokens
is_small_capable config h = ground arith

checked_status :
    (config : AgentRuntimeConfig) (environ : String → Option String) (opt_in : Bool)
    → HealthResult.status (checked config environ opt_in) ≡ (
        if not (is_configured config.provider config environ && is_capable config)
        then unsupported
        else if ltb_ℤ config.context_window_tokens recommended_context_window_tokens
        then degraded
        else supported)
unfolding provider_config_errors
checked_status config environ opt_in =
    rw
      (
        errors_of-configured config.provider config environ,
        capability_errors-capable config,
        warnings-small config opt_in,
      )
      (elim (Bool-cases (is_configured config.provider config environ)) [
        | inr missing ↦ rw missing refl
        | inl configured ↦ rw configured (elim (Bool-cases (is_capable config)) [
          | inr weak ↦ rw weak refl
          | inl capable ↦
              rw capable
                (ap (λ b. if b then degraded else supported) (is_small_capable config capable))
        ])
      ])

-- The check finds the status that the configuration has, whether a live check is asked for or not.
pub check_agent_runtime_health-status_of :
    (config : AgentRuntimeConfig) (environ : String → Option String) (opt_in : Bool)
    → HealthResult.status (check_agent_runtime_health config environ opt_in)
      ≡ status_of config environ
unfolding check_agent_runtime_health
check_agent_runtime_health-status_of config environ opt_in =
    elim (Bool-cases (is_disabled config.provider)) [
      | inl off ↦ rw off refl
      | inr on ↦ rw on (checked_status config environ opt_in)
    ]
