-- ===== src/Config/Readable.antt =====
-- Which environments `load_config` of src/shared/config.py reads.
use qaestro.Prelude.{
  ℤ, true, String, Bool, contains, string_eq, Option, some, List, [], ◌∷◌, Result, ok, ◌>>=◌,
  Exception, All, ◌≡◌, ◌↔◌, refl, bind_ok,
}
use qaestro.Json.{Json}
use qaestro.Config.{
  AgentRuntimeProvider, AppConfig, default_agent_runtime, default_config, Readings, int_value,
  float_value, provider_from,
}
use qaestro.Config.Load.{
  Setting, str_value, bool_value, load, env_map, agent_env_map, load_agent_runtime_config,
  load_config,
}
use qaestro.Config.Converts.{
  Converts, load_read, load-Converts, known_providers, int_value_ok, float_value_ok, provider_ok,
}

infixr 4 ◌&◌
abbrev ◌&◌ : {A B : Type 0} → A → B → A × B
a & b = (a, b)

-- What a variable holds.
pub data Kind : Type 0 where
  text flag integer decimal provider_name : Kind

-- The variables of the two tables, in their order.
abbrev pub app_variables : List (String × Kind)
app_variables =
    ("QAESTRO_ENV", text)
    ∷ ("QAESTRO_DEBUG", flag)
    ∷ ("QAESTRO_LOG_LEVEL", text)
    ∷ ("QAESTRO_LOG_FORMAT", text)
    ∷ ("QAESTRO_GATEWAY_HOST", text)
    ∷ ("QAESTRO_GATEWAY_PORT", integer)
    ∷ ("QAESTRO_GITHUB_WEBHOOK_SECRET", text)
    ∷ ("QAESTRO_GITHUB_APP_ID", integer)
    ∷ ("QAESTRO_GITHUB_APP_INSTALLATION_ID", integer)
    ∷ ("QAESTRO_GITHUB_APP_PRIVATE_KEY_PATH", text)
    ∷ ("QAESTRO_WORKER_CONCURRENCY", integer)
    ∷ ("QAESTRO_QUEUE_BACKEND", text)
    ∷ ("QAESTRO_REDIS_URL", text)
    ∷ ("QAESTRO_REDIS_STREAM", text)
    ∷ ("QAESTRO_REDIS_CONSUMER_GROUP", text)
    ∷ ("QAESTRO_REDIS_CONSUMER", text)
    ∷ ("QAESTRO_REDIS_READ_BLOCK_MS", integer)
    ∷ ("QAESTRO_REDIS_CLAIM_IDLE_MS", integer)
    ∷ []

abbrev pub agent_variables : List (String × Kind)
agent_variables =
    ("QAESTRO_AGENT_PROVIDER", provider_name)
    ∷ ("QAESTRO_AGENT_MODEL", text)
    ∷ ("QAESTRO_AGENT_DEPLOYMENT", text)
    ∷ ("QAESTRO_AGENT_ENDPOINT", text)
    ∷ ("QAESTRO_AGENT_BASE_URL", text)
    ∷ ("QAESTRO_AGENT_API_VERSION", text)
    ∷ ("QAESTRO_AGENT_CREDENTIAL_ENV_VAR", text)
    ∷ ("QAESTRO_AGENT_TIMEOUT_SECONDS", decimal)
    ∷ ("QAESTRO_AGENT_MAX_TURNS", integer)
    ∷ ("QAESTRO_AGENT_MAX_TOOL_CALLS", integer)
    ∷ ("QAESTRO_AGENT_TEMPERATURE", decimal)
    ∷ ("QAESTRO_AGENT_SUPPORTS_TOOL_CALLING", flag)
    ∷ ("QAESTRO_AGENT_SUPPORTS_STRUCTURED_OUTPUT", flag)
    ∷ ("QAESTRO_AGENT_CONTEXT_WINDOW_TOKENS", integer)
    ∷ []

module _ (readings : Readings) (environ : String → Option String) where
  -- The text is one of the kind; every text is a text, and every text is a flag.
  abbrev pub IsOfKind : Kind → String → Type 0
  IsOfKind text raw = Unit
  IsOfKind flag raw = Unit
  IsOfKind integer raw = (n : ℤ) × (readings.int_of_text raw ≡ some n)
  IsOfKind decimal raw = (x : Json) × (readings.float_of_text raw ≡ some x)
  IsOfKind provider_name raw = contains known_providers raw ≡ true

  -- If the variable is set, its text is of its kind.
  abbrev pub IsReadable : String × Kind → Type 0
  IsReadable (key, kind) = (raw : String) → environ key ≡ some raw → IsOfKind kind raw

  -- The entries of a table read what the variables say.
  Agree : {C : Type 0} → List (Setting C) → List (String × Kind) → Type 0
  Agree [] [] = Unit
  Agree (s ∷ ss) (v ∷ vs) = (Converts environ s ↔ IsReadable v) × Agree ss vs
  Agree [] (v ∷ vs) = ⊥
  Agree (s ∷ ss) [] = ⊥

  All-Agree :
      {C : Type 0} (ss : List (Setting C)) (vs : List (String × Kind))
      → Agree ss vs
      → All (Converts environ) ss ↔ All IsReadable vs
  unfolding Agree
  All-Agree [] [] a = ((λ h. tt), (λ h. tt))
  All-Agree (s ∷ ss) (v ∷ vs) (here, rest) =
      let (there, back) = All-Agree ss vs rest in
      ((λ (h, hs). (here.0 h, there hs)), (λ (h, hs). (here.1 h, back hs)))
  All-Agree [] (v ∷ vs) a = absurd a
  All-Agree (s ∷ ss) [] a = absurd a

module _ (readings : Readings) (environ : String → Option String) where
  -- What an entry that reads with `read` asks of its variable.
  abbrev Accepts :
      {A C : Type 0} → (String → String → Result Exception A) → (A → C → C) → String → Type 0
  Accepts {A} {C} read put key =
      (raw : String)
      → environ key ≡ some raw
      → (f : C → C) × ((read key raw >>= λ a. ok (put a)) ≡ ok f)

  text_iff :
      {C : Type 0} (key : String) (put : String → C → C)
      → Accepts str_value put key ↔ IsReadable readings environ (key, text)
  text_iff key put = ((λ h raw set. tt), (λ h raw set. (put raw, refl)))

  flag_iff :
      {C : Type 0} (key : String) (put : Bool → C → C)
      → Accepts bool_value put key ↔ IsReadable readings environ (key, flag)
  flag_iff key put = ((λ h raw set. tt), (λ h raw set. (_, refl)))

  int_iff :
      {C : Type 0} (key : String) (put : ℤ → C → C)
      → Accepts (int_value readings) put key ↔ IsReadable readings environ (key, integer)
  int_iff key put = (
    (λ h raw set. (int_value_ok readings key raw put).0 (h raw set)),
    (λ h raw set. (int_value_ok readings key raw put).1 (h raw set)),
  )

  float_iff :
      {C : Type 0} (key : String) (put : Json → C → C)
      → Accepts (float_value readings) put key ↔ IsReadable readings environ (key, decimal)
  float_iff key put = (
    (λ h raw set. (float_value_ok readings key raw put).0 (h raw set)),
    (λ h raw set. (float_value_ok readings key raw put).1 (h raw set)),
  )

  provider_iff :
      {C : Type 0} (key : String) (put : AgentRuntimeProvider → C → C)
      → Accepts (provider_from readings) put key ↔ IsReadable readings environ (key, provider_name)
  provider_iff key put = (
    (λ h raw set. (provider_ok readings key raw put).0 (h raw set)),
    (λ h raw set. (provider_ok readings key raw put).1 (h raw set)),
  )

  env_map-Agree : Agree readings environ (env_map readings) app_variables
  unfolding Agree
  env_map-Agree =
      text_iff "QAESTRO_ENV" _
      & flag_iff "QAESTRO_DEBUG" (λ b c. record c { debug = b })
      & text_iff "QAESTRO_LOG_LEVEL" _
      & text_iff "QAESTRO_LOG_FORMAT" _
      & text_iff "QAESTRO_GATEWAY_HOST" _
      & int_iff "QAESTRO_GATEWAY_PORT" _
      & text_iff "QAESTRO_GITHUB_WEBHOOK_SECRET" _
      & int_iff "QAESTRO_GITHUB_APP_ID" _
      & int_iff "QAESTRO_GITHUB_APP_INSTALLATION_ID" _
      & text_iff "QAESTRO_GITHUB_APP_PRIVATE_KEY_PATH" _
      & int_iff "QAESTRO_WORKER_CONCURRENCY" _
      & text_iff "QAESTRO_QUEUE_BACKEND" _
      & text_iff "QAESTRO_REDIS_URL" _
      & text_iff "QAESTRO_REDIS_STREAM" _
      & text_iff "QAESTRO_REDIS_CONSUMER_GROUP" _
      & text_iff "QAESTRO_REDIS_CONSUMER" _
      & int_iff "QAESTRO_REDIS_READ_BLOCK_MS" _
      & int_iff "QAESTRO_REDIS_CLAIM_IDLE_MS" _
      & tt

  agent_env_map-Agree : Agree readings environ (agent_env_map readings) agent_variables
  unfolding Agree
  agent_env_map-Agree =
      provider_iff "QAESTRO_AGENT_PROVIDER" _
      & text_iff "QAESTRO_AGENT_MODEL" _
      & text_iff "QAESTRO_AGENT_DEPLOYMENT" _
      & text_iff "QAESTRO_AGENT_ENDPOINT" _
      & text_iff "QAESTRO_AGENT_BASE_URL" _
      & text_iff "QAESTRO_AGENT_API_VERSION" _
      & text_iff "QAESTRO_AGENT_CREDENTIAL_ENV_VAR" _
      & float_iff "QAESTRO_AGENT_TIMEOUT_SECONDS" _
      & int_iff "QAESTRO_AGENT_MAX_TURNS" _
      & int_iff "QAESTRO_AGENT_MAX_TOOL_CALLS" _
      & float_iff "QAESTRO_AGENT_TEMPERATURE" _
      & flag_iff "QAESTRO_AGENT_SUPPORTS_TOOL_CALLING"
          (λ b c. record c { supports_tool_calling = b })
      & flag_iff "QAESTRO_AGENT_SUPPORTS_STRUCTURED_OUTPUT"
          (λ b c. record c { supports_structured_output = b })
      & int_iff "QAESTRO_AGENT_CONTEXT_WINDOW_TOKENS" _
      & tt

  -- The variables that are set have texts of their kinds.
  abbrev pub AllReadable : Type 0
  AllReadable =
      All (IsReadable readings environ) app_variables
      × All (IsReadable readings environ) agent_variables

  load_readable : (c : AppConfig) → load_config readings environ ≡ ok c → AllReadable
  unfolding load_config load_agent_runtime_config
  load_readable c h =
      let (app, loaded, rest) = bind_ok (load environ (env_map readings) default_config) _ c h in
      let (agent, agent_loaded, built) =
        bind_ok (load_agent_runtime_config readings environ) _ c rest in
      (
        (All-Agree readings environ _ _ env_map-Agree).0
            (load-Converts environ (env_map readings) default_config app loaded),
        (All-Agree readings environ _ _ agent_env_map-Agree).0 (
            load-Converts environ (agent_env_map readings) default_agent_runtime agent
              agent_loaded),
      )

  readable_loads : AllReadable → (c : AppConfig) × (load_config readings environ ≡ ok c)
  unfolding load_config load_agent_runtime_config
  readable_loads h =
      let (c, loaded) =
        load_read environ (env_map readings) default_config
          ((All-Agree readings environ _ _ env_map-Agree).1 h.0) in
      let (agent, agent_loaded) =
        load_read environ (agent_env_map readings) default_agent_runtime
          ((All-Agree readings environ _ _ agent_env_map-Agree).1 h.1) in
      (record c { agent_runtime = agent }, rw (loaded, agent_loaded) refl)

  -- The configuration is loaded exactly where every integer variable that is set is the text of an
  -- integer, every float variable that is set the text of a float, and the provider, if it is set,
  -- one of the four; a variable of texts or of truth values is never refused.
  pub load_config_iff : ((c : AppConfig) × (load_config readings environ ≡ ok c)) ↔ AllReadable
  load_config_iff = ((λ (c, h). load_readable c h), readable_loads)
