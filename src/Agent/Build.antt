-- ===== src/Agent/Build.antt =====
-- The runner that a configuration stands for (`build_agent_runner` of
-- src/runtime/agent/openai_compatible.py).
pub mod Answers
use qaestro.Prelude.{
  String, Bool, false, Option, none, some, Result, ok, err, Exception, if◌then◌else◌, ◌⋈◌, join,
}
use qaestro.Prelude.Exec.{Exec}
use qaestro.Sessions.{AgentRunner, RunRequest}
use qaestro.Config.{
  AgentRuntimeConfig, AgentRuntimeProvider, disabled, azure_openai, github_copilot,
  openai_compatible, provider_value,
}
use qaestro.Agent.Health.{is_disabled, is_unsupported, check_agent_runtime_health}
use qaestro.Agent.Runner.{
  ChatClient, credential_of, azure_runner, compatible_runner, FakeLog, fake_runner,
}

-- What the fake runner has recorded, and the world of the others.
pub record AgentWorld (W : Type 0) : Type 0 where
  pub log : FakeLog
  pub world : W

module _ {W A : Type 0} where
  abbrev pub in_log : Exec Exception FakeLog A → Exec Exception (AgentWorld W) A
  in_log m s = let (r, log) = m s.log in (r, record s { log = log })

  abbrev pub in_world : Exec Exception W A → Exec Exception (AgentWorld W) A
  in_world m s = let (r, w) = m s.world in (r, record s { world = w })

module _ {W : Type 0} where
  abbrev pub runner_in_log : AgentRunner RunRequest FakeLog → AgentRunner RunRequest (AgentWorld W)
  runner_in_log runner = record {
    start_session = λ handle. in_log (runner.start_session handle);
    run = λ session input. in_log (runner.run session input);
    close_session = λ handle reason. in_log (runner.close_session handle reason);
  }

  abbrev pub runner_in_world : AgentRunner RunRequest W → AgentRunner RunRequest (AgentWorld W)
  runner_in_world runner = record {
    start_session = λ handle. in_world (runner.start_session handle);
    run = λ session input. in_world (runner.run session input);
    close_session = λ handle reason. in_world (runner.close_session handle reason);
  }

abbrev pub unsupported_error : {A : Type 0} → String → Result Exception A
unsupported_error text =
    err (record { class_name = "UnsupportedAgentRuntimeProviderError"; message = text })

-- `live_client` is `AzureOpenAIHTTPClient`, by its credential.
module _ {W : Type 0} (live_client : String → ChatClient W) (config : AgentRuntimeConfig)
    (environ : String → Option String)
    (compatible_client azure_client : Option (ChatClient W)) where
  abbrev pub compatible_or_error :
      Option (ChatClient W) → Result Exception (AgentRunner RunRequest W)
  compatible_or_error none =
      unsupported_error
        "OpenAI-compatible runner requires an injected client until a live adapter is configured."
  compatible_or_error (some client) =
      ok (compatible_runner config client (credential_of config environ))

  abbrev pub client_or : ChatClient W → Option (ChatClient W) → ChatClient W
  client_or client none = client
  client_or client (some injected) = injected

  abbrev pub not_implemented_error :
      AgentRuntimeProvider → Result Exception (AgentRunner RunRequest W)
  not_implemented_error p =
      unsupported_error
        ("Agent Runtime provider '" ⋈ provider_value p ⋈ "' is not implemented yet.")

  abbrev pub provider_runner : AgentRuntimeProvider → Result Exception (AgentRunner RunRequest W)
  provider_runner openai_compatible = compatible_or_error compatible_client
  provider_runner azure_openai =
      let credential = credential_of config environ in
      ok (azure_runner config (client_or (live_client credential) azure_client) credential)
  provider_runner disabled = not_implemented_error disabled
  provider_runner github_copilot = not_implemented_error github_copilot

  abbrev pub placed :
      Result Exception (AgentRunner RunRequest W)
      → Result Exception (AgentRunner RunRequest (AgentWorld W))
  placed (ok runner) = ok (runner_in_world runner)
  placed (err e) = err e

  unfoldable pub build_agent_runner : Result Exception (AgentRunner RunRequest (AgentWorld W))
  build_agent_runner =
      let health = check_agent_runtime_health config environ false in
      if is_disabled config.provider
      then ok
          (runner_in_log (fake_runner "agent runtime disabled; validation probe selection skipped"))
      else if is_unsupported health
      then unsupported_error (join "; " health.actionable_errors)
      else placed (provider_runner config.provider)
