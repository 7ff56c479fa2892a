-- ===== src/Agent/Build/Answers.antt =====
-- What every runner that was built answers.
use qaestro.Prelude.{
  String, false, ◌≡◌, refl, ◌⊎◌, inl, inr, Option, none, some, Result, ok, err, Exception, Ensures,
  Ensures-ok, Ensures-err, Bool-cases, is_set,
}
use qaestro.Json.{Fields}
use qaestro.Sessions.{
  AgentSessionHandle, AgentRunInput, RunRequest, AgentRunResult, AgentRunner, succeeded, failed,
}
use qaestro.Config.{
  AgentRuntimeConfig, AgentRuntimeProvider, disabled, azure_openai, github_copilot,
  openai_compatible,
}
use qaestro.Agent.Health.{is_disabled, is_unsupported, check_agent_runtime_health}
use qaestro.Agent.Runner.{
  redact_secret, credential_of, run_failed, run_succeeded, ChatClient, ClientResponse, result_of,
  chat_runner, azure_runner, compatible_runner, fake_runner,
}
use qaestro.Agent.Build.{
  AgentWorld, runner_in_log, runner_in_world, compatible_or_error, provider_runner, placed,
  build_agent_runner,
}

module _ (credential : String) where
  -- The result belongs to the session and the stage that were asked for, with the tools that were
  -- allowed; it is a success without an error, or a failure without an output whose error is a text
  -- with the credential redacted.
  pub record IsAnswer (session : AgentSessionHandle) (input : AgentRunInput RunRequest)
      (result : AgentRunResult) : Type 0 where
    of_session : result.session ≡ session
    of_stage : result.stage ≡ input.stage
    of_tools : result.allowed_tool_names ≡ input.allowed_tool_names
    outcome :
        ((result.status ≡ succeeded) × (result.error ≡ ""))
        ⊎ ((result.status ≡ failed)
            × (result.output_text ≡ "")
            × ((text : String) × (result.error ≡ redact_secret text credential)))

  -- The runner returns an answer in every world: it raises nothing.
  record AlwaysAnswers {W : Type 0} (runner : AgentRunner RunRequest W) : Type 0 where
    at :
        (session : AgentSessionHandle) (input : AgentRunInput RunRequest) (w : W)
        → (result : AgentRunResult) × ((runner.run session input w).0 ≡ ok result)
          × IsAnswer session input result

  run_succeeded-IsAnswer :
      (session : AgentSessionHandle) (input : AgentRunInput RunRequest) (output_text : String)
      → IsAnswer session input (run_succeeded session input output_text)
  run_succeeded-IsAnswer session input output_text = record {
    of_session = refl;
    of_stage = refl;
    of_tools = refl;
    outcome = inl (refl, refl);
  }

  run_failed-IsAnswer :
      (session : AgentSessionHandle) (input : AgentRunInput RunRequest) (text : String)
      → IsAnswer session input (run_failed session input (redact_secret text credential))
  run_failed-IsAnswer session input text = record {
    of_session = refl;
    of_stage = refl;
    of_tools = refl;
    outcome = inr (refl, refl, (text, refl));
  }

  result_of-IsAnswer :
      (session : AgentSessionHandle) (input : AgentRunInput RunRequest)
      (r : Result Exception ClientResponse)
      → IsAnswer session input (result_of session input credential r)
  unfolding result_of
  result_of-IsAnswer session input (err e) = run_failed-IsAnswer session input e.message
  result_of-IsAnswer session input (ok r) = elim (Bool-cases (is_set r.error)) [
    | inl h ↦ rw h (run_failed-IsAnswer session input r.error)
    | inr h ↦ rw h (run_succeeded-IsAnswer session input r.output_text)
  ]

  module _ {W : Type 0} where
    chat_runner-AlwaysAnswers :
        (request_for : AgentRunInput RunRequest → Fields) (client : ChatClient W)
        → AlwaysAnswers (chat_runner request_for client credential)
    unfolding chat_runner
    chat_runner-AlwaysAnswers request_for client = record {
      at = λ session input w. (_, refl, result_of-IsAnswer session input _);
    }

    runner_in_world-AlwaysAnswers :
        (runner : AgentRunner RunRequest W)
        → AlwaysAnswers runner
        → AlwaysAnswers (runner_in_world runner)
    runner_in_world-AlwaysAnswers runner h = record {
      at = λ session input s. h.at session input s.world;
    }

    fake_in_log-AlwaysAnswers :
        (response : String) → AlwaysAnswers (runner_in_log {W = W} (fake_runner response))
    unfolding fake_runner
    fake_in_log-AlwaysAnswers response = record {
      at = λ session input s. (_, refl, run_succeeded-IsAnswer session input response);
    }

module _ {W : Type 0} (live_client : String → ChatClient W) (config : AgentRuntimeConfig)
    (environ : String → Option String) (compatible azure : Option (ChatClient W)) where
  abbrev Answering : {W : Type 0} → AgentRunner RunRequest W → Type 0
  Answering runner = AlwaysAnswers (credential_of config environ) runner

  placed-AlwaysAnswers :
      (r : Result Exception (AgentRunner RunRequest W))
      → Ensures Answering r
      → Ensures Answering (placed live_client config environ compatible azure r)
  placed-AlwaysAnswers (err e) h = Ensures-err _ e
  placed-AlwaysAnswers (ok runner) h =
      Ensures-ok _ _ (runner_in_world-AlwaysAnswers _ runner (h.at runner refl))

  compatible-AlwaysAnswers :
      (client : Option (ChatClient W))
      → Ensures Answering (compatible_or_error live_client config environ compatible azure client)
  unfolding compatible_runner
  compatible-AlwaysAnswers none = Ensures-err _ _
  compatible-AlwaysAnswers (some client) = Ensures-ok _ _ (chat_runner-AlwaysAnswers _ _ client)

  provider_runner-AlwaysAnswers :
      (p : AgentRuntimeProvider)
      → Ensures Answering (provider_runner live_client config environ compatible azure p)
  unfolding azure_runner
  provider_runner-AlwaysAnswers openai_compatible = compatible-AlwaysAnswers compatible
  provider_runner-AlwaysAnswers azure_openai = Ensures-ok _ _ (chat_runner-AlwaysAnswers _ _ _)
  provider_runner-AlwaysAnswers disabled = Ensures-err _ _
  provider_runner-AlwaysAnswers github_copilot = Ensures-err _ _

  build_agent_runner-AlwaysAnswers :
      Ensures Answering (build_agent_runner live_client config environ compatible azure)
  unfolding build_agent_runner
  build_agent_runner-AlwaysAnswers = elim (Bool-cases (is_disabled config.provider)) [
    | inl off ↦ rw off (Ensures-ok _ _ (fake_in_log-AlwaysAnswers _ _))
    | inr on ↦
        rw on
          (elim (Bool-cases (is_unsupported (check_agent_runtime_health config environ false))) [
            | inl bad ↦ rw bad (Ensures-err _ _)
            | inr fine ↦
                rw fine (placed-AlwaysAnswers _ (provider_runner-AlwaysAnswers config.provider))
          ])
  ]

  -- A runner that was built returns an answer to every run, whatever its client raises; the error of
  -- a failure has the credential redacted.
  pub build_agent_runner-IsAnswer :
      (runner : AgentRunner RunRequest (AgentWorld W))
      → build_agent_runner live_client config environ compatible azure ≡ ok runner
      → (session : AgentSessionHandle) (input : AgentRunInput RunRequest) (s : AgentWorld W)
      → (result : AgentRunResult) × ((runner.run session input s).0 ≡ ok result)
        × IsAnswer (credential_of config environ) session input result
  build_agent_runner-IsAnswer runner h = (build_agent_runner-AlwaysAnswers.at runner h).at
