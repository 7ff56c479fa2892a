-- ===== src/Worker/Factory.antt =====
-- How the worker is wired (src/app/worker/factory.py).
use qaestro.Prelude.{
  ℕ, ℤ, pos, String, Bool, true, false, Option, none, some, ◌≡◌, refl, sym, ap, subst, ◌∙◌, ok_inj,
  inl, inr, Result, ok, err, ◌>>=◌, ◌>>◌, Exception, if◌then◌else◌, ltb_ℤ, ◌==◌, string_eq, ◌⋈◌,
  join, is_set, Bool-cases, bind_ok, guard, rstrip_chars,
}
use qaestro.Worker.Parts.{
  ToolRuntimeParts, build_github_tool_runtime, WorkerParts, tool_runtime_pr_output_poster,
  tool_runtime_pr_context_provider, agent_backed_triage, agent_runtime_validator,
  make_pr_orchestrator, make_event_orchestrator, make_worker,
}
use qaestro.Tools.WorkerPolicy.{github_pr_tools, worker_policy}
use qaestro.Sessions.{AgentRunner, RunRequest}
use qaestro.Config.{AppConfig}
use qaestro.GitHub.Auth.{AppAuth, make_auth}
use qaestro.GitHub.Client.{ClientConfig, make_config}
use qaestro.Agent.Health.{HealthResult, is_unsupported, check_agent_runtime_health}
use qaestro.Agent.Runner.{ChatClient}
use qaestro.Agent.Build.{AgentWorld, build_agent_runner}

-- `check_worker_agent_runtime_health`
unfoldable pub check_worker_agent_runtime_health :
    AppConfig → (String → Option String) → Bool → Result Exception HealthResult
check_worker_agent_runtime_health cfg environ opt_in_live_smoke =
    let health = check_agent_runtime_health cfg.agent_runtime environ opt_in_live_smoke in
    if is_unsupported health
    then err (record {
      class_name = "AgentRuntimeUnavailableError";
      message = "Agent Runtime configuration is unsupported: " ⋈ join "; " health.actionable_errors;
    })
    else ok health

abbrev pub required_setting : Bool → String → Result Exception (Unit {0})
required_setting test name = guard test (record {
  class_name = "ValueError";
  message = name ⋈ " must be set for durable worker queues";
})

-- `_build_github_client`; `read_text` reads a file.
unfoldable pub build_github_client :
    (String → Result Exception String) → AppConfig → Result Exception (AppAuth × ClientConfig)
build_github_client read_text cfg = do
  required_setting (ltb_ℤ (pos 0) cfg.github_app_id) "QAESTRO_GITHUB_APP_ID"
  required_setting (ltb_ℤ (pos 0) cfg.github_app_installation_id)
      "QAESTRO_GITHUB_APP_INSTALLATION_ID"
  required_setting (is_set cfg.github_app_private_key_path) "QAESTRO_GITHUB_APP_PRIVATE_KEY_PATH"
  private_key ← read_text cfg.github_app_private_key_path
  auth ←
      make_auth cfg.github_app_id private_key cfg.github_app_installation_id
        "https://api.github.com"
  ok (auth, make_config "https://api.github.com" "qaestro")

pub record IsValidAuth (auth : AppAuth) : Type 0 where
  key_set : is_set auth.private_key ≡ true
  app_set : ltb_ℤ (pos 0) auth.app_id ≡ true
  installation_set : ltb_ℤ (pos 0) auth.installation_id ≡ true

make_auth-valid :
    (app_id : ℤ) (private_key : String) (installation_id : ℤ) (base : String) (auth : AppAuth)
    → make_auth app_id private_key installation_id base ≡ ok auth
    → IsValidAuth auth
      × (auth ≡ record {
        app_id = app_id;
        private_key = private_key;
        installation_id = installation_id;
        api_base = rstrip_chars "/" base;
      })
unfolding make_auth
make_auth-valid app_id private_key installation_id base auth h =
    elim (Bool-cases (ltb_ℤ (pos 0) app_id)) [
      | inr a ↦ (let no : Path (Result Exception AppAuth) (err _) (ok auth) = rw a at h in cc)
      | inl a ↦ elim (Bool-cases (ltb_ℤ (pos 0) installation_id)) [
        | inr b ↦
            (let no : Path (Result Exception AppAuth) (err _) (ok auth) = rw (a, b) at h in cc)
        | inl b ↦ elim (Bool-cases (is_set private_key)) [
          | inr c ↦
              (let no : Path (Result Exception AppAuth) (err _) (ok auth) = rw (a, b, c) at h in cc)
          | inl c ↦
              (let made = ok_inj (rw (a, b, c) at h) in
                (
                  subst IsValidAuth made
                      (record { key_set = c; app_set = a; installation_set = b }),
                  sym made,
                ))
        ]
      ]
    ]

client_auth :
    (read_text : String → Result Exception String) (cfg : AppConfig) (p : AppAuth × ClientConfig)
    → build_github_client read_text cfg ≡ ok p
    → (key : String) × (read_text cfg.github_app_private_key_path ≡ ok key)
      × (make_auth cfg.github_app_id key cfg.github_app_installation_id "https://api.github.com"
          ≡ ok p.0)
unfolding build_github_client
client_auth read_text cfg p h =
    let (u₁, set₁, h₁) =
      bind_ok (required_setting (ltb_ℤ (pos 0) cfg.github_app_id) "QAESTRO_GITHUB_APP_ID") _ p h in
    let (u₂, set₂, h₂) =
      bind_ok
        (required_setting (ltb_ℤ (pos 0) cfg.github_app_installation_id)
          "QAESTRO_GITHUB_APP_INSTALLATION_ID")
        _ p h₁ in
    let (u₃, set₃, h₃) =
      bind_ok
        (required_setting (is_set cfg.github_app_private_key_path)
          "QAESTRO_GITHUB_APP_PRIVATE_KEY_PATH")
        _ p h₂ in
    let (key, key_read, h₄) = bind_ok (read_text cfg.github_app_private_key_path) _ p h₃ in
    let (auth, made, h₅) =
      bind_ok
        (make_auth cfg.github_app_id key cfg.github_app_installation_id "https://api.github.com") _
        p h₄ in
    (key, key_read, made ∙ ap (λ q. ok q.0) (ok_inj h₅))

module _ {W : Type 0} (read_text : String → Result Exception String)
    (live_client : String → ChatClient W) (environ : String → Option String) (new_store : ℕ) where
  -- The runners that the factory builds.
  abbrev pub Runner : Type 0
  Runner = AgentRunner RunRequest (AgentWorld W)

  -- `_build_validation_agent_runner`
  abbrev pub build_validation_agent_runner : AppConfig → Result Exception Runner
  build_validation_agent_runner cfg =
      build_agent_runner live_client cfg.agent_runtime environ none none

  -- `new_store` is the reference of the `InMemoryPRAggregateStore` that is made.
  unfoldable pub build_worker : AppConfig → Result Exception (WorkerParts Runner)
  build_worker cfg = if cfg.queue_backend == "memory" then ok (make_worker none none) else (do
    client ← build_github_client read_text cfg
    let tool_runtime = build_github_tool_runtime client
    agent_runner ← build_validation_agent_runner cfg
    ok (
        make_worker
          (some (
            make_event_orchestrator
              (some (
                make_pr_orchestrator (some (tool_runtime_pr_context_provider tool_runtime))
                  (some (agent_backed_triage agent_runner))
                  (some (agent_runtime_validator agent_runner))
                  (some (record { aggregate_store = new_store; check_provider = tool_runtime }))))
              (some (record {
                context_provider = some tool_runtime;
                aggregate_store = some new_store;
              }))))
          (some (tool_runtime_pr_output_poster tool_runtime))))

  -- A worker that posts over one tool runtime, which its context, its checks and its CI runs are
  -- read over too, as the app that the configuration names and with the key of the file that it
  -- names; whose triage and validator run with the runner of the configuration; and whose CI
  -- feedback reads the store that its CI events are recorded in.
  pub record IsWired (cfg : AppConfig) (worker : WorkerParts Runner) : Type 0 where
    runtime : ToolRuntimeParts
    runner : Runner
    store : ℕ
    posts : worker.output_poster ≡ tool_runtime_pr_output_poster runtime
    reads_pr :
        worker.orchestrator.pr_orchestrator.context_provider
        ≡ tool_runtime_pr_context_provider runtime
    reads_ci : worker.orchestrator.ci_orchestrator.context_provider ≡ some runtime
    feeds_back :
        worker.orchestrator.pr_orchestrator.ci_feedback_provider
        ≡ some (record { aggregate_store = store; check_provider = runtime })
    records : worker.orchestrator.ci_orchestrator.aggregate_store ≡ some store
    triages : worker.orchestrator.pr_orchestrator.triage_classifier ≡ agent_backed_triage runner
    validates : worker.orchestrator.pr_orchestrator.validator ≡ agent_runtime_validator runner
    runner_built : build_validation_agent_runner cfg ≡ ok runner
    has_tools : runtime.tools ≡ github_pr_tools
    has_policy : runtime.policy ≡ worker_policy
    of_app : runtime.auth.app_id ≡ cfg.github_app_id
    of_installation : runtime.auth.installation_id ≡ cfg.github_app_installation_id
    key_read : read_text cfg.github_app_private_key_path ≡ ok runtime.auth.private_key
    is_valid : IsValidAuth runtime.auth

  -- A worker that is built for a durable queue posts over the GitHub tools, under the worker's
  -- policy, as the app and with the key that the configuration names; the same tool runtime gives
  -- its context and its checks, the same runner its triage and its validator, and its CI feedback
  -- reads the store that its CI events are recorded in.
  pub build_worker-IsWired :
      (cfg : AppConfig) (worker : WorkerParts Runner)
      → build_worker cfg ≡ ok worker
      → (cfg.queue_backend == "memory") ≡ false
      → IsWired cfg worker
  unfolding build_worker make_worker make_event_orchestrator make_pr_orchestrator
      build_github_tool_runtime
  build_worker-IsWired cfg worker h durable =
      let ((auth, config), client_built, h₁) =
        bind_ok (build_github_client read_text cfg) _ worker (rw durable at h) in
      let (runner, runner_built, h₂) = bind_ok (build_validation_agent_runner cfg) _ worker h₁ in
      let (key, key_read, made) = client_auth read_text cfg (auth, config) client_built in
      let (valid, same) =
        make_auth-valid cfg.github_app_id key cfg.github_app_installation_id _ auth made in
      subst (IsWired cfg) (ok_inj h₂) (record {
        runtime = build_github_tool_runtime (auth, config);
        runner = runner;
        store = new_store;
        posts = refl;
        reads_pr = refl;
        reads_ci = refl;
        feeds_back = refl;
        records = refl;
        triages = refl;
        validates = refl;
        runner_built = runner_built;
        has_tools = refl;
        has_policy = refl;
        of_app = ap AppAuth.app_id same;
        of_installation = ap AppAuth.installation_id same;
        key_read = key_read ∙ ap (λ a. ok (AppAuth.private_key a)) (sym same);
        is_valid = valid;
      })
