-- ===== src/Worker/Parts.antt =====
-- The parts that src/app/worker/factory.py puts together: `Worker` of src/app/worker/runner.py, the
-- orchestrators of src/runtime/orchestrator, and what each is made over. A part is what it is made
-- with. A store that is shared is the reference of its object, and `R` is the type of the runners.
-- `Worker`'s `agent_runner` and the orchestrators' parts that the factory never gives are left out.
use qaestro.Prelude.{ℕ, String, Option, none, some, List}
use qaestro.Contracts.{Float}
use qaestro.Tools.{ToolCapability}
use qaestro.Tools.Policy.{StageToolPolicy}
use qaestro.Tools.WorkerPolicy.{github_pr_tools, worker_policy}
use qaestro.GitHub.Auth.{AppAuth}
use qaestro.GitHub.Client.{ClientConfig}

-- `RegisteredToolRuntime`: the client that its tools call, and its policy.
pub record ToolRuntimeParts : Type 0 where
  pub auth : AppAuth
  pub client : ClientConfig
  pub tools : List (String × List ToolCapability)
  pub policy : StageToolPolicy

-- `_build_github_tool_runtime`
unfoldable pub build_github_tool_runtime : AppAuth × ClientConfig → ToolRuntimeParts
build_github_tool_runtime (auth, client) = record {
  auth = auth;
  client = client;
  tools = github_pr_tools;
  policy = worker_policy;
}

pub data OutputPoster : Type 0 where
  noop_output_poster : OutputPoster
  tool_runtime_pr_output_poster : ToolRuntimeParts → OutputPoster

pub data PrContextProvider : Type 0 where
  event_pr_context_provider : PrContextProvider
  tool_runtime_pr_context_provider : ToolRuntimeParts → PrContextProvider

pub data TriageClassifierParts (R : Type 0) : Type 0 where
  rule_based_triage : TriageClassifierParts R
  agent_backed_triage : R → TriageClassifierParts R

pub data ValidatorParts (R : Type 0) : Type 0 where
  stub_validator : ValidatorParts R
  agent_runtime_validator : R → ValidatorParts R

-- What `_load_ci_feedback_for_pr_event` is given beside the event.
pub record CiFeedbackParts : Type 0 where
  pub aggregate_store : ℕ
  pub check_provider : ToolRuntimeParts

pub record PrOrchestrator (R : Type 0) : Type 0 where
  pub context_provider : PrContextProvider
  pub triage_classifier : TriageClassifierParts R
  pub validator : ValidatorParts R
  pub ci_feedback_provider : Option CiFeedbackParts

pub record CiOrchestrator : Type 0 where
  pub context_provider : Option ToolRuntimeParts
  pub aggregate_store : Option ℕ

pub record EventOrchestrator (R : Type 0) : Type 0 where
  pub pr_orchestrator : PrOrchestrator R
  pub ci_orchestrator : CiOrchestrator

pub record WorkerParts (R : Type 0) : Type 0 where
  pub orchestrator : EventOrchestrator R
  pub output_poster : OutputPoster
  pub max_attempts : ℕ
  pub timeout_seconds : Option Float

-- `value or default`, for an object.
abbrev pub given_or : {A : Type 0} → A → Option A → A
given_or default none = default
given_or default (some a) = a

module _ {R : Type 0} where
  -- `PRWorkflowOrchestrator.__init__`
  unfoldable pub make_pr_orchestrator :
      Option PrContextProvider
      → Option (TriageClassifierParts R)
      → Option (ValidatorParts R)
      → Option CiFeedbackParts
      → PrOrchestrator R
  make_pr_orchestrator context triage validator ci_feedback_provider = record {
    context_provider = given_or event_pr_context_provider context;
    triage_classifier = given_or rule_based_triage triage;
    validator = given_or stub_validator validator;
    ci_feedback_provider = ci_feedback_provider;
  }

  -- `EventOrchestrator.__init__`
  unfoldable pub make_event_orchestrator :
      Option (PrOrchestrator R) → Option CiOrchestrator → EventOrchestrator R
  unfolding make_pr_orchestrator
  make_event_orchestrator pr ci = record {
    pr_orchestrator = given_or (make_pr_orchestrator none none none none) pr;
    ci_orchestrator = given_or (record { context_provider = none; aggregate_store = none }) ci;
  }

  -- `Worker.__init__` with the default of three attempts, which passes its check.
  unfoldable pub make_worker : Option (EventOrchestrator R) → Option OutputPoster → WorkerParts R
  unfolding make_event_orchestrator
  make_worker orchestrator output_poster = record {
    orchestrator = given_or (make_event_orchestrator none none) orchestrator;
    output_poster = given_or noop_output_poster output_poster;
    max_attempts = 3;
    timeout_seconds = none;
  }
