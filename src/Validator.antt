-- ===== src/Validator.antt =====
-- The PR validator of src/runtime/validator/agent_runtime.py. The executor of the probes, the agents'
-- runner and the clock act on a world `W`.
pub mod Target
pub mod Details
pub mod Run
pub mod Probes
pub mod Closing
pub mod Default
use qaestro.Prelude.{
  ℤ, pos, String, Bool, Option, List, [], Result, ok, err, Exception, if◌then◌else◌, ltb_ℤ, ◌⋈◌,
}
use qaestro.Prelude.Exec.{Exec}
use qaestro.Contracts.{Float, StrategyAction, ValidationOutcome, skipped}
use qaestro.Json.{Fields}
use qaestro.Tools.Adapter.{ToolAdapter}
use qaestro.Sessions.{AgentRunner, RunRequest}

pub record RuntimeValidationBudget : Type 0 where
  pub max_turns : ℤ
  pub max_tool_calls : ℤ
  pub timeout_seconds : Float

abbrev value_error : {A : Type 0} → String → Result Exception A
value_error text = err (record { class_name = "ValueError"; message = text })

-- `RuntimeValidationBudget(...)`
unfoldable make_budget : ℤ → ℤ → Float → Result Exception RuntimeValidationBudget
make_budget max_turns max_tool_calls timeout_seconds =
    if ltb_ℤ max_turns (pos 1)
    then value_error "max_turns must be >= 1"
    else if ltb_ℤ max_tool_calls (pos 0)
    then value_error "max_tool_calls must be >= 0"
    else if ltb_ℤ (pos 0) timeout_seconds.numerator
    then ok (record {
      max_turns = max_turns;
      max_tool_calls = max_tool_calls;
      timeout_seconds = timeout_seconds;
    })
    else value_error "timeout_seconds must be > 0"

pub record ApiContractProbeRequest : Type 0 where
  pub action : StrategyAction
  pub target : String
  pub method : String
  pub path : String
  pub repo_full_name : String
  pub pr_number : ℤ
  pub head_sha : String
  pub correlation_id : String
  pub timeout_seconds : Float

pub record ApiContractProbeResult : Type 0 where
  pub outcome : ValidationOutcome
  pub details : String
  pub duration_seconds : Float
  pub artifacts : List String

-- `APIContractProbeResult(...)`
unfoldable make_probe_result :
    ValidationOutcome → String → Float → List String → Result Exception ApiContractProbeResult
make_probe_result outcome details duration_seconds artifacts =
    if ltb_ℤ duration_seconds.numerator (pos 0)
    then value_error "duration_seconds must be >= 0"
    else ok (record {
      outcome = outcome;
      details = details;
      duration_seconds = duration_seconds;
      artifacts = artifacts;
    })

-- `SkippingAPIContractProbeExecutor.execute`
unfoldable pub skipping_execute : ApiContractProbeRequest → ApiContractProbeResult
skipping_execute request = record {
  outcome = skipped;
  details =
      "api_contract_probe_skipped: no non-live executor configured for " ⋈ request.method ⋈ " "
      ⋈ request.path ⋈ ".";
  duration_seconds = record { numerator = pos 0; exponent = 0 };
  artifacts = [];
}

-- What a validator is given: its fields, and of Python `repr` of a text, `isinstance(e,
-- TimeoutError)`, the clock with the difference of two of its times, and the prompts' files.
pub record Validator (W : Type 0) : Type 0 where
  pub runner : AgentRunner RunRequest W
  pub tool_adapter : ToolAdapter Fields Fields W
  pub execute : ApiContractProbeRequest → Exec Exception W ApiContractProbeResult
  pub budget : RuntimeValidationBudget
  pub quoted : String → String
  pub is_timeout : Exception → Bool
  pub monotonic : W → Float × W
  pub minus : Float → Float → Float
  pub prompt_dir : String
  pub read_text : String → Option String
