-- ===== src/Sessions.antt =====
-- Agent sessions (src/runtime/agent/types.py and manager.py). The runner, which reaches a model
-- provider, is a parameter that acts on a world `W`; a run's input is looked at in its stage, its
-- correlation id and the names of its tools.
pub mod Manager
pub mod Keys
pub mod Closing
pub mod CloseAll
pub mod Turns
use qaestro.Prelude.{
  Exception, ℕ, ℤ, pos, String, Bool, true, false, List, Option, Dict, ◌≡◌, ◌↔◌, arith,
}
use qaestro.Prelude.Exec.{Exec}
use qaestro.Json.{Fields}
use qaestro.Contracts.{Float}
use qaestro.Tools.{WorkflowStage}
use qaestro.Tools.Adapter.{AgentFrameworkToolSpec}

pub data AgentSessionScope : Type 0 where
  workflow stage : AgentSessionScope

pub data AgentSessionStatus : Type 0 where
  active completed failed cancelled expired : AgentSessionStatus

pub data AgentRunStatus : Type 0 where
  succeeded failed timeout cancelled : AgentRunStatus

pub record AgentSessionHandle : Type 0 where
  pub session_id : String
  pub scope : AgentSessionScope
  pub repo_full_name : String
  pub pr_number : ℤ
  pub head_sha : String
  pub trigger : String
  pub correlation_id : String
  pub provider_session_id : String

-- `I` is what the runner reads beside the stage: the prompt, the context and the limits.
pub record AgentRunInput (I : Type 0) : Type 0 where
  pub stage : WorkflowStage
  pub rest : I
  pub correlation_id : String
  pub allowed_tool_names : List String

-- The rest of a run's input as the workflow fills it.
pub record RunRequest : Type 0 where
  pub prompt : String
  pub context : Option Fields
  pub allowed_tools : List AgentFrameworkToolSpec
  pub max_turns : Option ℤ
  pub max_tool_calls : Option ℤ
  pub timeout_seconds : Option Float

-- `AgentRunStatus.value`
unfoldable pub run_status_value : AgentRunStatus → String
run_status_value succeeded = "succeeded"
run_status_value failed = "failed"
run_status_value timeout = "timeout"
run_status_value cancelled = "cancelled"

pub record AgentRunResult : Type 0 where
  pub session : AgentSessionHandle
  pub stage : WorkflowStage
  pub status : AgentRunStatus
  pub output_text : String
  pub error : String
  pub allowed_tool_names : List String

pub record AgentSessionTurn : Type 0 where
  pub stage : WorkflowStage
  pub correlation_id : String
  pub status : AgentRunStatus
  pub allowed_tool_names : List String
  pub error : String

pub record AgentSessionRecord : Type 0 where
  pub handle : AgentSessionHandle
  pub status : AgentSessionStatus
  pub turns : List AgentSessionTurn
  pub termination_reason : String

abbrev pub active_status : AgentSessionStatus → Bool
active_status active = true
active_status completed = false
active_status failed = false
active_status cancelled = false
active_status expired = false

-- `AgentSessionRecord.is_active`
abbrev pub is_active : AgentSessionRecord → Bool
is_active r = active_status r.status

pub data SessionError : Type 0 where
  not_found : String → SessionError
  not_active : String → SessionError
  runner_error : Exception → SessionError

pub record AgentRunner (I W : Type 0) : Type 0 where
  pub start_session : AgentSessionHandle → Exec Exception W AgentSessionHandle
  pub run : AgentSessionHandle → AgentRunInput I → Exec Exception W AgentRunResult
  pub close_session : AgentSessionHandle → String → Exec Exception W (Unit {0})

pub record SessionManager (W : Type 0) : Type 0 where
  pub records : Dict String AgentSessionRecord
  pub next_id : ℕ
  pub world : W
