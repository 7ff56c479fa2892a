-- ===== src/Tools/Policy.antt =====
-- `StageToolPolicy` of src/runtime/tools/policy.py.
use qaestro.Prelude.{
  String, Bool, not, ◌&&◌, Option, none, some, List, [], Dict, lookup, contains, ◌==◌, string_eq,
  if◌then◌else◌, sorted_by, distinct, upper, ◌⋈◌,
}
use qaestro.Tools.{
  WorkflowStage, validator, stage_eq, stage_value, ToolCapability, write, destructive,
  capability_eq, ToolCall, ToolDefinition,
}

pub record StageToolPolicy : Type 0 where
  pub allowed_tools_by_stage : Dict WorkflowStage (List String)
  pub allow_destructive : Bool

-- The reasons of a denial; `none` below is the empty text, which allows the call.
pub data Denial : Type 0 where
  not_allowed_during : String → WorkflowStage → Denial
  destructive_by_default : String → Denial
  write_during_validator : String → Denial

abbrev pub tools_or_empty : Option (List String) → List String
tools_or_empty none = []
tools_or_empty (some tools) = tools

unfoldable pub allowed_tools : StageToolPolicy → WorkflowStage → List String
allowed_tools p stage = tools_or_empty (lookup stage p.allowed_tools_by_stage)

-- `tuple(sorted(...))` of the set of the stage's tools.
unfoldable pub allowed_tool_names : StageToolPolicy → WorkflowStage → List String
allowed_tool_names p stage = sorted_by (λ name. name) (distinct (allowed_tools p stage))

unfoldable pub denial_reason :
    StageToolPolicy → WorkflowStage → String → List ToolCapability → Option Denial
denial_reason p stage name capabilities =
    if not (contains (allowed_tools p stage) name)
    then some (not_allowed_during name stage)
    else if contains capabilities destructive && not p.allow_destructive
    then some (destructive_by_default name)
    else if stage == validator && contains capabilities write
    then some (write_during_validator name)
    else none

-- `check`: the denial that it raises, if any.
unfoldable pub check :
    {I O W : Type 0} → StageToolPolicy → ToolCall I → ToolDefinition I O W → Option Denial
check p call definition = denial_reason p call.stage call.name definition.capabilities

-- `repr(stage)`
abbrev pub stage_repr : WorkflowStage → String
stage_repr stage = "<WorkflowStage." ⋈ upper (stage_value stage) ⋈ ": '" ⋈ stage_value stage ⋈ "'>"

-- The text of a denial; `quoted` is `repr` of a text.
unfoldable pub denial_text : (String → String) → Denial → String
denial_text quoted (not_allowed_during name stage) =
    "tool " ⋈ quoted name ⋈ " is not allowed during " ⋈ stage_repr stage ⋈ " stage"
denial_text quoted (destructive_by_default name) =
    "destructive tool " ⋈ quoted name ⋈ " is denied by default"
denial_text quoted (write_during_validator name) =
    "write capability on tool " ⋈ quoted name ⋈ " is denied during validator stage"
