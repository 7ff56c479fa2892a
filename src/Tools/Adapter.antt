-- ===== src/Tools/Adapter.antt =====
-- `AgentFrameworkToolAdapter` of src/runtime/tools/agent_framework.py.
use qaestro.Prelude.{String, Option, none, some, List, [], ◌∷◌, Dict, lookup, string_eq}
use qaestro.Prelude.Exec.{Exec}
use qaestro.Json.{str, obj, Fields, end, field}
use qaestro.Tools.{WorkflowStage, ToolCapability, ToolResult, ToolDefinition}
use qaestro.Tools.Policy.{StageToolPolicy, Denial, allowed_tool_names, denial_reason}
use qaestro.Tools.Runtime.{ToolError, ToolRuntime, register, execute}

pub record AgentFrameworkToolSpec : Type 0 where
  pub name : String
  pub description : String
  pub parameters_schema : Fields
  pub stage : WorkflowStage
  pub capabilities : List ToolCapability

-- The adapter's fields beside the runtime, which `invoke` takes.
pub record ToolAdapter (I O W : Type 0) : Type 0 where
  pub tools : Dict String (ToolDefinition I O W)
  pub policy : StageToolPolicy

module _ {I O W : Type 0} where
  unfoldable pub make_adapter : List (ToolDefinition I O W) → StageToolPolicy → ToolAdapter I O W
  make_adapter tools policy = record { tools = register [] tools; policy = policy }

-- `definition.input_schema or {"type": "object", "properties": {}}`
abbrev pub schema_or_default : Option Fields → Fields
schema_or_default none = field "type" (str "object") (field "properties" (obj end) end)
schema_or_default (some end) = field "type" (str "object") (field "properties" (obj end) end)
schema_or_default (some (field k v fs)) = field k v fs

module _ {I O W : Type 0} where
  unfoldable pub tool_spec : WorkflowStage → ToolDefinition I O W → AgentFrameworkToolSpec
  tool_spec stage definition = record {
    name = definition.name;
    description = definition.description;
    parameters_schema = schema_or_default definition.input_schema;
    stage = stage;
    capabilities = definition.capabilities;
  }

  -- A spec with the reason of a denial, if there is one.
  unfoldable pub expose :
      ToolAdapter I O W
      → WorkflowStage
      → List String
      → List (AgentFrameworkToolSpec × Option Denial)
  unfolding tool_spec
  expose a stage [] = []
  expose a stage (name ∷ names) =
      let rest = expose a stage names in
      elim (lookup name a.tools) [
        | none ↦ rest
        | some definition ↦
            (tool_spec stage definition, denial_reason a.policy stage name definition.capabilities)
            ∷ rest
      ]

  unfoldable pub tool_exposure_for_stage :
      ToolAdapter I O W → WorkflowStage → List (AgentFrameworkToolSpec × Option Denial)
  unfolding expose
  tool_exposure_for_stage a stage = expose a stage (allowed_tool_names a.policy stage)

-- `spec for spec, reason in exposures if not reason`
unfoldable pub undenied :
    List (AgentFrameworkToolSpec × Option Denial) → List AgentFrameworkToolSpec
undenied [] = []
undenied ((spec, reason) ∷ exposures) =
    let rest = undenied exposures in elim reason [ none ↦ spec ∷ rest | some denial ↦ rest ]

module _ {I O W : Type 0} where
  unfoldable pub tool_specs_for_stage :
      ToolAdapter I O W → WorkflowStage → List AgentFrameworkToolSpec
  unfolding undenied
  tool_specs_for_stage a stage = undenied (tool_exposure_for_stage a stage)

  unfoldable pub invoke :
      WorkflowStage → String → I → String → Exec ToolError (ToolRuntime I O W) (ToolResult I O)
  invoke stage name arguments correlation_id =
      execute
        (record { stage = stage; name = name; input = arguments; correlation_id = correlation_id })
