-- ===== src/Validator/Default.antt =====
-- The tool that the validator shows its agent by default (src/runtime/validator/agent_runtime.py).
use qaestro.Prelude.{some, [], ◌∷◌, ok, false}
use qaestro.Json.{Fields, field, end, str, obj, get_default}
use qaestro.Tools.{validator, execute, ToolCall, ToolDefinition}
use qaestro.Tools.Policy.{StageToolPolicy}
use qaestro.Tools.Adapter.{ToolAdapter, make_adapter}
use qaestro.Validator.Target.{probe_name}

-- `_api_contract_probe_not_configured`
unfoldable pub probe_not_configured : ToolCall Fields → Fields
probe_not_configured call = field "status" (str "skipped") (
    field "reason" (str "api_contract_probe_executor_not_configured")
      (field "target" (get_default "target" (str "") call.input) end))

abbrev pub text_property : Fields
text_property = field "type" (str "string") end

module _ {W : Type 0} where
  abbrev pub validation_tool : ToolDefinition Fields Fields W
  validation_tool = record {
    name = probe_name;
    capabilities = execute ∷ [];
    handler = λ call w. (ok (probe_not_configured call), w);
    description = "Run a deterministic API contract probe";
    input_schema = some (
        field "type" (str "object") (
          field "properties"
            (obj (
              field "target" (obj text_property)
                (field "method" (obj text_property) (field "path" (obj text_property) end))))
            end));
  }

abbrev pub validation_policy : StageToolPolicy
validation_policy = record {
  allowed_tools_by_stage = (validator, probe_name ∷ []) ∷ [];
  allow_destructive = false;
}

-- `build_default_validation_tool_adapter`
unfoldable pub default_tool_adapter : {W : Type 0} → ToolAdapter Fields Fields W
default_tool_adapter = make_adapter (validation_tool ∷ []) validation_policy
