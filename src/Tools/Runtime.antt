-- ===== src/Tools/Runtime.antt =====
-- `RegisteredToolRuntime` of src/runtime/tools/runtime.py.
use qaestro.Prelude.{
  String, Bool, true, false, Option, none, some, List, [], ◌∷◌, ◌++◌, Result, ok, err, Dict, lookup,
  insert, string_eq, Exception, ◌⋈◌,
}
use qaestro.Prelude.Exec.{Exec}
use qaestro.Tools.{ToolCall, ToolResult, ToolAuditEntry, ToolDefinition}
use qaestro.Tools.Policy.{StageToolPolicy, Denial, check, denial_text}

pub data ToolError : Type 0 where
  tool_not_found : String → ToolError
  denied : Denial → ToolError

-- The exception that an error is; `quoted` is `repr` of a text.
unfoldable pub tool_exception : (String → String) → ToolError → Exception
tool_exception quoted (tool_not_found name) = record {
  class_name = "ToolNotFoundError";
  message = "tool " ⋈ quoted name ⋈ " is not registered";
}
tool_exception quoted (denied denial) = record {
  class_name = "ToolPolicyError";
  message = denial_text quoted denial;
}

-- The runtime's fields, beside the world that the handlers act on.
pub record ToolRuntime (I O W : Type 0) : Type 0 where
  pub tools : Dict String (ToolDefinition I O W)
  pub policy : StageToolPolicy
  pub audit_log : List ToolAuditEntry
  pub world : W

abbrev pub audit_entry : {I : Type 0} → ToolCall I → Bool → String → ToolAuditEntry
audit_entry call done error = record {
  stage = call.stage;
  name = call.name;
  correlation_id = call.correlation_id;
  ok = done;
  error = error;
}

module _ {I O W : Type 0} where
  -- `{tool.name: tool for tool in tools}`: the last tool of a name wins.
  unfoldable pub register :
      Dict String (ToolDefinition I O W)
      → List (ToolDefinition I O W)
      → Dict String (ToolDefinition I O W)
  register d [] = d
  register d (t ∷ ts) = register (insert t.name t d) ts

  unfoldable pub make_runtime :
      List (ToolDefinition I O W) → StageToolPolicy → W → ToolRuntime I O W
  unfolding register
  make_runtime tools policy world = record {
    tools = register [] tools;
    policy = policy;
    audit_log = [];
    world = world;
  }

  -- The handler's outcome as a result, with its entry in the audit log.
  unfoldable pub finish :
      ToolCall I → Result String O × W → ToolRuntime I O W → ToolResult I O × ToolRuntime I O W
  finish call (err error, world) t = (
    record { call = call; ok = false; output = none; error = error },
    record t { audit_log = t.audit_log ++ audit_entry call false error ∷ []; world = world },
  )
  finish call (ok output, world) t = (
    record { call = call; ok = true; output = some output; error = "" },
    record t { audit_log = t.audit_log ++ audit_entry call true "" ∷ []; world = world },
  )

  unfoldable pub run_checked :
      ToolCall I
      → ToolDefinition I O W
      → Option Denial
      → Exec ToolError (ToolRuntime I O W) (ToolResult I O)
  unfolding finish
  run_checked call definition (some denial) t = (err (denied denial), t)
  run_checked call definition none t =
      let (result, t') = finish call (definition.handler call t.world) t in (ok result, t')

  unfoldable pub run_found :
      ToolCall I
      → Option (ToolDefinition I O W)
      → Exec ToolError (ToolRuntime I O W) (ToolResult I O)
  unfolding run_checked
  run_found call none t = (err (tool_not_found call.name), t)
  run_found call (some definition) t =
      run_checked call definition (check t.policy call definition) t

  unfoldable pub execute : ToolCall I → Exec ToolError (ToolRuntime I O W) (ToolResult I O)
  unfolding run_found
  execute call t = run_found call (lookup call.name t.tools) t
