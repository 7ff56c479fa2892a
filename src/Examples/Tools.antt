-- ===== src/Examples/Tools.antt =====
-- The worker's tools, one of which fails.
use qaestro.Prelude.{
  String, ◌≡◌, ◌↔◌, ◌⊎◌, true, false, none, List, [], ◌∷◌, ok, err, contains, ◌==◌, string_eq,
  raised,
}
use qaestro.Tools.{
  validator, output, stage_eq, read, write, destructive, capability_eq, ToolCall, ToolDefinition,
}
use qaestro.Tools.Policy.{allowed_tools, denial_reason}
use qaestro.Tools.WorkerPolicy.{worker_policy}
use qaestro.Tools.Runtime.{ToolRuntime, make_runtime}
use qaestro.Tools.Guarantees.{denial_reason_iff, Executed, execute-Executed}
use qaestro.Tools.Adapter.{make_adapter, tool_specs_for_stage, invoke}
use qaestro.Tools.Exposure.{names_of, invoke_iff}

denial_reason_iff_example :
    (denial_reason worker_policy output "github.pr.review.create" (write ∷ []) ≡ none) ↔ (
      (contains (allowed_tools worker_policy output) "github.pr.review.create" ≡ true)
      × ((contains (write ∷ []) destructive ≡ false) ⊎ (false ≡ true))
      × ((contains (write ∷ []) write ≡ false) ⊎ ((output == validator) ≡ false)))
denial_reason_iff_example =
    denial_reason_iff worker_policy output "github.pr.review.create" (write ∷ [])

-- The world is the list of the texts that were written.
abbrev view : ToolDefinition String String (List String)
view = record {
  name = "github.pr.view";
  capabilities = read ∷ [];
  handler = λ call w. (ok "seen", w);
  description = "";
  input_schema = none;
}

abbrev comment : ToolDefinition String String (List String)
comment = record {
  name = "github.pr.comment.create_or_update";
  capabilities = write ∷ [];
  handler = λ call w. (err "no connection", call.input ∷ w);
  description = "";
  input_schema = none;
}

abbrev runtime : ToolRuntime String String (List String)
runtime = make_runtime (view ∷ comment ∷ []) worker_policy []

abbrev comment_call : ToolCall String
comment_call = record {
  stage = output;
  name = "github.pr.comment.create_or_update";
  input = "hello";
  correlation_id = "c1";
}

execute-Executed_example : Executed comment_call runtime
execute-Executed_example = execute-Executed comment_call runtime

invoke_iff_example : (raised (invoke output "github.pr.view" "7" "c1" runtime).0 ≡ none) ↔ (
    contains
      (names_of (tool_specs_for_stage (make_adapter (view ∷ comment ∷ []) worker_policy) output))
      "github.pr.view"
    ≡ true)
invoke_iff_example =
    invoke_iff (view ∷ comment ∷ []) worker_policy [] output "github.pr.view" "7" "c1"
