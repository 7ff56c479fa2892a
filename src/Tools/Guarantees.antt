-- ===== src/Tools/Guarantees.antt =====
-- What the policy keeps from running, and what the audit log shows.
use qaestro.Prelude.{
  String, ◌≡◌, refl, ◌⊎◌, ◌↔◌, inl, inr, true, false, none, some, List, [], ◌∷◌, ◌++◌, Result, ok,
  err, contains, ◌==◌, string_eq, arith, lookup, Option-cases, All,
}
use qaestro.Tools.{
  WorkflowStage, context, triage, analyzer, strategy, renderer, validator, output, stage_eq,
  ToolCapability, write, destructive, capability_eq, ToolCall, ToolResult, ToolDefinition,
}
use qaestro.Tools.Policy.{StageToolPolicy, Denial, allowed_tools, denial_reason, check}
use qaestro.Tools.WorkerPolicy.{worker_policy, github_pr_tools}
use qaestro.Tools.Runtime.{
  ToolRuntime, ToolError, tool_not_found, denied, audit_entry, finish, run_checked, run_found,
  execute,
}

-- A call is allowed exactly if the stage lists the tool, the tool is not destructive or destructive
-- tools are allowed, and it does not write or the stage is not the validator's.
pub denial_reason_iff :
    (p : StageToolPolicy) (stage : WorkflowStage) (name : String)
    (capabilities : List ToolCapability)
    → (denial_reason p stage name capabilities ≡ none) ↔ (
        (contains (allowed_tools p stage) name ≡ true)
        × ((contains capabilities destructive ≡ false) ⊎ (p.allow_destructive ≡ true))
        × ((contains capabilities write ≡ false) ⊎ ((stage == validator) ≡ false)))
unfolding denial_reason allowed_tools lookup
denial_reason_iff p stage name capabilities = ground arith

-- The result of a call whose handler raised an error, or returned a value.
abbrev pub IsOutcome : {I O : Type 0} → ToolCall I → Result String O → ToolResult I O → Type 0
IsOutcome call (err error) r =
    (r.call ≡ call) × ((r.ok ≡ false) × ((r.output ≡ none) × (r.error ≡ error)))
IsOutcome call (ok value) r =
    (r.call ≡ call) × ((r.ok ≡ true) × ((r.output ≡ some value) × (r.error ≡ "")))

module _ {I O W : Type 0} (call : ToolCall I) (t : ToolRuntime I O W) where
  -- What the world is after a call: either the call raises and changes nothing at all, audit log
  -- included, or the tool is registered and allowed, its handler has run once, the result is what the
  -- handler gave, and the log has one more entry, which tells whether the handler raised.
  pub data Executed : Type 0 where
    refused : (e : ToolError) → execute call t ≡ (err e, t) → Executed
    ran :
        (d : ToolDefinition I O W) (r : ToolResult I O)
        → lookup call.name t.tools ≡ some d
        → denial_reason t.policy call.stage call.name d.capabilities ≡ none
        → IsOutcome call (d.handler call t.world).0 r
        → execute call t ≡ (
          ok r,
          record t {
            audit_log = t.audit_log ++ audit_entry call r.ok r.error ∷ [];
            world = (d.handler call t.world).1;
          },
        )
        → Executed

module _ {I O W : Type 0} (call : ToolCall I) (t : ToolRuntime I O W) where
  execute_missing :
      lookup call.name t.tools ≡ none → execute call t ≡ (err (tool_not_found call.name), t)
  unfolding execute
  execute_missing missing = rw (missing, run_found) refl

  execute_denied :
      (d : ToolDefinition I O W) (why : Denial)
      → lookup call.name t.tools ≡ some d
      → denial_reason t.policy call.stage call.name d.capabilities ≡ some why
      → execute call t ≡ (err (denied why), t)
  unfolding execute check
  execute_denied d why found denial = rw (found, run_found, denial, run_checked) refl

  finish-world :
      (p : Result String O × W)
      → (finish call p t).1 ≡ record t {
        audit_log =
            t.audit_log ++ audit_entry call (finish call p t).0.ok (finish call p t).0.error ∷ [];
        world = p.1;
      }
  unfolding finish
  finish-world (err error, world) = refl
  finish-world (ok value, world) = refl

  finish-IsOutcome : (p : Result String O × W) → IsOutcome call p.0 (finish call p t).0
  unfolding finish
  finish-IsOutcome (err error, world) = (refl, (refl, (refl, refl)))
  finish-IsOutcome (ok value, world) = (refl, (refl, (refl, refl)))

  execute_allowed :
      (d : ToolDefinition I O W)
      → lookup call.name t.tools ≡ some d
      → denial_reason t.policy call.stage call.name d.capabilities ≡ none
      → let r = (finish call (d.handler call t.world) t).0 in
        execute call t ≡ (
          ok r,
          record t {
            audit_log = t.audit_log ++ audit_entry call r.ok r.error ∷ [];
            world = (d.handler call t.world).1;
          },
        )
  unfolding execute check
  execute_allowed d found allowed =
      rw (found, run_found, allowed, run_checked)
        (rw (← finish-world (d.handler call t.world)) refl)

-- A call either raises (the tool is unknown, or its policy denies it) and changes nothing, or is of a
-- registered tool that the policy allows: then its handler runs once, the result is the value that
-- the handler returned or the error that it raised, and the audit log has one more entry, which says
-- whether the handler raised and why.
pub execute-Executed :
    {I O W : Type 0} (call : ToolCall I) (t : ToolRuntime I O W) → Executed call t
execute-Executed call t = elim (Option-cases (lookup call.name t.tools)) [
  | inl missing ↦ refused (tool_not_found call.name) (execute_missing call t missing)
  | inr (d, found) ↦
      elim (Option-cases (denial_reason t.policy call.stage call.name d.capabilities)) [
        | inl allowed ↦
            ran d (finish call (d.handler call t.world) t).0 found allowed
              (finish-IsOutcome call t (d.handler call t.world))
              (execute_allowed call t d found allowed)
        | inr (why, denial) ↦ refused (denied why) (execute_denied call t d why found denial)
      ]
]

-- The worker's policy lets its GitHub tools write in the output stage only, and allows none of them
-- outside the context and the output stage.
denial_reason-worker_policy :
    (stage : WorkflowStage)
    → All
        (λ tool.
          denial_reason worker_policy stage tool.0 tool.1 ≡ none
          → ((stage ≡ output) ⊎ ((stage ≡ context) × (contains tool.1 write ≡ false))))
        github_pr_tools
unfolding denial_reason allowed_tools lookup
denial_reason-worker_policy context = ground arith
denial_reason-worker_policy output = ground arith
denial_reason-worker_policy triage = ground arith
denial_reason-worker_policy analyzer = ground arith
denial_reason-worker_policy strategy = ground arith
denial_reason-worker_policy validator = ground arith
denial_reason-worker_policy renderer = ground arith
