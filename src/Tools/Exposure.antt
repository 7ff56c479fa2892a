-- ===== src/Tools/Exposure.antt =====
-- The tools that an agent is shown are those that it can run.
use qaestro.Prelude.{
  String, Bool, true, false, ◌&&◌, ◌≡◌, refl, ◌↔◌, Option, none, some, List, [], ◌∷◌, map, is_some,
  not, Dict, lookup, insert, lookup-insert, contains, ◌==◌, string_eq, eq_iff, Bool-cases,
  Option-cases, inl, inr, arith, raised, distinct, contains-sorted_by, contains-distinct, ◌∙◌, ◌||◌,
  ap, sym,
}
use qaestro.Tools.{WorkflowStage, ToolDefinition}
use qaestro.Tools.Policy.{
  StageToolPolicy, Denial, allowed_tools, allowed_tool_names, denial_reason, check,
}
use qaestro.Tools.Runtime.{register, make_runtime, execute, run_found, run_checked}
use qaestro.Tools.Adapter.{
  ToolAdapter, AgentFrameworkToolSpec, make_adapter, tool_spec, expose, undenied,
  tool_exposure_for_stage, tool_specs_for_stage, invoke,
}

abbrev pub names_of : List AgentFrameworkToolSpec → List String
names_of specs = map (λ s. s.name) specs

and_true : (b : Bool) → (b && true) ≡ b
and_true true = refl
and_true false = refl

module _ {I O W : Type 0} where
  -- Each definition stands under its own name.
  abbrev IsNamed : Dict String (ToolDefinition I O W) → Type 0
  IsNamed d = (name : String) (t : ToolDefinition I O W) → lookup name d ≡ some t → t.name ≡ name

  register-IsNamed :
      (ts : List (ToolDefinition I O W)) (d : Dict String (ToolDefinition I O W))
      → IsNamed d
      → IsNamed (register d ts)
  unfolding register
  register-IsNamed [] d h = h
  register-IsNamed (t ∷ ts) d h = register-IsNamed ts (insert t.name t d) (λ name u found.
      elim (Bool-cases (t.name == name)) [
        | inl same ↦ cc ((eq_iff t.name name).0 same, rw (lookup-insert, same) at found)
        | inr other ↦ h name u (rw (lookup-insert, other) at found)
      ])

  is_shown : StageToolPolicy → WorkflowStage → String → Option (ToolDefinition I O W) → Bool
  is_shown policy stage name none = false
  is_shown policy stage name (some t) =
      not (is_some (denial_reason policy stage name t.capabilities))

  head_shown :
      (policy : StageToolPolicy) (stage : WorkflowStage) (m n : String)
      (o : Option (ToolDefinition I O W)) (rest : List (AgentFrameworkToolSpec × Option Denial))
      → ((t : ToolDefinition I O W) → o ≡ some t → t.name ≡ m)
      → contains
          (names_of (
            undenied (elim o [
              | none ↦ rest
              | some t ↦ (tool_spec stage t, denial_reason policy stage m t.capabilities) ∷ rest
            ])))
          n
        ≡ ((m == n) && is_shown policy stage m o || contains (names_of (undenied rest)) n)
  unfolding undenied is_shown tool_spec
  head_shown policy stage m n none rest named = ground arith
  head_shown policy stage m n (some t) rest named =
      elim (Option-cases (denial_reason policy stage m t.capabilities)) [
        | inl h ↦ rw h (
            rw (named t refl)
              (ap (λ b. b || contains (names_of (undenied rest)) n) (sym (and_true (m == n)))))
        | inr (d, h) ↦ rw h (ground arith)
      ]

  contains-names_of :
      (a : ToolAdapter I O W) (stage : WorkflowStage) (names : List String) (n : String)
      → IsNamed a.tools
      → contains (names_of (undenied (expose a stage names))) n
        ≡ (contains names n && is_shown a.policy stage n (lookup n a.tools))
  unfolding expose undenied
  contains-names_of a stage [] n named = refl
  contains-names_of a stage (m ∷ names) n named =
      head_shown a.policy stage m n (lookup m a.tools) (expose a stage names) (named m)
      ∙ rw (contains-names_of a stage names n named) (elim (Bool-cases (m == n)) [
        | inl same ↦ rw same (rw ((eq_iff m n).0 same) (ground arith))
        | inr other ↦ rw other refl
      ])

  execute_raised :
      (tools : List (ToolDefinition I O W)) (policy : StageToolPolicy) (world : W)
      (stage : WorkflowStage) (n : String) (arguments : I) (id : String)
      → (raised (invoke stage n arguments id (make_runtime tools policy world)).0 ≡ none)
        ↔ (is_shown policy stage n (lookup n (register [] tools)) ≡ true)
  unfolding invoke make_runtime execute run_found is_shown check run_checked
  execute_raised tools policy world stage n arguments id =
      elim (Option-cases (lookup n (register [] tools))) [
        | inl h ↦ rw h (ground arith)
        | inr (t, h) ↦ rw h (elim (Option-cases (denial_reason policy stage n t.capabilities)) [
          | inl k ↦ rw k (ground arith)
          | inr (d, k) ↦ rw k (ground arith)
        ])
      ]

  shown_allowed :
      (policy : StageToolPolicy) (stage : WorkflowStage) (n : String)
      (o : Option (ToolDefinition I O W))
      → (contains (allowed_tools policy stage) n && is_shown policy stage n o)
        ≡ is_shown policy stage n o
  unfolding is_shown denial_reason
  shown_allowed policy stage n none = ground arith
  shown_allowed policy stage n (some t) =
      elim (Bool-cases (contains (allowed_tools policy stage) n)) [
        | inl h ↦ rw h refl
        | inr h ↦ rw h refl
      ]

  -- An agent is shown exactly the tools that it can run: the call of a tool raises nothing exactly
  -- if a spec of the stage has its name.
  pub invoke_iff :
      (tools : List (ToolDefinition I O W)) (policy : StageToolPolicy) (world : W)
      (stage : WorkflowStage) (n : String) (arguments : I) (id : String)
      → (raised (invoke stage n arguments id (make_runtime tools policy world)).0 ≡ none)
        ↔ (contains (names_of (tool_specs_for_stage (make_adapter tools policy) stage)) n ≡ true)
  unfolding tool_specs_for_stage tool_exposure_for_stage make_adapter lookup allowed_tool_names
  invoke_iff tools policy world stage n arguments id =
      rw
        (
          contains-names_of (make_adapter tools policy) stage (allowed_tool_names policy stage) n
              (register-IsNamed tools [] (λ name t found. cc found)),
          contains-sorted_by (λ name. name) (distinct (allowed_tools policy stage)) n,
          contains-distinct (allowed_tools policy stage) n,
          shown_allowed policy stage n (lookup n (register [] tools)),
        )
        (execute_raised tools policy world stage n arguments id)
