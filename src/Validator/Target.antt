-- ===== src/Validator/Target.antt =====
-- Which probes may run (src/runtime/validator/agent_runtime.py).
use qaestro.Prelude.{
  String, Bool, not, ◌&&◌, Option, none, some, List, [], ◌∷◌, map, filter, contains, ◌==◌,
  string_eq, if◌then◌else◌, ◌⋈◌, join, strip, is_set, upper, starts_with, split_word, sorted_by,
  ltb_ℤ, pos, is_nonempty,
}
use qaestro.Contracts.{PrEvent, StrategyAction, Float}
use qaestro.Tools.{write, destructive, capability_value, capability_eq}
use qaestro.Tools.Policy.{Denial, denial_text}
use qaestro.Tools.Adapter.{AgentFrameworkToolSpec}
use qaestro.Validator.{ApiContractProbeRequest}

abbrev pub probe_name : String
probe_name = "validation.api_contract.probe"

abbrev pub supported_api_methods : List String
supported_api_methods = "GET" ∷ "POST" ∷ "PUT" ∷ "PATCH" ∷ "DELETE" ∷ "HEAD" ∷ "OPTIONS" ∷ []

abbrev pub auto_run_api_methods : List String
auto_run_api_methods = "GET" ∷ "HEAD" ∷ "OPTIONS" ∷ []

-- The checks on the two parts of a target.
abbrev pub target_of_parts : Option (String × String) → Option (String × String)
target_of_parts none = none
target_of_parts (some (first, rest)) =
    let method = upper first in
    let path = strip rest in
    if not (contains supported_api_methods method)
    then none
    else if not (starts_with "/" path)
    then none
    else some (method, path)

-- `_parse_api_contract_target`
unfoldable pub parse_api_contract_target : String → Option (String × String)
parse_api_contract_target target = target_of_parts (split_word (strip target))

-- `_api_contract_probe_request`
unfoldable pub api_contract_probe_request :
    PrEvent → StrategyAction → Float → Option ApiContractProbeRequest
api_contract_probe_request event action timeout_seconds =
    elim (parse_api_contract_target action.target) [
      | none ↦ none
      | some (method, path) ↦ some (record {
        action = action;
        target = action.target;
        method = method;
        path = path;
        repo_full_name = event.repo_full_name;
        pr_number = event.pr_number;
        head_sha = event.head_sha;
        correlation_id = event.meta.correlation_id;
        timeout_seconds = timeout_seconds;
      })
    ]

-- `_api_contract_target_policy_denial`
unfoldable pub target_policy_denial : ApiContractProbeRequest → String
target_policy_denial request =
    if contains auto_run_api_methods request.method
    then ""
    else "needs_approval: write-like API contract probe is not auto-run in Step 6 MVP; method "
      ⋈ request.method
      ⋈ " for "
      ⋈ request.path
      ⋈ " requires explicit approval or a later safe executor policy. Auto-run methods: "
      ⋈ join ", " auto_run_api_methods
      ⋈ "."

-- `_find_tool_exposure`
unfoldable pub find_tool_exposure :
    String
    → List (AgentFrameworkToolSpec × Option Denial)
    → Option (AgentFrameworkToolSpec × Option Denial)
find_tool_exposure name [] = none
find_tool_exposure name ((spec, reason) ∷ exposures) =
    let rest = find_tool_exposure name exposures in
    if spec.name == name then some (spec, reason) else rest

abbrev pub denied_capabilities : AgentFrameworkToolSpec → List String
denied_capabilities spec =
    sorted_by (λ v. v)
      (map capability_value (filter (λ c. contains (write ∷ destructive ∷ []) c) spec.capabilities))

-- `_probe_definition_policy_denial`
unfoldable pub probe_policy_denial :
    (String → String) → AgentFrameworkToolSpec → Option Denial → String
probe_policy_denial quoted spec (some reason) = "policy_denied: " ⋈ denial_text quoted reason ⋈ "."
probe_policy_denial quoted spec none =
    if is_nonempty (denied_capabilities spec)
    then "policy_denied: validation probe definition includes "
      ⋈ join ", " (denied_capabilities spec)
      ⋈ " capability; Step 6 MVP only auto-runs read-only execution probes."
    else ""

-- `_has_complete_pr_event_context`
unfoldable pub has_complete_pr_event_context : PrEvent → Bool
has_complete_pr_event_context event =
    is_set (strip event.repo_full_name)
    && ltb_ℤ (pos 0) event.pr_number
    && is_set (strip event.head_sha)
    && is_set (strip event.meta.correlation_id)
