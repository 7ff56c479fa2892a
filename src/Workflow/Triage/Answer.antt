-- ===== src/Workflow/Triage/Answer.antt =====
-- How the triage reads an agent's answer (src/runtime/orchestrator/pr_triage.py).
use qaestro.Prelude.{
  String, Bool, Option, none, some, List, [], ◌∷◌, ◌++◌, Result, ok, err, ◌>>=◌, Exception,
  if◌then◌else◌, contains, ◌⋈◌, lower, strip, text_or, is_among, split_once,
}
use qaestro.Json.{Json, null, str, arr, obj, Items, nil, cons, Fields, get_default}
use qaestro.Gateway.Values.{truthy}
use qaestro.Tools.{WorkflowStage, stage_eq, stage_value}
use qaestro.Workflow.Triage.{
  PrWorkflowDepth, noop, lightweight, normal, deep, depth_of, stage_of, PrWorkflowTriage,
  full_stages,
}

-- Python's library as the triage uses it: `json.loads`, which raises a JSONDecodeError, `str` on a
-- value that is no text, and `repr`.
pub record Python : Type 0 where
  pub loads : String → Result Exception Json
  pub str_of : Json → String
  pub repr : Json → String

abbrev pub value_error : {A : Type 0} → String → Result Exception A
value_error text = err (record { class_name = "ValueError"; message = text })

-- What stands up to the last place of the character `}`, this included.
unfoldable pub up_to_brace : String → Option String
up_to_brace String.[] = none
up_to_brace (String.◌∷◌ c s) =
    let rest = up_to_brace s in
    elim rest [
      | some part ↦ some (String.◌∷◌ c part)
      | none ↦ if is_among c "}" then some (String.◌∷◌ c String.[]) else none
    ]

-- The match of `\{.*\}`, as long as there is one, from the first brace to the last.
unfoldable pub braced : String → Option String
unfolding up_to_brace
braced s = elim (split_once "{" s) [
  | none ↦ none
  | some (before, after) ↦ elim (up_to_brace after) [ none ↦ none | some part ↦ some ("{" ⋈ part) ]
]

abbrev pub as_object : Json → Result Exception Fields
as_object (obj fs) = ok fs
as_object value = value_error "agent output JSON must be an object"

-- `_default_allowed_stages`
unfoldable pub default_allowed_stages : PrWorkflowDepth → List WorkflowStage
default_allowed_stages normal = full_stages
default_allowed_stages deep = full_stages
default_allowed_stages noop = []
default_allowed_stages lightweight = []

unfoldable pub is_allowable : WorkflowStage → Bool
is_allowable stage = contains full_stages stage

-- `dict.fromkeys`: each element at its first place; `seen` are those before.
unfoldable pub from_keys : List WorkflowStage → List WorkflowStage → List WorkflowStage
from_keys seen [] = seen
from_keys seen (x ∷ xs) =
    let old = from_keys seen xs in
    let new = from_keys (seen ++ x ∷ []) xs in if contains seen x then old else new

module _ (python : Python) where
  -- `str(value)`
  abbrev pub text_of : Json → String
  text_of (str s) = s
  text_of value = python.str_of value

  unfoldable pub json_object_from_text : String → Result Exception Fields
  json_object_from_text output_text = elim (python.loads output_text) [
    | ok parsed ↦ as_object parsed
    | err e ↦ elim (braced output_text) [
      | none ↦ value_error "agent output did not contain a JSON object"
      | some part ↦ python.loads part >>= as_object
    ]
  ]

  unfoldable pub parse_depth : Json → Result Exception PrWorkflowDepth
  parse_depth value = elim (depth_of (lower (strip (text_of value)))) [
    | none ↦ value_error ("unsupported triage depth: " ⋈ python.repr value)
    | some depth ↦ ok depth
  ]

  unfoldable pub allowed_stage : Json → Result Exception WorkflowStage
  allowed_stage item = elim (stage_of (lower (strip (text_of item)))) [
    | none ↦ value_error ("unsupported allowed stage: " ⋈ python.repr item)
    | some stage ↦
        if is_allowable stage
        then ok stage
        else value_error ("triage cannot allow workflow stage: " ⋈ stage_value stage)
  ]

  unfoldable pub stages_of_items : Items → Result Exception (List WorkflowStage)
  unfolding allowed_stage
  stages_of_items nil = ok []
  stages_of_items (cons item items) = do
    stage ← allowed_stage item
    stages ← stages_of_items items
    ok (stage ∷ stages)

  unfoldable pub parse_allowed_stages :
      Json → PrWorkflowDepth → Result Exception (List WorkflowStage)
  parse_allowed_stages null depth = ok (default_allowed_stages depth)
  parse_allowed_stages (arr items) depth = do
    stages ← stages_of_items items
    ok (from_keys [] stages)
  parse_allowed_stages value depth = value_error "allowed_stages must be a list of stage names"

  abbrev pub default_rationale : String
  default_rationale = "Agent triage selected workflow depth."

  -- `str(value or default).strip()`, and the default if this is empty.
  unfoldable pub rationale_of : Json → String
  rationale_of value =
      text_or (strip (if truthy value then text_of value else default_rationale)) default_rationale

  unfoldable pub triage_from_agent_output : String → Result Exception PrWorkflowTriage
  triage_from_agent_output output_text = do
    fs ← json_object_from_text output_text
    depth ← parse_depth (get_default "depth" null fs)
    allowed ← parse_allowed_stages (get_default "allowed_stages" null fs) depth
    ok (record {
      depth = depth;
      rationale = rationale_of (get_default "rationale" null fs);
      allowed_stages = allowed;
    })
