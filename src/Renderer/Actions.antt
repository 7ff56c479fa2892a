-- ===== src/Renderer/Actions.antt =====
-- The actions and the validations of the comment (src/adapters/renderers/pr_comment.py).
use qaestro.Prelude.{
  ℕ, suc, pos, String, Bool, not, ◌&&◌, ◌||◌, List, [], ◌∷◌, ◌++◌, map, if◌then◌else◌, ltb_ℤ, ◌==◌,
  string_eq, int_eq, is_nonempty, is_set, text_or, join, ◌⋈◌, upper, decimal, int_text, text_leb,
}
use qaestro.Contracts.{
  QaReport, StrategyAction, ValidationResult, Float, action_type_value, validation_outcome_value,
}
use qaestro.Renderer.Markdown.{inline_code_span, markdown_text}
use qaestro.Renderer.Sections.{spaced, ticked}

-- The order of `sorted` by `(-priority, description)`.
unfoldable pub action_leb : StrategyAction → StrategyAction → Bool
action_leb a b =
    ltb_ℤ b.priority a.priority
    || (a.priority == b.priority) && text_leb a.description b.description

unfoldable pub insert_action : StrategyAction → List StrategyAction → List StrategyAction
insert_action a [] = a ∷ []
insert_action a (b ∷ bs) =
    let rest = insert_action a bs in if action_leb a b then a ∷ (b ∷ bs) else b ∷ rest

unfoldable pub sorted_actions : List StrategyAction → List StrategyAction
unfolding insert_action
sorted_actions [] = []
sorted_actions (a ∷ rest) = insert_action a (sorted_actions rest)

unfoldable pub action_line : StrategyAction → String
action_line a =
    "- P"
    ⋈ int_text a.priority
    ⋈ " **"
    ⋈ a.description
    ⋈ "** (`"
    ⋈ action_type_value a.action_type
    ⋈ "` → `"
    ⋈ a.target
    ⋈ "`) — "
    ⋈ a.rationale

unfoldable pub action_lines : QaReport → List String
unfolding sorted_actions action_line
action_lines report =
    if not (is_nonempty report.strategy.actions)
    then "" ∷ "Evidence-backed actions: none." ∷ []
    else (""
        ∷ "Evidence-backed actions:"
        ∷ map action_line (sorted_actions report.strategy.actions))
      ++ (if is_nonempty report.strategy.knowledge_refs
          then ""
            ∷ ("Knowledge refs: " ⋈ join ", " (map ticked report.strategy.knowledge_refs))
            ∷ []
          else [])

-- The links of the artifacts, numbered from `n`.
unfoldable pub artifact_links : ℕ → List String → List String
artifact_links n [] = []
artifact_links n (a ∷ rest) =
    ("[artifact " ⋈ decimal n ⋈ "](" ⋈ a ⋈ ")") ∷ artifact_links (suc n) rest

abbrev pub is_positive : Float → Bool
is_positive f = ltb_ℤ (pos 0) f.numerator

unfoldable pub validation_result_lines : (Float → String) → ValidationResult → List String
unfolding artifact_links
validation_result_lines fixed r =
    let detail = text_or r.details r.action.rationale in
    (("- **"
        ⋈ upper (spaced (action_type_value r.action.action_type))
        ⋈ "** — "
        ⋈ r.action.description)
      ∷ ("  - Target: " ⋈ inline_code_span r.action.target)
      ∷ ("  - Outcome: **" ⋈ markdown_text (upper (validation_outcome_value r.outcome)) ⋈ "**")
      ∷ [])
    ++ (if is_positive r.duration_seconds
        then ("  - Duration: " ⋈ inline_code_span (fixed r.duration_seconds ⋈ "s")) ∷ []
        else [])
    ++ (if is_set detail then ("  - Details: " ⋈ detail) ∷ [] else [])
    ++ (if is_nonempty r.artifacts
        then ("  - Artifacts: " ⋈ join ", " (artifact_links 1 r.artifacts)) ∷ []
        else [])

unfoldable pub result_lines : (Float → String) → List ValidationResult → List String
unfolding validation_result_lines
result_lines fixed [] = []
result_lines fixed (r ∷ rs) = validation_result_lines fixed r ++ result_lines fixed rs

unfoldable pub validation_lines : (Float → String) → QaReport → List String
unfolding result_lines
validation_lines fixed report =
    if is_nonempty report.validations
    then result_lines fixed report.validations
    else "Validation not executed in this step — recommendations only." ∷ []
