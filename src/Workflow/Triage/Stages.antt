-- ===== src/Workflow/Triage/Stages.antt =====
-- The stages that a triage allows.
use qaestro.Prelude.{
  String, true, ◌≡◌, refl, List, [], ◌∷◌, ◌++◌, Result, ok, err, Exception, contains, All,
  All-append, Distinct, Distinct-snoc, Bool-cases, Option-cases, Result-cases, inl, inr, Ensures,
  Ensures-bind, Ensures-ok, Ensures-err, Ensures-then, lower, strip, ◌⋈◌,
}
use qaestro.Json.{
  Json, null, bool, int, float, not_finite, str, arr, obj, Items, nil, cons, get_default,
}
use qaestro.Tools.{WorkflowStage, stage_eq}
use qaestro.Sessions.{AgentRunner, AgentRunResult, RunRequest, succeeded, run_status_value}
use qaestro.Analyzer.{PrAnalysisContext}
use qaestro.Workflow.Triage.{
  PrWorkflowDepth, noop, lightweight, normal, deep, PrWorkflowTriage, stage_of,
}
use qaestro.Workflow.Triage.Answer.{
  Python, from_keys, is_allowable, default_allowed_stages, allowed_stage, stages_of_items,
  parse_allowed_stages, parse_depth, json_object_from_text, triage_from_agent_output, text_of,
}
use qaestro.Workflow.Triage.Agent.{
  TriageClassifier, triage_of_answer, triage_of_result, triage_of_turn, triage_attempt,
  fallback_triage, classify_by_agent,
}

abbrev pub IsAllowable : WorkflowStage → Type 0
IsAllowable stage = is_allowable stage ≡ true

-- Only analyzer, strategy and validator, none twice.
abbrev pub IsAllowed : List WorkflowStage → Type 0
IsAllowed stages = All IsAllowable stages × Distinct stages

from_keys-IsAllowed :
    (seen xs : List WorkflowStage)
    → IsAllowed seen
    → All IsAllowable xs
    → IsAllowed (from_keys seen xs)
unfolding from_keys
from_keys-IsAllowed seen [] h a = h
from_keys-IsAllowed seen (x ∷ xs) h a = elim (Bool-cases (contains seen x)) [
  | inl old ↦ rw old (from_keys-IsAllowed seen xs h a.1)
  | inr new ↦ rw new (
      from_keys-IsAllowed (seen ++ x ∷ []) xs
        (All-append IsAllowable seen (x ∷ []) h.0 (a.0, tt), Distinct-snoc seen x h.1 new) a.1)
]

default_allowed_stages-IsAllowed :
    (depth : PrWorkflowDepth) → IsAllowed (default_allowed_stages depth)
unfolding default_allowed_stages is_allowable
default_allowed_stages-IsAllowed noop = (tt, tt)
default_allowed_stages-IsAllowed lightweight = (tt, tt)
default_allowed_stages-IsAllowed normal = ((refl, (refl, (refl, tt))), (refl, (refl, (refl, tt))))
default_allowed_stages-IsAllowed deep = ((refl, (refl, (refl, tt))), (refl, (refl, (refl, tt))))

module _ (python : Python) where
  allowed_stage-IsAllowable : (item : Json) → Ensures IsAllowable (allowed_stage python item)
  unfolding allowed_stage
  allowed_stage-IsAllowable item =
      elim (Option-cases (stage_of (lower (strip (text_of python item))))) [
        | inl h ↦ rw (h, allowed_stage) (Ensures-err IsAllowable _)
        | inr (stage, h) ↦
            rw (h, allowed_stage)
              (elim (Bool-cases (is_allowable stage)) [
                | inl k ↦ rw k (Ensures-ok IsAllowable stage k)
                | inr k ↦ rw k (Ensures-err IsAllowable _)
              ])
      ]

  stages_of_items-All : (items : Items) → Ensures (All IsAllowable) (stages_of_items python items)
  unfolding stages_of_items
  stages_of_items-All nil = Ensures-ok (All IsAllowable) [] tt
  stages_of_items-All (cons item items) =
      Ensures-then IsAllowable (All IsAllowable) (allowed_stage python item) _
        (allowed_stage-IsAllowable item)
        (λ stage a.
          Ensures-then (All IsAllowable) (All IsAllowable) (stages_of_items python items) _
            (stages_of_items-All items)
            (λ stages al. Ensures-ok (All IsAllowable) (stage ∷ stages) (a, al)))

  parse_allowed_stages-IsAllowed :
      (value : Json) (depth : PrWorkflowDepth)
      → Ensures IsAllowed (parse_allowed_stages python value depth)
  unfolding parse_allowed_stages
  parse_allowed_stages-IsAllowed null depth =
      Ensures-ok IsAllowed (default_allowed_stages depth) (default_allowed_stages-IsAllowed depth)
  parse_allowed_stages-IsAllowed (arr items) depth =
      Ensures-then (All IsAllowable) IsAllowed (stages_of_items python items) _
        (stages_of_items-All items)
        (λ stages a.
          Ensures-ok IsAllowed (from_keys [] stages) (from_keys-IsAllowed [] stages (tt, tt) a))
  parse_allowed_stages-IsAllowed (bool b) depth = Ensures-err IsAllowed _
  parse_allowed_stages-IsAllowed (int n) depth = Ensures-err IsAllowed _
  parse_allowed_stages-IsAllowed (float m k) depth = Ensures-err IsAllowed _
  parse_allowed_stages-IsAllowed not_finite depth = Ensures-err IsAllowed _
  parse_allowed_stages-IsAllowed (str s) depth = Ensures-err IsAllowed _
  parse_allowed_stages-IsAllowed (obj fs) depth = Ensures-err IsAllowed _

  abbrev pub AllowsOnly : PrWorkflowTriage → Type 0
  AllowsOnly t = IsAllowed t.allowed_stages

  triage_from_agent_output-AllowsOnly :
      (output_text : String) → Ensures AllowsOnly (triage_from_agent_output python output_text)
  unfolding triage_from_agent_output
  triage_from_agent_output-AllowsOnly output_text =
      Ensures-bind (json_object_from_text python output_text) _ (λ fs.
        Ensures-bind (parse_depth python (get_default "depth" null fs)) _ (λ depth.
          Ensures-then IsAllowed AllowsOnly
            (parse_allowed_stages python (get_default "allowed_stages" null fs) depth) _
            (parse_allowed_stages-IsAllowed (get_default "allowed_stages" null fs) depth)
            (λ stages a. Ensures-ok AllowsOnly _ a)))

  triage_of_answer-AllowsOnly :
      (fallback : PrWorkflowTriage) (output_text : String)
      → AllowsOnly fallback
      → AllowsOnly (triage_of_answer python fallback output_text)
  unfolding triage_of_answer fallback_triage
  triage_of_answer-AllowsOnly fallback output_text h =
      elim (Result-cases (triage_from_agent_output python output_text)) [
        | inl (t, e) ↦
            rw (e, triage_of_answer) ((triage_from_agent_output-AllowsOnly output_text).at t e)
        | inr (x, e) ↦ rw (e, triage_of_answer) h
      ]

  triage_of_turn-AllowsOnly :
      (fallback : PrWorkflowTriage) (turn : Result Exception AgentRunResult)
      → AllowsOnly fallback
      → AllowsOnly (triage_of_turn python fallback turn)
  unfolding triage_of_turn triage_of_result fallback_triage
  triage_of_turn-AllowsOnly fallback (err e) h = h
  triage_of_turn-AllowsOnly fallback (ok result) h =
      elim result.status
        as (λ s. AllowsOnly (elim s [
          | succeeded ↦ triage_of_answer python fallback result.output_text
          | status ↦ fallback_triage fallback ("agent_runner_status: " ⋈ run_status_value status)
        ])) [ succeeded ↦ triage_of_answer-AllowsOnly fallback result.output_text h | status ↦ h ]

module _ {W : Type 0} (runner : AgentRunner RunRequest W)
    (load_prompt : Result Exception String) where
  -- Whatever the agent answers, and whether its runner raises or not, the triage allows only the
  -- analyzer, the strategy and the validator stage, none twice, if the fallback does.
  pub classify_by_agent-AllowsOnly :
      (python : Python) (classifier : TriageClassifier) (c : PrAnalysisContext) (w : W)
      → IsAllowed (classifier.fallback c).allowed_stages
      → IsAllowed (classify_by_agent runner load_prompt python classifier c w).0.allowed_stages
  unfolding classify_by_agent
  classify_by_agent-AllowsOnly python classifier c w h =
      triage_of_turn-AllowsOnly python (classifier.fallback c)
        (triage_attempt runner load_prompt classifier c w).1.0 h
