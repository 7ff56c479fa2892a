-- ===== src/Workflow/Pr/Orders.antt =====
-- Which stages of the PR workflow run.
use qaestro.Prelude.{
  Bool, true, false, ◌&&◌, ◌≡◌, refl, sym, ◌∙◌, ◌⊎◌, inl, inr, Option, none, some, is_some, List,
  [], ◌∷◌, contains, All, Bool-cases, arith,
}
use qaestro.Prelude.Exec.{pure, Always, Always-bind, Always-pure, Always-then, Always-any}
use qaestro.Contracts.{PrEvent, BehaviourImpact, StrategyResult, ValidationResult}
use qaestro.Review.{PrCommentPayload}
use qaestro.Tools.{WorkflowStage, context, triage, validator, renderer, stage_eq}
use qaestro.Analyzer.{PrAnalysisContext}
use qaestro.Workflow.{PrWorkflowResult}
use qaestro.Workflow.Triage.{
  PrWorkflowTriage, is_deep, runs_analysis, runs_strategy, allows_validation, renders_output,
}
use qaestro.Workflow.Pr.{
  Components, Planned, triage_only_report, unreviewed, strategy_stage, validation_due,
  validator_stage, full_order, reviewed, full_draft, light_draft, render_light, render_full,
  run_full, run_triaged, run,
}

-- The stages that no triage has to allow.
abbrev pub IsGranted : PrWorkflowTriage → WorkflowStage → Type 0
IsGranted t stage =
    (contains (context ∷ triage ∷ renderer ∷ []) stage ≡ true)
    ⊎ (contains t.allowed_stages stage ≡ true)

-- A run stays within its triage: it has only the stages that the triage allows beside context,
-- triage and renderer; it renders exactly if the triage asks for output; without the validator
-- stage there are no validations; and a deep run with analysis that may validate does.
pub record IsBounded (r : PrWorkflowResult) : Type 0 where
  pub granted : All (IsGranted r.triage) r.stage_order
  pub rendered : contains r.stage_order renderer ≡ renders_output r.triage
  pub commented : is_some r.comment_payload ≡ renders_output r.triage
  pub unvalidated : (contains r.stage_order validator ≡ true) ⊎ (r.report.validations ≡ [])
  pub validated :
      ((is_deep r.triage.depth && (runs_analysis r.triage && allows_validation r.triage)) ≡ false)
      ⊎ (contains r.stage_order validator ≡ true)

true_or : {P : Type 0} (b : Bool) → (b ≡ false → P) → (b ≡ true) ⊎ P
true_or b f = elim (Bool-cases b) [ inl h ↦ inl h | inr h ↦ inr (f h) ]

false_or : {P : Type 0} (b : Bool) → (b ≡ true → P) → (b ≡ false) ⊎ P
false_or b f = elim (Bool-cases b) [ inl h ↦ inr (f h) | inr h ↦ inl h ]

abbrev Validations : Type 0
Validations = Option (List ValidationResult)

-- The validator runs only if it is allowed, and always on a deep run.
abbrev IsDueFor : PrWorkflowTriage → Bool → Type 0
IsDueFor t due =
    (due ≡ true → allows_validation t ≡ true)
    × ((is_deep t.depth && allows_validation t) ≡ true → due ≡ true)

full_order-IsGranted :
    (t : PrWorkflowTriage) (v : Validations)
    → runs_analysis t ≡ true
    → IsDueFor t (is_some v)
    → All (IsGranted t) (full_order t v)
unfolding runs_analysis runs_strategy allows_validation
full_order-IsGranted t none analyses due = elim (Bool-cases (runs_strategy t)) [
  | inl h ↦ rw h (inl refl, (inl refl, (inr analyses, (inr h, (inl refl, tt)))))
  | inr h ↦ rw h (inl refl, (inl refl, (inr analyses, (inl refl, tt))))
]
full_order-IsGranted t (some results) analyses due = elim (Bool-cases (runs_strategy t)) [
  | inl h ↦ rw h (inl refl, (inl refl, (inr analyses, (inr h, (inr (due.0 refl), (inl refl, tt))))))
  | inr h ↦ rw h (inl refl, (inl refl, (inr analyses, (inr (due.0 refl), (inl refl, tt)))))
]

contains-full_order :
    (t : PrWorkflowTriage) (v : Validations)
    → (contains (full_order t v) renderer ≡ true)
      × (contains (full_order t v) validator ≡ is_some v)
contains-full_order t none = elim (Bool-cases (runs_strategy t)) [
  | inl h ↦ rw h (refl, refl)
  | inr h ↦ rw h (refl, refl)
]
contains-full_order t (some results) = elim (Bool-cases (runs_strategy t)) [
  | inl h ↦ rw h (refl, refl)
  | inr h ↦ rw h (refl, refl)
]

unvalidated_full :
    (t : PrWorkflowTriage) (v : Validations)
    → contains (full_order t v) validator ≡ false
    → (elim v as (λ x. List ValidationResult) [ none ↦ [] | some results ↦ results ]) ≡ []
unvalidated_full t none h = refl
unvalidated_full t (some results) h = cc ((contains-full_order t (some results)).1, h)

noop_shallow : (t : PrWorkflowTriage) → renders_output t ≡ false → is_deep t.depth ≡ false
unfolding renders_output
noop_shallow t h = ground arith

full-IsBounded :
    (event : PrEvent) (c : PrAnalysisContext) (impact : BehaviourImpact) (p : Planned)
    (t : PrWorkflowTriage) (v : Validations) (comment : PrCommentPayload)
    → renders_output t ≡ true
    → runs_analysis t ≡ true
    → IsDueFor t (is_some v)
    → IsBounded (reviewed (full_draft event c impact p t v) comment)
full-IsBounded event c impact p t v comment renders analyses due = record {
  granted = full_order-IsGranted t v analyses due;
  rendered = (contains-full_order t v).0 ∙ sym renders;
  commented = sym renders;
  unvalidated = true_or _ (unvalidated_full t v);
  validated = false_or _ (λ h. (contains-full_order t v).1 ∙ due.1 (rw analyses at h));
}

-- A run without analysis, with output and without.
light-IsBounded :
    (event : PrEvent) (c : PrAnalysisContext) (t : PrWorkflowTriage) (comment : PrCommentPayload)
    → renders_output t ≡ true
    → runs_analysis t ≡ false
    → IsBounded (
        unreviewed event
          (triage_only_report event c t)
          t
          (context ∷ triage ∷ renderer ∷ [])
          (some comment))
unfolding triage_only_report
light-IsBounded event c t comment renders skips = record {
  granted = (inl refl, (inl refl, (inl refl, tt)));
  rendered = sym renders;
  commented = sym renders;
  unvalidated = inr refl;
  validated = false_or _ (λ h. ground arith);
}

silent-IsBounded :
    (event : PrEvent) (c : PrAnalysisContext) (t : PrWorkflowTriage)
    → renders_output t ≡ false
    → IsBounded (unreviewed event (triage_only_report event c t) t (context ∷ triage ∷ []) none)
unfolding triage_only_report
silent-IsBounded event c t silent = record {
  granted = (inl refl, (inl refl, tt));
  rendered = sym silent;
  commented = sym silent;
  unvalidated = inr refl;
  validated = inl (rw (noop_shallow t silent) refl);
}

module _ {W : Type 0} (with_components : Components W) where
  due-IsDueFor :
      (event : PrEvent) (t : PrWorkflowTriage) (impact : BehaviourImpact) (planned : StrategyResult)
      → Always (IsDueFor t) (validation_due with_components event t impact planned)
  unfolding validation_due
  due-IsDueFor event t impact planned = elim (Bool-cases (allows_validation t)) [
    | inr h ↦ rw h (Always-pure (IsDueFor t) false (ground arith, ground arith))
    | inl h ↦ rw h (elim (Bool-cases (is_deep t.depth)) [
      | inl k ↦ rw k (Always-pure (IsDueFor t) true (ground arith, ground arith))
      | inr k ↦ rw k (
          Always-any (IsDueFor t) (with_components.should_validate event impact planned)
            (λ due. (ground arith, ground arith)))
    ])
  ]

  stage-IsDueFor :
      (event : PrEvent) (t : PrWorkflowTriage) (due : Bool) (planned : StrategyResult)
      → IsDueFor t due
      → Always (λ v. IsDueFor t (is_some v)) (validator_stage with_components event due planned)
  unfolding validator_stage
  stage-IsDueFor event t due planned h = elim (Bool-cases due) [
    | inl k ↦ rw k (
        Always-bind (λ v. IsDueFor t (is_some v)) _ _
          (λ results. Always-pure (λ v. IsDueFor t (is_some v)) (some results) (rw k at h)))
    | inr k ↦ rw k (Always-pure (λ v. IsDueFor t (is_some v)) none (rw k at h))
  ]

  render_full-IsBounded :
      (event : PrEvent) (c : PrAnalysisContext) (impact : BehaviourImpact) (p : Planned)
      (t : PrWorkflowTriage) (v : Validations)
      → renders_output t ≡ true
      → runs_analysis t ≡ true
      → IsDueFor t (is_some v)
      → Always IsBounded (render_full with_components (full_draft event c impact p t v))
  unfolding render_full
  render_full-IsBounded event c impact p t v renders analyses due =
      let draft = full_draft event c impact p t v in
      Always-bind IsBounded (with_components.render draft)
        (λ comment. pure (reviewed draft comment))
        (λ comment.
          Always-pure IsBounded (reviewed draft comment)
            (full-IsBounded event c impact p t v comment renders analyses due))

  run_full-IsBounded :
      (event : PrEvent) (c : PrAnalysisContext) (t : PrWorkflowTriage)
      → renders_output t ≡ true
      → runs_analysis t ≡ true
      → Always IsBounded (run_full with_components event c t)
  unfolding run_full
  run_full-IsBounded event c t renders analyses =
      Always-bind IsBounded (with_components.analyze c) _ (λ impact.
        Always-bind IsBounded (strategy_stage with_components event c t impact) _ (λ planned.
          Always-then (IsDueFor t) IsBounded
            (validation_due with_components event t impact planned.strategy) _
            (due-IsDueFor event t impact planned.strategy)
            (λ due d.
              Always-then (λ v. IsDueFor t (is_some v)) IsBounded
                (validator_stage with_components event due planned.strategy) _
                (stage-IsDueFor event t due planned.strategy d)
                (λ v dv. render_full-IsBounded event c impact planned t v renders analyses dv))))

  run_triaged-IsBounded :
      (event : PrEvent) (c : PrAnalysisContext) (t : PrWorkflowTriage)
      → Always IsBounded (run_triaged with_components event c t)
  unfolding run_triaged render_light
  run_triaged-IsBounded event c t = elim (Bool-cases (renders_output t)) [
    | inr h ↦ rw h (Always-pure IsBounded _ (silent-IsBounded event c t h))
    | inl h ↦ rw h (elim (Bool-cases (runs_analysis t)) [
      | inl k ↦ rw k (run_full-IsBounded event c t h k)
      | inr k ↦
          rw (k, render_light)
            (Always-bind IsBounded (with_components.render (light_draft event c t))
              (λ comment. pure (
                unreviewed event (triage_only_report event c t) t (context ∷ triage ∷ renderer ∷ [])
                  (some comment)))
              (λ comment. Always-pure IsBounded _ (light-IsBounded event c t comment h k)))
    ])
  ]

  -- Every result of the PR workflow stays within its triage.
  pub run-IsBounded : (event : PrEvent) → Always IsBounded (run with_components event)
  unfolding run
  run-IsBounded event = Always-bind IsBounded (with_components.load event) _ (λ c.
      Always-bind IsBounded (with_components.classify c) _ (λ t. run_triaged-IsBounded event c t))
