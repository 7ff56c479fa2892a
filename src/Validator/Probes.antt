-- ===== src/Validator/Probes.antt =====
-- Which probes a validation answers for.
use qaestro.Prelude.{
  String, Bool, true, false, ◌≡◌, refl, Option, none, some, List, [], ◌∷◌, map, Result, ok, err,
  Exception, contains, string_eq, ◌⊎◌, inl, inr, Bool-cases, Option-cases, is_set, ◌⋈◌, Ensures,
  Ensures-ok, Ensures-err, arith, false≢true, sym, ◌∙◌,
}
use text.Mathlib.TextLemmas.{cons-append}
use qaestro.Prelude.Exec.{Always, Always-pure, Always-then}
use qaestro.Contracts.{
  PrEvent, Float, StrategyAction, StrategyResult, ActionType, verify_api_contract,
  ValidationOutcome, passed, failed, error, skipped, ValidationResult, event_type_value,
}
use qaestro.Tools.Policy.{Denial}
use qaestro.Tools.Adapter.{AgentFrameworkToolSpec}
use qaestro.Sessions.{
  AgentSessionHandle, AgentSessionRecord, AgentRunResult, AgentRunStatus, succeeded, failed,
  timeout, cancelled, SessionError,
}
use qaestro.Sessions.Manager.{start_workflow_session, run_stage}
use qaestro.Validator.{Validator, ApiContractProbeRequest, ApiContractProbeResult}
use qaestro.Validator.Target.{
  auto_run_api_methods, parse_api_contract_target, api_contract_probe_request, target_policy_denial,
  probe_policy_denial, has_complete_pr_event_context,
}
use qaestro.Validator.Run.{
  answer, is_api_contract, probed, run_api_contract_probe, after_status, after_selection, select,
  selection_input, validation_prompt, run_selected, run_exposed, run_request, run_action,
  run_actions, after_start, finally, validate_for_event,
}

-- The probe of the action may run without an approval: its target is a safe method and a path.
abbrev pub MayProbe : StrategyAction → Type 0
MayProbe action =
    (action.action_type ≡ verify_api_contract)
    × (method : String) × (path : String) × (parse_api_contract_target action.target
        ≡ some (method, path))
    × (contains auto_run_api_methods method ≡ true)

abbrev pub is_verdict : ValidationOutcome → Bool
is_verdict passed = true
is_verdict failed = true
is_verdict error = false
is_verdict skipped = false

-- The result is of the action, and passes or fails only where its probe may run.
abbrev pub IsAnswerOf : StrategyAction → ValidationResult → Type 0
IsAnswerOf action r = (r.action ≡ action) × ((is_verdict r.outcome ≡ false) ⊎ MayProbe action)

-- One result for each action, in their order.
abbrev pub Answers : List StrategyAction → List ValidationResult → Type 0
Answers [] [] = Unit
Answers (action ∷ actions) (r ∷ rs) = IsAnswerOf action r × Answers actions rs
Answers [] (r ∷ rs) = ⊥
Answers (action ∷ actions) [] = ⊥

probed-IsAnswerOf :
    (is_timeout : Exception → Bool) (action : StrategyAction) (elapsed : Float)
    (r : Result Exception ApiContractProbeResult)
    → MayProbe action
    → IsAnswerOf action (probed is_timeout action elapsed r)
unfolding probed
probed-IsAnswerOf is_timeout action elapsed (err e) h = (refl, inl refl)
probed-IsAnswerOf is_timeout action elapsed (ok result) h = (refl, inr h)

is_api_contract-verify : (t : ActionType) → is_api_contract t ≡ true → t ≡ verify_api_contract
is_api_contract-verify t h = ground arith

parsed_request :
    (event : PrEvent) (action : StrategyAction) (t : Float) (request : ApiContractProbeRequest)
    → api_contract_probe_request event action t ≡ some request
    → parse_api_contract_target action.target ≡ some (request.method, request.path)
unfolding api_contract_probe_request
parsed_request event action t request h =
    elim (Option-cases (parse_api_contract_target action.target)) [
      | inl k ↦ cc (rw (k, api_contract_probe_request) at h)
      | inr ((method, path), k) ↦ cc (rw (k, api_contract_probe_request) at h)
    ]

is_set-append : (s t : String) → is_set s ≡ true → is_set (s ⋈ t) ≡ true
unfolding is_set
is_set-append String.[] t h = cc
is_set-append (String.◌∷◌ c s) t h = rw (cons-append c s t) refl

undenied_method :
    (request : ApiContractProbeRequest)
    → is_set (target_policy_denial request) ≡ false
    → contains auto_run_api_methods request.method ≡ true
unfolding target_policy_denial is_set
undenied_method request h = elim (Bool-cases (contains auto_run_api_methods request.method)) [
  | inl k ↦ k
  | inr k ↦ absurd (
      false≢true (
        sym (rw k at h)
        ∙ is_set-append _ "." (
            is_set-append _ _ (
              is_set-append _ _ (
                is_set-append _ request.path
                  (is_set-append _ " for " (is_set-append _ request.method refl)))))))
]

module _ {W : Type 0} (v : Validator W) where
  status-IsAnswerOf :
      (action : StrategyAction) (request : ApiContractProbeRequest) (status : AgentRunStatus)
      → MayProbe action
      → Always (IsAnswerOf action) (after_status v action request status)
  unfolding run_api_contract_probe
  status-IsAnswerOf action request succeeded h = record {
    at = λ m. Ensures-ok (IsAnswerOf action) _ (probed-IsAnswerOf v.is_timeout action _ _ h);
  }
  status-IsAnswerOf action request failed h = Always-pure (IsAnswerOf action) _ (refl, inl refl)
  status-IsAnswerOf action request timeout h = Always-pure (IsAnswerOf action) _ (refl, inl refl)
  status-IsAnswerOf action request cancelled h = Always-pure (IsAnswerOf action) _ (refl, inl refl)

  selection-IsAnswerOf :
      (action : StrategyAction) (request : ApiContractProbeRequest)
      (r : Result SessionError AgentRunResult)
      → MayProbe action
      → Always (IsAnswerOf action) (after_selection v action request r)
  selection-IsAnswerOf action request (ok result) h =
      status-IsAnswerOf action request result.status h
  selection-IsAnswerOf action request (err e) h = Always-pure (IsAnswerOf action) _ (refl, inl refl)

  select-IsAnswerOf :
      (event : PrEvent) (action : StrategyAction) (handle : AgentSessionHandle)
      (request : ApiContractProbeRequest) (prompt : Result Exception String)
      → MayProbe action
      → Always (IsAnswerOf action) (select v event action handle request prompt)
  select-IsAnswerOf event action handle request (err e) h = record {
    at = λ m. Ensures-err (IsAnswerOf action) e;
  }
  select-IsAnswerOf event action handle request (ok prompt) h = record {
    at = λ m.
        let (r, m₁) = run_stage v.runner handle (selection_input v event action prompt) m in
        (selection-IsAnswerOf action request r h).at m₁;
  }

  exposed-IsAnswerOf :
      (event : PrEvent) (action : StrategyAction) (handle : AgentSessionHandle)
      (request : ApiContractProbeRequest) (o : Option (AgentFrameworkToolSpec × Option Denial))
      → MayProbe action
      → Always (IsAnswerOf action) (run_exposed v event action handle request o)
  unfolding run_selected
  exposed-IsAnswerOf event action handle request none h =
      Always-pure (IsAnswerOf action) _ (refl, inl refl)
  exposed-IsAnswerOf event action handle request (some (spec, reason)) h =
      elim (Bool-cases (is_set (probe_policy_denial v.quoted spec reason))) [
        | inl k ↦ rw k (Always-pure (IsAnswerOf action) _ (refl, inl refl))
        | inr k ↦
            rw k (select-IsAnswerOf event action handle request (validation_prompt v action) h)
      ]

  request-IsAnswerOf :
      (event : PrEvent) (action : StrategyAction) (handle : AgentSessionHandle)
      (o : Option ApiContractProbeRequest)
      → api_contract_probe_request event action v.budget.timeout_seconds ≡ o
      → action.action_type ≡ verify_api_contract
      → Always (IsAnswerOf action) (run_request v event action handle o)
  request-IsAnswerOf event action handle none h is_api =
      Always-pure (IsAnswerOf action) _ (refl, inl refl)
  request-IsAnswerOf event action handle (some request) h is_api =
      elim (Bool-cases (is_set (target_policy_denial request))) [
        | inl k ↦ rw k (Always-pure (IsAnswerOf action) _ (refl, inl refl))
        | inr k ↦ rw k (
            exposed-IsAnswerOf event action handle request _ (
              is_api,
              request.method,
              request.path,
              parsed_request event action v.budget.timeout_seconds request h,
              undenied_method request k,
            ))
      ]

  action-IsAnswerOf :
      (event : PrEvent) (action : StrategyAction) (handle : AgentSessionHandle)
      → Always (IsAnswerOf action) (run_action v event action handle)
  unfolding run_action
  action-IsAnswerOf event action handle = elim (Bool-cases (is_api_contract action.action_type)) [
    | inr k ↦ rw k (Always-pure (IsAnswerOf action) _ (refl, inl refl))
    | inl k ↦ rw k (
        request-IsAnswerOf event action handle _ refl (is_api_contract-verify action.action_type k))
  ]

  actions-Answers :
      (event : PrEvent) (handle : AgentSessionHandle) (actions : List StrategyAction)
      → Always (Answers actions) (run_actions v event handle actions)
  unfolding run_actions
  actions-Answers event handle [] = Always-pure (Answers []) [] tt
  actions-Answers event handle (action ∷ actions) =
      Always-then (IsAnswerOf action) (Answers (action ∷ actions))
        (run_action v event action handle) _ (action-IsAnswerOf event action handle)
        (λ r h.
          Always-then (Answers actions) (Answers (action ∷ actions))
            (run_actions v event handle actions) _ (actions-Answers event handle actions)
            (λ rs k. Always-pure (Answers (action ∷ actions)) (r ∷ rs) (h, k)))

  unanswered :
      (details : String) (actions : List StrategyAction)
      → Answers actions (map (λ action. answer error action details) actions)
  unanswered details [] = tt
  unanswered details (action ∷ actions) = ((refl, inl refl), unanswered details actions)

  finally-Ensures :
      {B : Type 0} (P : List ValidationResult → Type 0)
      (r : Result Exception (List ValidationResult)) (closed : Result SessionError B)
      → Ensures P r
      → Ensures P (finally v r closed)
  finally-Ensures P r (ok b) h = h
  finally-Ensures P r (err e) h = Ensures-err P _

  started-Answers :
      (event : PrEvent) (s : StrategyResult) (r : Result SessionError AgentSessionRecord)
      → Always (Answers s.actions) (after_start v event s r)
  started-Answers event s (err e) = record { at = λ m. Ensures-err (Answers s.actions) _ }
  started-Answers event s (ok session) = record {
    at = λ m.
        finally-Ensures (Answers s.actions) _ _
          ((actions-Answers event session.handle s.actions).at m);
  }

  -- A validation answers every action once and in order, and passes or fails an action only if its
  -- target is a method that is run without approval and a path.
  pub validate_for_event-Answers :
      (event : PrEvent) (s : StrategyResult)
      → Always (Answers s.actions) (validate_for_event v event s)
  unfolding validate_for_event
  validate_for_event-Answers event s = elim (Bool-cases (has_complete_pr_event_context event)) [
    | inr k ↦ rw k (Always-pure (Answers s.actions) _ (unanswered _ s.actions))
    | inl k ↦ rw k (record {
      at = λ m.
          let (r, m₁) =
            start_workflow_session v.runner event.repo_full_name event.pr_number event.head_sha
              (event_type_value event.meta.event_type) event.meta.correlation_id m in
          (started-Answers event s r).at m₁;
    })
  ]
