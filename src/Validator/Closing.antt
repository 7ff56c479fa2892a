-- ===== src/Validator/Closing.antt =====
-- What a validation leaves of its sessions.
use qaestro.Prelude.{
  String, true, false, ◌≡◌, refl, subst, ap, Option, none, some, List, [], ◌∷◌, Result, ok, err,
  Exception, lookup, string_eq, Bool-cases, inl, inr, is_set,
}
use qaestro.Prelude.Exec.{Exec, continue, pure, ◌>>=◌}
use qaestro.Contracts.{PrEvent, StrategyAction, StrategyResult, ValidationResult, event_type_value}
use qaestro.Tools.Policy.{Denial}
use qaestro.Tools.Adapter.{AgentFrameworkToolSpec}
use qaestro.Sessions.{
  AgentSessionHandle, AgentSessionRecord, AgentRunResult, AgentRunStatus, succeeded, failed,
  timeout, cancelled, SessionError, SessionManager, is_active,
}
use qaestro.Sessions.Manager.{start_workflow_session, run_stage, close_pr_sessions}
use qaestro.Sessions.Keys.{IsKeyed, turn, apply_call, apply_call-IsKeyed, start-IsKeyed}
use qaestro.Sessions.Closing.{close_pr_sessions_all}
use qaestro.Validator.{Validator, ApiContractProbeRequest}
use qaestro.Validator.Target.{
  api_contract_probe_request, target_policy_denial, probe_policy_denial,
  has_complete_pr_event_context,
}
use qaestro.Validator.Run.{
  is_api_contract, run_api_contract_probe, after_status, after_selection, select, selection_input,
  validation_prompt, run_selected, run_exposed, run_request, run_action, run_actions, after_start,
  finally, validate_for_event,
}

-- `f` keeps the records under their ids.
abbrev KeepsKeys : {W A : Type 0} → Exec Exception (SessionManager W) A → Type 0
KeepsKeys {W} f = (m : SessionManager W) → IsKeyed m.records → IsKeyed (f m).1.records

continue-KeepsKeys :
    {W A B : Type 0} (r : Result Exception A) (f : A → Exec Exception (SessionManager W) B)
    (m : SessionManager W)
    → IsKeyed m.records
    → ((a : A) → KeepsKeys (f a))
    → IsKeyed (continue r f m).1.records
continue-KeepsKeys (ok a) f m k rest = rest a m k
continue-KeepsKeys (err e) f m k rest = k

module _ {W : Type 0} (v : Validator W) where
  status-KeepsKeys :
      (action : StrategyAction) (request : ApiContractProbeRequest) (status : AgentRunStatus)
      → KeepsKeys (after_status v action request status)
  unfolding run_api_contract_probe
  status-KeepsKeys action request succeeded m k = k
  status-KeepsKeys action request failed m k = k
  status-KeepsKeys action request timeout m k = k
  status-KeepsKeys action request cancelled m k = k

  selection-KeepsKeys :
      (action : StrategyAction) (request : ApiContractProbeRequest)
      (r : Result SessionError AgentRunResult)
      → KeepsKeys (after_selection v action request r)
  selection-KeepsKeys action request (ok result) m k =
      status-KeepsKeys action request result.status m k
  selection-KeepsKeys action request (err e) m k = k

  select-KeepsKeys :
      (event : PrEvent) (action : StrategyAction) (handle : AgentSessionHandle)
      (request : ApiContractProbeRequest) (prompt : Result Exception String)
      → KeepsKeys (select v event action handle request prompt)
  unfolding apply_call
  select-KeepsKeys event action handle request (err e) m k = k
  select-KeepsKeys event action handle request (ok prompt) m k =
      let input = selection_input v event action prompt in
      let (r, m₁) = run_stage v.runner handle input m in
      selection-KeepsKeys action request r m₁ (apply_call-IsKeyed v.runner (turn handle input) m k)

  exposed-KeepsKeys :
      (event : PrEvent) (action : StrategyAction) (handle : AgentSessionHandle)
      (request : ApiContractProbeRequest) (o : Option (AgentFrameworkToolSpec × Option Denial))
      → KeepsKeys (run_exposed v event action handle request o)
  unfolding run_selected
  exposed-KeepsKeys event action handle request none m k = k
  exposed-KeepsKeys event action handle request (some (spec, reason)) m k =
      elim (Bool-cases (is_set (probe_policy_denial v.quoted spec reason))) [
        | inl h ↦ rw h k
        | inr h ↦
            rw h (select-KeepsKeys event action handle request (validation_prompt v action) m k)
      ]

  request-KeepsKeys :
      (event : PrEvent) (action : StrategyAction) (handle : AgentSessionHandle)
      (o : Option ApiContractProbeRequest)
      → KeepsKeys (run_request v event action handle o)
  request-KeepsKeys event action handle none m k = k
  request-KeepsKeys event action handle (some request) m k =
      elim (Bool-cases (is_set (target_policy_denial request))) [
        | inl h ↦ rw h k
        | inr h ↦ rw h (exposed-KeepsKeys event action handle request _ m k)
      ]

  action-KeepsKeys :
      (event : PrEvent) (action : StrategyAction) (handle : AgentSessionHandle)
      → KeepsKeys (run_action v event action handle)
  unfolding run_action
  action-KeepsKeys event action handle m k =
      elim (Bool-cases (is_api_contract action.action_type)) [
        | inr h ↦ rw h k
        | inl h ↦ rw h (
            request-KeepsKeys event action handle
              (api_contract_probe_request event action v.budget.timeout_seconds) m k)
      ]

  actions-KeepsKeys :
      (event : PrEvent) (handle : AgentSessionHandle) (actions : List StrategyAction)
      → KeepsKeys (run_actions v event handle actions)
  unfolding run_actions
  actions-KeepsKeys event handle [] m k = k
  actions-KeepsKeys event handle (action ∷ actions) m k =
      let (r, m₁) = run_action v event action handle m in
      continue-KeepsKeys r (λ r. run_actions v event handle actions >>= λ rs. pure (r ∷ rs)) m₁
        (action-KeepsKeys event action handle m k)
        (λ r m₂ k₂.
          let (rs, m₃) = run_actions v event handle actions m₂ in
          continue-KeepsKeys rs (λ rs. pure (r ∷ rs)) m₃
            (actions-KeepsKeys event handle actions m₂ k₂) (λ rs m₄ k₄. k₄))

  -- No session of the pull request is active.
  abbrev AllClosed : PrEvent → SessionManager W → Type 0
  AllClosed event m =
      (id : String) (r : AgentSessionRecord)
      → lookup id m.records ≡ some r
      → r.handle.repo_full_name ≡ event.repo_full_name
      → r.handle.pr_number ≡ event.pr_number
      → is_active r ≡ false

  finally-AllClosed :
      (event : PrEvent) (results : Result Exception (List ValidationResult)) (m : SessionManager W)
      (p : Result SessionError (List AgentSessionRecord) × SessionManager W)
      {rs : List ValidationResult} {m' : SessionManager W}
      → IsKeyed m.records
      → close_pr_sessions v.runner event.repo_full_name event.pr_number "validation stage complete"
          m
        ≡ p
      → finally v results p.0 ≡ ok rs
      → p.1 ≡ m'
      → AllClosed event m'
  finally-AllClosed event results m (err e, m₂) k closes h last = cc
  finally-AllClosed event results m (ok closed, m₂) k closes h last = subst (AllClosed event) last (
      close_pr_sessions_all v.runner m event.repo_full_name event.pr_number
        "validation stage complete" k closes)

  started-AllClosed :
      (event : PrEvent) (s : StrategyResult) (r : Result SessionError AgentSessionRecord)
      (m : SessionManager W) {rs : List ValidationResult} {m' : SessionManager W}
      → IsKeyed m.records
      → after_start v event s r m ≡ (ok rs, m')
      → AllClosed event m'
  started-AllClosed event s (err e) m k h = cc (ap (λ p. p.0) h)
  started-AllClosed event s (ok session) m k h =
      let (results, m₁) = run_actions v event session.handle s.actions m in
      finally-AllClosed event results m₁ _ (actions-KeepsKeys event session.handle s.actions m k)
        refl (ap (λ p. p.0) h) (ap (λ p. p.1) h)

  -- A validation of an event with its context that returns leaves no session of the pull request
  -- active, if the manager's records stand under their ids.
  pub validate_for_event_closed :
      (event : PrEvent) (s : StrategyResult) (m : SessionManager W) {rs : List ValidationResult}
      {m' : SessionManager W}
      → IsKeyed m.records
      → has_complete_pr_event_context event ≡ true
      → validate_for_event v event s m ≡ (ok rs, m')
      → (id : String) (r : AgentSessionRecord) → lookup id m'.records ≡ some r
      → r.handle.repo_full_name ≡ event.repo_full_name
      → r.handle.pr_number ≡ event.pr_number
      → is_active r ≡ false
  unfolding validate_for_event
  validate_for_event_closed event s m k complete h id closed found own number =
      let (r, m₁) =
        start_workflow_session v.runner event.repo_full_name event.pr_number event.head_sha
          (event_type_value event.meta.event_type) event.meta.correlation_id m in
      started-AllClosed event s r m₁ (start-IsKeyed v.runner _ _ _ _ _ m k) (rw complete at h) id
        closed found own number
