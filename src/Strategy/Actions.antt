-- ===== src/Strategy/Actions.antt =====
-- The planned actions and the CI observations that they come from.
use qaestro.Prelude.{
  ℤ, pos, String, true, ◌≡◌, refl, ◌⊎◌, inl, inr, Option, none, some, List, [], ◌∷◌, ◌++◌, map,
  Bool-cases, All, All-append, All-imp, AnyOf, AnyOf-left, AnyOf-right,
}
use qaestro.Contracts.{BehaviourImpact, CiFeedbackContext, CiObservation, StrategyAction}
use qaestro.Strategy.{KnowledgeEntry, KnowledgeQuery}
use qaestro.Strategy.Engine.{
  plan, actions_of, actions_of_all, ci_feedback_actions, ci_workflow_action, ci_job_action,
  is_failing, conclusion_of, is_urgent,
}

abbrev pub IsRanked : StrategyAction → Type 0
IsRanked a = (a.priority ≡ pos 3) ⊎ ((a.priority ≡ pos 4) ⊎ (a.priority ≡ pos 5))

-- The action is one of those that the observation asks for.
abbrev pub IsFrom : StrategyAction → CiObservation → Type 0
IsFrom a o =
    (is_failing (conclusion_of o) ≡ true)
    × ((a ≡ ci_workflow_action o) ⊎ AnyOf (λ job. a ≡ ci_job_action o job) o.failed_jobs)

abbrev pub IsDue : List CiObservation → StrategyAction → Type 0
IsDue observations a = IsRanked a × AnyOf (IsFrom a) observations

-- A failing observation has its action, and one for each of its failed jobs.
abbrev pub IsCovered : List StrategyAction → CiObservation → Type 0
IsCovered actions o =
    is_failing (conclusion_of o) ≡ true
    → AnyOf (λ a. a ≡ ci_workflow_action o) actions
      × All (λ job. AnyOf (λ a. a ≡ ci_job_action o job) actions) o.failed_jobs

abbrev pub observations_of : Option CiFeedbackContext → List CiObservation
observations_of none = []
observations_of (some ci) = ci.current_observations

workflow_IsRanked : (o : CiObservation) → IsRanked (ci_workflow_action o)
unfolding ci_workflow_action
workflow_IsRanked o = elim (Bool-cases (is_urgent (conclusion_of o))) [
  | inl h ↦ rw h (inr (inl refl))
  | inr h ↦ rw h (inl refl)
]

jobs_due :
    (o : CiObservation) (jobs : List String)
    → All
        (λ a. IsRanked a × AnyOf (λ job. a ≡ ci_job_action o job) jobs)
        (map (ci_job_action o) jobs)
unfolding ci_job_action
jobs_due o [] = tt
jobs_due o (job ∷ jobs) = (
  (inr (inr refl), inl refl),
  All-imp (λ a h. (h.0, inr h.1)) (map (ci_job_action o) jobs) (jobs_due o jobs),
)

actions_of-IsDue :
    (o : CiObservation) (os : List CiObservation) → All (IsDue (o ∷ os)) (actions_of o)
unfolding actions_of
actions_of-IsDue o os = elim (Bool-cases (is_failing (conclusion_of o))) [
  | inl h ↦ rw h (
    (workflow_IsRanked o, inl (h, inl refl)),
    All-imp (λ a d. (d.0, inl (h, inr d.1))) (map (ci_job_action o) o.failed_jobs)
        (jobs_due o o.failed_jobs),
  )
  | inr h ↦ rw h tt
]

actions_of_all-IsDue : (os : List CiObservation) → All (IsDue os) (actions_of_all os)
unfolding actions_of_all
actions_of_all-IsDue [] = tt
actions_of_all-IsDue (o ∷ os) =
    All-append (IsDue (o ∷ os)) (actions_of o) (actions_of_all os) (actions_of-IsDue o os)
      (All-imp (λ a d. (d.0, inr d.1)) (actions_of_all os) (actions_of_all-IsDue os))

jobs_covered :
    (o : CiObservation) (jobs : List String)
    → All (λ job. AnyOf (λ a. a ≡ ci_job_action o job) (map (ci_job_action o) jobs)) jobs
jobs_covered o [] = tt
jobs_covered o (job ∷ jobs) = (inl refl, All-imp (λ j h. inr h) jobs (jobs_covered o jobs))

actions_of-IsCovered : (o : CiObservation) → IsCovered (actions_of o) o
unfolding actions_of
actions_of-IsCovered o h =
    rw h (inl refl, All-imp (λ j k. inr k) o.failed_jobs (jobs_covered o o.failed_jobs))

IsCovered-left :
    (xs ys : List StrategyAction) (o : CiObservation) → IsCovered xs o → IsCovered (xs ++ ys) o
IsCovered-left xs ys o c h = (
  AnyOf-left (λ a. a ≡ ci_workflow_action o) xs ys (c h).0,
  All-imp (λ j k. AnyOf-left (λ a. a ≡ ci_job_action o j) xs ys k) o.failed_jobs (c h).1,
)

IsCovered-right :
    (xs ys : List StrategyAction) (o : CiObservation) → IsCovered ys o → IsCovered (xs ++ ys) o
IsCovered-right xs ys o c h = (
  AnyOf-right (λ a. a ≡ ci_workflow_action o) xs ys (c h).0,
  All-imp (λ j k. AnyOf-right (λ a. a ≡ ci_job_action o j) xs ys k) o.failed_jobs (c h).1,
)

actions_of_all-IsCovered : (os : List CiObservation) → All (IsCovered (actions_of_all os)) os
unfolding actions_of_all
actions_of_all-IsCovered [] = tt
actions_of_all-IsCovered (o ∷ os) = (
  IsCovered-left (actions_of o) (actions_of_all os) o (actions_of-IsCovered o),
  All-imp (IsCovered-right (actions_of o) (actions_of_all os)) os (actions_of_all-IsCovered os),
)

abbrev pub IsPlanned : List CiObservation → List StrategyAction → Type 0
IsPlanned observations actions =
    All (IsDue observations) actions × All (IsCovered actions) observations

-- The planned actions are exactly those that the failing observations of the current head ask for,
-- each with a priority from 3 to 5; without CI feedback nothing is planned.
pub plan-IsPlanned :
    (search : KnowledgeQuery → List KnowledgeEntry) (repo : String) (n : ℤ) (title : String)
    (impact : BehaviourImpact) (ci : Option CiFeedbackContext)
    → IsPlanned (observations_of ci) (plan search repo n title impact ci).actions
unfolding plan ci_feedback_actions
plan-IsPlanned search repo n title impact none = (tt, tt)
plan-IsPlanned search repo n title impact (some ci) =
    (actions_of_all-IsDue ci.current_observations, actions_of_all-IsCovered ci.current_observations)
