-- ===== src/Aggregate/Evidence.antt =====
-- What the strategy engine is told about the head and about superseded revisions.
use qaestro.Prelude.{
  String, ◌≡◌, refl, ap, ◌∙◌, sym, true, false, not, ◌&&◌, ◌||◌, some, List, [], ◌∷◌, ◌++◌, map,
  append-nil, append_assoc, ok, Bool-cases, Option-cases, is_some, contains, filter, is_nonempty,
  ◌==◌, string_eq, pair_eq, eq_iff, arith, lookup, All, All-append, Distinct, inl, inr, ==-sym,
  false≢true,
}
use qaestro.Contracts.{CiObservation, CiHistoricalEvidence, CiFeedbackContext}
use qaestro.Aggregate.{PrAggregateState, RevisionState, CiRunRecord}
use qaestro.Aggregate.Consistent.{IsConsistent}
use qaestro.Aggregate.Checks.{
  CheckRunSnapshot, ReviewReadiness, is_pending, is_failure, checks_of, evaluate_readiness,
}
use qaestro.Aggregate.Feedback.{
  observation_from_record, observation_from_check, observation_key, recorded_failed_jobs,
  merge_loop, merge_current_observations, historical_evidence, feedback_of, to_ci_feedback_context,
  values,
}

-- The checks that a merge adds are known neither by their key nor as a failed job of a record.
module _ (failed_jobs : List (String × String)) where
  abbrev pub IsNew : List (String × String) → CiObservation → Type 0
  IsNew seen o =
      (contains seen (observation_key o) ≡ false)
      × (contains failed_jobs (o.commit_sha, o.workflow_name) ≡ false)

  abbrev pub Added : List (String × String) → List CiObservation → Type 0
  Added seen added = All (IsNew seen) added × Distinct (map observation_key added)

  IsNew-weaken :
      (key : String × String) (seen : List (String × String)) (added : List CiObservation)
      → All (IsNew (key ∷ seen)) added
      → All (IsNew seen) added × (contains (map observation_key added) key ≡ false)
  IsNew-weaken key seen [] h = (tt, refl)
  IsNew-weaken key seen (o ∷ added) h =
      let (rest, absent) = IsNew-weaken key seen added h.1 in
      (((ground arith, h.0.1), rest), ground (arith, ==-sym (observation_key o) key))

  merge_loop-Added :
      (merged : List CiObservation) (seen : List (String × String)) (checks : List CiObservation)
      → (added : List CiObservation) × (merge_loop failed_jobs merged seen checks ≡ merged ++ added)
        × Added seen added
  unfolding merge_loop
  merge_loop-Added merged seen [] = ([], sym (append-nil merged), (tt, tt))
  merge_loop-Added merged seen (check ∷ checks) =
      elim (Bool-cases (
        contains seen (observation_key check)
        || contains failed_jobs (check.commit_sha, check.workflow_name))) [
          | inl skip ↦ rw skip (merge_loop-Added merged seen checks)
          | inr keep ↦
              let key = observation_key check in
              let (added, e, new) = merge_loop-Added (merged ++ check ∷ []) (key ∷ seen) checks in
              let (old, absent) = IsNew-weaken key seen added new.0 in
              rw keep (
                check ∷ added,
                e ∙ append_assoc merged (check ∷ []) added,
                ((((ground arith, ground arith), old), (absent, new.1))),
              )
        ]

-- The merged observations are the records, unchanged and in order, followed by checks whose workflow
-- and commit no record has, which no record of the same commit names as a failed job, and of
-- which no two have the same workflow and commit.
merge_current_observations-Added :
    (records checks : List CiObservation)
    → (added : List CiObservation) × (merge_current_observations records checks ≡ records ++ added)
      × Added (recorded_failed_jobs records) (map observation_key records) added
unfolding merge_current_observations
merge_current_observations-Added records checks =
    merge_loop-Added (recorded_failed_jobs records) records (map observation_key records) checks

merge_loop-All :
    (P : CiObservation → Type 0) (failed : List (String × String)) (merged : List CiObservation)
    (seen : List (String × String)) (checks : List CiObservation)
    → All P merged
    → All P checks
    → All P (merge_loop failed merged seen checks)
unfolding merge_loop
merge_loop-All P failed merged seen [] m c = m
merge_loop-All P failed merged seen (check ∷ checks) m c =
    elim (Bool-cases (
      contains seen (observation_key check)
      || contains failed (check.commit_sha, check.workflow_name))) [
        | inl skip ↦ rw skip (merge_loop-All P failed merged seen checks m c.1)
        | inr keep ↦ rw keep (
            merge_loop-All P failed (merged ++ check ∷ []) (observation_key check ∷ seen) checks
              (All-append _ merged _ m (c.0, tt)) c.1)
      ]

All-records :
    (sha : String) (xs : List CiRunRecord)
    → All (λ (x : CiRunRecord). x.commit_sha ≡ sha) xs
    → All (λ (o : CiObservation). o.commit_sha ≡ sha) (map observation_from_record xs)
unfolding observation_from_record
All-records sha [] h = tt
All-records sha (x ∷ xs) h = (h.0, All-records sha xs h.1)

All-checks :
    (sha : String) (xs : List CheckRunSnapshot)
    → All
        (λ (o : CiObservation). o.commit_sha ≡ sha)
        (map observation_from_check (checks_of sha xs))
unfolding observation_from_check checks_of
All-checks sha [] = tt
All-checks sha (x ∷ xs) = elim (Bool-cases (x.head_sha == sha)) [
  | inl same ↦ rw same ((eq_iff x.head_sha sha).0 same, All-checks sha xs)
  | inr other ↦ rw other (All-checks sha xs)
]

abbrev pub IsHistorical : String → CiHistoricalEvidence → Type 0
IsHistorical head e = ((e.head_sha == head) ≡ false) × (is_nonempty e.observations ≡ true)

is_nonempty-map : {A B : Type 0} (f : A → B) (xs : List A) → is_nonempty (map f xs) ≡ is_nonempty xs
is_nonempty-map f [] = refl
is_nonempty-map f (x ∷ xs) = refl

evidence-IsHistorical :
    (head : String) (rs : List RevisionState)
    → All (IsHistorical head) (
        map
          (λ r. record {
            head_sha = r.head_sha;
            observations = map observation_from_record r.ci_runs;
          })
          (filter (λ r. not (r.head_sha == head) && is_nonempty r.ci_runs) rs))
evidence-IsHistorical head [] = tt
evidence-IsHistorical head (r ∷ rs) =
    elim (Bool-cases (not (r.head_sha == head) && is_nonempty r.ci_runs)) [
      | inl take ↦ rw take (
        (ground arith, is_nonempty-map observation_from_record r.ci_runs ∙ ground arith),
        evidence-IsHistorical head rs,
      )
      | inr skip ↦ rw skip (evidence-IsHistorical head rs)
    ]

empty : {A : Type 0} (xs : List A) → is_nonempty xs ≡ false → xs ≡ []
empty [] h = refl
empty (x ∷ xs) h = cc

pending_checks-evaluate_readiness :
    (a : PrAggregateState) (r : RevisionState) (snapshot : List CheckRunSnapshot)
    → (feedback_of a r (evaluate_readiness a snapshot) snapshot).pending_checks
      ≡ map (λ c. c.name) (filter is_pending (checks_of a.current_head_sha snapshot))
unfolding feedback_of evaluate_readiness
pending_checks-evaluate_readiness a r snapshot =
    let blocking = map (λ c. c.name) (filter is_pending (checks_of a.current_head_sha snapshot)) in
    let failed = map (λ c. c.name) (filter is_failure (checks_of a.current_head_sha snapshot)) in
    elim (Bool-cases (is_nonempty blocking)) [
      | inl h ↦ rw h refl
      | inr h ↦ elim (Bool-cases (is_nonempty failed)) [
        | inl f ↦ rw h (rw f (sym (empty blocking h)))
        | inr f ↦ rw h (rw f (sym (empty blocking h)))
      ]
    ]

module _ (a : PrAggregateState) (r : RevisionState) (readiness : ReviewReadiness)
    (snapshot : List CheckRunSnapshot) where
  pub feedback_found :
      lookup a.current_head_sha a.revisions ≡ some r
      → to_ci_feedback_context a readiness snapshot ≡ ok (feedback_of a r readiness snapshot)
  unfolding to_ci_feedback_context
  feedback_found h = rw (h, to_ci_feedback_context)

  feedback_head : (feedback_of a r readiness snapshot).current_head_sha ≡ a.current_head_sha
  unfolding feedback_of
  feedback_head = refl

  current_observations-All :
      All (λ (x : CiRunRecord). x.commit_sha ≡ a.current_head_sha) r.ci_runs
      → All
          (λ (o : CiObservation). o.commit_sha ≡ a.current_head_sha)
          (feedback_of a r readiness snapshot).current_observations
  unfolding feedback_of merge_current_observations
  current_observations-All h =
      merge_loop-All _ _ _ _ _ (All-records a.current_head_sha r.ci_runs h)
        (All-checks a.current_head_sha snapshot)

  feedback-IsHistorical :
      All (IsHistorical a.current_head_sha) (feedback_of a r readiness snapshot).historical_evidence
  unfolding feedback_of historical_evidence
  feedback-IsHistorical = evidence-IsHistorical a.current_head_sha (values a.revisions)

-- From a consistent aggregate the feedback is always produced: its current observations are all of
-- the head, its historical evidence is of other commits and never empty, and its pending checks are
-- the pending checks of the head, whatever else the snapshot holds.
pub to_ci_feedback_context-current :
    (a : PrAggregateState) (snapshot : List CheckRunSnapshot)
    → IsConsistent a
    → (context : CiFeedbackContext) × (to_ci_feedback_context a
          (evaluate_readiness a snapshot)
          snapshot
        ≡ ok context)
      × (context.current_head_sha ≡ a.current_head_sha)
      × All (λ (o : CiObservation). o.commit_sha ≡ a.current_head_sha) context.current_observations
      × All (IsHistorical a.current_head_sha) context.historical_evidence
      × (context.pending_checks
          ≡ map (λ c. c.name) (filter is_pending (checks_of a.current_head_sha snapshot)))
to_ci_feedback_context-current a snapshot c =
    elim (Option-cases (lookup a.current_head_sha a.revisions)) [
      | inl missing ↦ absurd (false≢true (ap is_some (sym missing) ∙ c.has_current))
      | inr (r, found) ↦ (
        feedback_of a r (evaluate_readiness a snapshot) snapshot,
        feedback_found a r (evaluate_readiness a snapshot) snapshot found,
        feedback_head a r (evaluate_readiness a snapshot) snapshot,
        current_observations-All a r (evaluate_readiness a snapshot) snapshot
            (c.revision a.current_head_sha r found).commits,
        feedback-IsHistorical a r (evaluate_readiness a snapshot) snapshot,
        pending_checks-evaluate_readiness a r snapshot,
      )
    ]
