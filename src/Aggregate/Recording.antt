-- ===== src/Aggregate/Recording.antt =====
-- A recorded CI run and a started review run keep the invariant of an aggregate.
use qaestro.Prelude.{
  String, ◌≡◌, refl, sym, ap, ◌∙◌, subst, inl, inr, true, false≢true, Option, none, some,
  if◌then◌else◌, Bool-cases, is_some, ◌==◌, string_eq, eq_iff, lookup, lookup-insert, All-append,
}
use qaestro.Contracts.{CiCompleted}
use qaestro.Aggregate.{
  current, superseded, record_from_event, RevisionState, record_ci_run, ReviewRunTrigger,
  PrAggregateState, or_fresh, record_ci_completed, start_review_run,
}
use qaestro.Aggregate.Consistent.{IsRevision, IsConsistent, append_unique-Distinct, some-inj}

module _ (a : PrAggregateState) (c : IsConsistent a) where
  pub unknown_commit :
      (sha : String)
      → lookup sha a.revisions ≡ none
      → superseded ≡ (if sha == a.current_head_sha then current else superseded)
  unknown_commit sha h = elim (Bool-cases (sha == a.current_head_sha)) [
    | inl same ↦ absurd (
        false≢true (
          ap is_some (sym h)
          ∙ subst (λ x. is_some (lookup x a.revisions) ≡ true)
              (sym ((eq_iff sha a.current_head_sha).0 same)) c.has_current))
    | inr other ↦ rw other
  ]

  pub record_ci-IsRevision :
      (event : CiCompleted) (o : Option RevisionState)
      → lookup event.commit_sha a.revisions ≡ o
      → IsRevision a.current_head_sha event.commit_sha (
          record_ci_run
            (or_fresh event.commit_sha superseded o)
            (record_from_event event a.current_head_sha))
  unfolding record_ci_run record_from_event
  record_ci-IsRevision event none h = record {
    keyed = refl;
    status = unknown_commit event.commit_sha h;
    commits = (refl, tt);
    flags = λ n. (n, tt);
  }
  record_ci-IsRevision event (some r) h =
      let found = c.revision event.commit_sha r h in
      record {
        keyed = found.keyed;
        status = found.status;
        commits = All-append _ r.ci_runs _ found.commits (refl, tt);
        flags = λ n. All-append _ r.ci_runs _ (found.flags n) (n, tt);
      }

  -- Recording a completed CI run keeps the invariant, whatever commit it reports.
  pub record_ci_completed-IsConsistent :
      (event : CiCompleted) → IsConsistent (record_ci_completed event a)
  unfolding record_ci_completed
  record_ci_completed-IsConsistent event = record {
    has_current = rw lookup-insert still_there;
    revision = λ sha r h. recorded-IsRevision sha r (rw lookup-insert at h);
    events = append_unique-Distinct a.event_ids event.meta.event_id c.events;
  }
    where
      still_there :
          is_some (
            if event.commit_sha == a.current_head_sha
            then some (
                record_ci_run
                  (or_fresh event.commit_sha superseded (lookup event.commit_sha a.revisions))
                  (record_from_event event a.current_head_sha))
            else lookup a.current_head_sha a.revisions)
          ≡ true
      still_there = elim (Bool-cases (event.commit_sha == a.current_head_sha)) [
        | inl same ↦ rw same
        | inr other ↦ rw other c.has_current
      ]

      recorded-IsRevision :
          (sha : String) (r : RevisionState)
          → (if event.commit_sha == sha
              then some (
                  record_ci_run
                    (or_fresh event.commit_sha superseded (lookup event.commit_sha a.revisions))
                    (record_from_event event a.current_head_sha))
              else lookup sha a.revisions)
            ≡ some r
          → IsRevision a.current_head_sha sha r
      recorded-IsRevision sha r h = elim (Bool-cases (event.commit_sha == sha)) [
        | inl same ↦
            subst (λ x. IsRevision a.current_head_sha x r) ((eq_iff event.commit_sha sha).0 same)
              (subst (IsRevision a.current_head_sha event.commit_sha) (some-inj (rw same at h))
                (record_ci-IsRevision event _ refl))
        | inr other ↦ c.revision sha r (rw other at h)
      ]

  pub start_review_run-IsConsistent :
      (trigger : ReviewRunTrigger) (requested_by : String)
      → IsConsistent (start_review_run trigger requested_by a)
  unfolding start_review_run
  start_review_run-IsConsistent trigger requested_by = record {
    has_current = c.has_current;
    revision = c.revision;
    events = c.events;
  }
