-- ===== src/Aggregate/Readiness.antt =====
-- When a final review may be published for the head of a pull request.
use qaestro.Prelude.{
  String, ◌≡◌, ◌↔◌, refl, Bool, true, false, not, List, [], ◌∷◌, ◌++◌, map, Bool-cases, any, filter,
  filter-append, is_nonempty, ◌==◌, string_eq, arith, inl, inr,
}
use qaestro.Aggregate.{PrAggregateState}
use qaestro.Aggregate.Checks.{
  CheckRunSnapshot, is_pending, is_failure, ready, waiting_for_checks, checks_failed, checks_of,
  evaluate_readiness, can_publish_final_review, can_publish_interim_response,
}

is_nonempty-filter :
    {A B : Type 0} (f : A → B) (test : A → Bool) (xs : List A)
    → is_nonempty (map f (filter test xs)) ≡ any test xs
is_nonempty-filter f test [] = refl
is_nonempty-filter f test (x ∷ xs) = elim (Bool-cases (test x)) [
  | inl h ↦ rw h
  | inr h ↦ rw h (is_nonempty-filter f test xs)
]

module _ (a : PrAggregateState) (snapshot : List CheckRunSnapshot) where
  abbrev pub some_pending : Bool
  some_pending = any is_pending (checks_of a.current_head_sha snapshot)

  abbrev pub some_failed : Bool
  some_failed = any is_failure (checks_of a.current_head_sha snapshot)

  -- The verdict is to wait exactly if a check of the head is pending; failed exactly if none is and
  -- one of them failed; ready exactly if none is pending and none failed.
  pub evaluate_readiness_state :
      let state = (evaluate_readiness a snapshot).state in
      ((state ≡ waiting_for_checks) ↔ (some_pending ≡ true))
      × ((state ≡ checks_failed) ↔ ((some_pending ≡ false) × (some_failed ≡ true)))
      × ((state ≡ ready) ↔ ((some_pending ≡ false) × (some_failed ≡ false)))
  unfolding evaluate_readiness
  evaluate_readiness_state = rw is_nonempty-filter (rw is_nonempty-filter (ground arith))

  -- A final review may be published exactly if no check of the head is pending, an interim response
  -- exactly if one is.
  pub can_publish_iff :
      (can_publish_final_review (evaluate_readiness a snapshot) ≡ not some_pending)
      × (can_publish_interim_response (evaluate_readiness a snapshot) ≡ some_pending)
  unfolding evaluate_readiness can_publish_final_review can_publish_interim_response
  can_publish_iff = rw is_nonempty-filter (rw is_nonempty-filter (ground arith))

checks_of-stale :
    (head_sha : String) (xs ys : List CheckRunSnapshot) (c : CheckRunSnapshot)
    → (c.head_sha == head_sha) ≡ false
    → checks_of head_sha (xs ++ c ∷ ys) ≡ checks_of head_sha (xs ++ ys)
unfolding checks_of
checks_of-stale head_sha xs ys c h = simp filter-append (rw h)

-- A check of another commit changes nothing of the verdict, wherever it stands in the snapshot.
evaluate_readiness-stale :
    (a : PrAggregateState) (xs ys : List CheckRunSnapshot) (c : CheckRunSnapshot)
    → (c.head_sha == a.current_head_sha) ≡ false
    → evaluate_readiness a (xs ++ c ∷ ys) ≡ evaluate_readiness a (xs ++ ys)
unfolding evaluate_readiness
evaluate_readiness-stale a xs ys c h = rw (checks_of-stale a.current_head_sha xs ys c h)
