-- ===== src/Aggregate/History.antt =====
-- The store after any sequence of events.
use qaestro.Prelude.{
  ℤ, String, ◌≡◌, refl, subst, inl, inr, Option, none, some, List, [], ◌∷◌, Result, ok, err, ◌>>=◌,
  if◌then◌else◌, Bool-cases, ◌==◌, string_eq, int_eq, pair_eq, arith, lookup, lookup-insert,
  Ensures,
}
use qaestro.Contracts.{PrEvent, CiCompleted}
use qaestro.Aggregate.{PrAggregateState, AggregateError, ReviewRunTrigger}
use qaestro.Aggregate.Consistent.{
  IsConsistent, from_pr_event-IsConsistent, apply_pr_event-IsConsistent,
}
use qaestro.Aggregate.Recording.{start_review_run-IsConsistent}
use qaestro.Aggregate.Recording.{record_ci_completed-IsConsistent}
use qaestro.Aggregate.Store
use qaestro.Aggregate.Store.{
  Store, save, saved, existing_or_new, existing_for, recorded, run_started,
}

-- A call of the store by the worker.
pub data StoreEvent : Type 0 where
  pr_event : PrEvent → StoreEvent
  ci_event : CiCompleted → StoreEvent
  review_run : String → ℤ → ReviewRunTrigger → String → StoreEvent

-- The store that a call leaves; where it raises, nothing has been saved.
after_pr : Store → Result AggregateError (PrAggregateState × Store) → Store
after_pr store (ok (a, store')) = store'
after_pr store (err e) = store

unfoldable pub apply_event : StoreEvent → Store → Store
unfolding after_pr
apply_event (pr_event e) store = after_pr store (Store.apply_pr_event e store)
apply_event (ci_event e) store = (Store.record_ci_completed e store).1
apply_event (review_run repo n trigger who) store =
    (Store.start_review_run repo n trigger who store).1

unfoldable pub apply_events : List StoreEvent → Store → Store
apply_events [] store = store
apply_events (e ∷ es) store = apply_events es (apply_event e store)

abbrev pub own_key : PrAggregateState → String × ℤ
own_key a = (a.repo_full_name, a.pr_number)

-- Every aggregate stands under its own repository and number, and is consistent.
pub record IsValid (store : Store) : Type 0 where
  pub at :
      (key : String × ℤ) (a : PrAggregateState)
      → lookup key store ≡ some a
      → (own_key a ≡ key) × IsConsistent a

some-inj : {A : Type 0} {a b : A} → some a ≡ some b → a ≡ b
some-inj h = cc

save-IsValid :
    (a : PrAggregateState) (store : Store) → IsConsistent a → IsValid store → IsValid (save a store)
unfolding save
save-IsValid a store c v = record { at = λ key b h. found key b (rw lookup-insert at h) }
  where
    found :
        (key : String × ℤ) (b : PrAggregateState)
        → (if own_key a == key then some a else lookup key store) ≡ some b
        → (own_key b ≡ key) × IsConsistent b
    found key b h = elim (Bool-cases (own_key a == key)) [
      | inl same ↦
          subst (λ x. (own_key x ≡ key) × IsConsistent x) (some-inj (rw same at h))
            ((pair_eq.beq_iff (own_key a) key).0 same, c)
      | inr other ↦ v.at key b (rw other at h)
    ]

module _ (store : Store) (v : IsValid store) where
  pub existing-IsConsistent :
      (event : PrEvent) (o : Option PrAggregateState)
      → Store.get store event.repo_full_name event.pr_number ≡ o
      → Ensures IsConsistent (existing_or_new event o)
  unfolding existing_or_new Store.get
  existing-IsConsistent event none h = from_pr_event-IsConsistent event
  existing-IsConsistent event (some a) h =
      apply_pr_event-IsConsistent event a (v.at (event.repo_full_name, event.pr_number) a h).1

  after_pr-IsValid :
      (r : Result AggregateError PrAggregateState)
      → Ensures IsConsistent r
      → IsValid (after_pr store (r >>= λ a. ok (a, save a store)))
  unfolding after_pr
  after_pr-IsValid (ok a) c = save-IsValid a store (c.at a refl) v
  after_pr-IsValid (err e) c = v

  saved-IsValid :
      (o : Option PrAggregateState)
      → ((a : PrAggregateState) → o ≡ some a → IsConsistent a)
      → IsValid (saved store o).1
  unfolding saved
  saved-IsValid none c = v
  saved-IsValid (some a) c = save-IsValid a store (c a refl) v

  recorded-IsConsistent :
      (event : CiCompleted) (o : Option PrAggregateState)
      → ((a : PrAggregateState) → o ≡ some a → IsConsistent a)
      → (a : PrAggregateState) → recorded event o ≡ some a
      → IsConsistent a
  unfolding recorded
  recorded-IsConsistent event none c a h = cc
  recorded-IsConsistent event (some b) c a h =
      subst IsConsistent (some-inj h) (record_ci_completed-IsConsistent b (c b refl) event)

  started-IsConsistent :
      (trigger : ReviewRunTrigger) (who : String) (o : Option PrAggregateState)
      → ((a : PrAggregateState) → o ≡ some a → IsConsistent a)
      → (a : PrAggregateState) → run_started trigger who o ≡ some a
      → IsConsistent a
  unfolding run_started
  started-IsConsistent trigger who none c a h = cc
  started-IsConsistent trigger who (some b) c a h =
      subst IsConsistent (some-inj h) (start_review_run-IsConsistent b (c b refl) trigger who)

  existing_for-IsConsistent :
      (event : CiCompleted) (n : Option ℤ) (a : PrAggregateState)
      → event.pr_number ≡ n
      → existing_for event store ≡ some a
      → IsConsistent a
  unfolding existing_for Store.get
  existing_for-IsConsistent event none a e h = absurd (ground arith)
  existing_for-IsConsistent event (some n) a e h =
      (v.at (event.repo_full_name, n) a (ground arith)).1

  apply_event-IsValid : (e : StoreEvent) → IsValid (apply_event e store)
  unfolding apply_event Store.apply_pr_event Store.record_ci_completed Store.start_review_run
      Store.get
  apply_event-IsValid (pr_event e) = after_pr-IsValid _ (existing-IsConsistent e _ refl)
  apply_event-IsValid (ci_event e) =
      saved-IsValid _
        (recorded-IsConsistent e _ λ a h. existing_for-IsConsistent e e.pr_number a refl h)
  apply_event-IsValid (review_run repo n trigger who) =
      saved-IsValid _ (started-IsConsistent trigger who _ λ a h. (v.at (repo, n) a h).1)

-- After any sequence of events, those that raise included, every aggregate in the store stands under
-- its own key and satisfies the invariant.
pub apply_events-IsValid :
    (es : List StoreEvent) (store : Store) → IsValid store → IsValid (apply_events es store)
unfolding apply_events
apply_events-IsValid [] store v = v
apply_events-IsValid (e ∷ es) store v =
    apply_events-IsValid es (apply_event e store) (apply_event-IsValid store v e)
