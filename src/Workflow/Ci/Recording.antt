-- ===== src/Workflow/Ci/Recording.antt =====
-- What a CI event leaves in the aggregates.
use qaestro.Prelude.{ℤ, String, ◌≡◌, refl, Option, none, some, Result, ok, err, Exception}
use qaestro.Prelude.Exec.{Exec, pure, continue, ◌>>◌}
use qaestro.Contracts.{CiCompleted}
use qaestro.Aggregate.Store
use qaestro.Aggregate.Store.{Store}
use qaestro.Workflow.{CiWorkflowResult}
use qaestro.Workflow.Ci.{
  CiComponents, orphan_result, linked_result, run_linked, run_for, run, loaded, recorded,
}
use qaestro.Workflow.Feedback.{record_event, beside}

module _ {W : Type 0} (quoted : String → String)
    (load : Option (CiCompleted → Exec Exception W CiCompleted)) where
  abbrev beside_load :
      Option (CiCompleted → Exec Exception W CiCompleted)
      → Option (CiCompleted → Exec Exception (Store × W) CiCompleted)
  beside_load none = none
  beside_load (some f) = some (λ e. beside (f e))

  -- The orchestrator as the worker wires it: CI events are recorded in the store.
  abbrev pub wired : CiComponents (Store × W)
  wired = record { load = beside_load load; record_completed = some record_event }

  -- What is loaded for an event: the event itself where nothing loads, else what the load gives.
  abbrev pub load_of :
      Option (CiCompleted → Exec Exception W CiCompleted)
      → CiCompleted
      → Exec Exception W CiCompleted
  load_of none e w = (ok e, w)
  load_of (some f) e w = f e w

  -- Every outcome of a CI event in the world `w₀`: an orphan changes nothing; a linked event is
  -- recorded in the store as the load gave it, and the result is of this event; where loading
  -- raises nothing is recorded.
  pub data Ended (e : CiCompleted) (store : Store) (w₀ : W)
      (p : Result Exception CiWorkflowResult × (Store × W)) : Type 0 where
    orphaned :
        e.pr_number ≡ none → p ≡ (ok (orphan_result quoted e), (store, w₀)) → Ended e store w₀ p
    linked :
        (n : ℤ) (enriched : CiCompleted) (w : W)
        → e.pr_number ≡ some n
        → load_of load e w₀ ≡ (ok enriched, w)
        → p ≡ (ok (linked_result enriched), ((Store.record_ci_completed enriched store).1, w))
        → Ended e store w₀ p
    load_raised :
        (n : ℤ) (x : Exception) (w : W)
        → e.pr_number ≡ some n
        → load_of load e w₀ ≡ (err x, w)
        → p ≡ (err x, (store, w))
        → Ended e store w₀ p

  linked_rest :
      (e : CiCompleted) (store : Store) (w₀ : W) (n : ℤ) (x : Result Exception CiCompleted × W)
      → e.pr_number ≡ some n
      → load_of load e w₀ ≡ x
      → Ended e store w₀ (
          continue x.0
            (λ enriched.
              recorded quoted wired (some record_event) enriched >> pure (linked_result enriched))
            (store, x.1))
  linked_rest e store w₀ n (ok enriched, w) h k = linked n enriched w h k refl
  linked_rest e store w₀ n (err x, w) h k = load_raised n x w h k refl

  -- What the wired components load is what the load gives, beside the store.
  loaded_beside :
      (load' : Option (CiCompleted → Exec Exception W CiCompleted)) (e : CiCompleted)
      (store : Store) (w : W)
      → loaded quoted wired (beside_load load') e (store, w)
        ≡ ((load_of load' e w).0, (store, (load_of load' e w).1))
  loaded_beside none e store w = refl
  loaded_beside (some f) e store w = refl

  run_for-Ended :
      (o : Option ℤ) (e : CiCompleted) (store : Store) (w : W)
      → e.pr_number ≡ o
      → Ended e store w (run_for quoted wired o e (store, w))
  unfolding run_linked
  run_for-Ended none e store w h = orphaned h refl
  run_for-Ended (some n) e store w h =
      rw (loaded_beside load e store w) (linked_rest e store w n (load_of load e w) h refl)

  -- Of a CI event that is wired as in the worker every outcome is one of these: an orphan changes
  -- nothing, a linked event is recorded as the load gave it and the result is of the event so
  -- loaded, and nothing is recorded where loading raises.
  pub run-Ended :
      (e : CiCompleted) (store : Store) (w : W) → Ended e store w (run quoted wired e (store, w))
  unfolding run
  run-Ended e store w = run_for-Ended e.pr_number e store w refl
