-- ===== src/Worker/Retry.antt =====
-- The attempts of `process` against their specification.
use qaestro.Prelude.{
  ℕ, ℤ, pos, negsuc, pos_part, is_some, ◌↔◌, Option, none, some, zero, suc, ◌+◌, ◌≤◌, ◌<◌, ◌≡◌,
  refl, ◌⊎◌, inl, inr, Result, ok, err, arith, eqb, eqb_iff, Bool-cases, subst, sym, Bool, not,
  true, false,
}
use qaestro.Prelude.Exec.{Exec, continue}
use qaestro.Jobs.{EventJob, job}
use qaestro.Workflow.{WorkflowResult, pr_result, ci_result}
use qaestro.Worker.{
  ErrorText, no_error, succeeded, WorkerExecution, Worker, Services, Seconds, make_worker,
  has_comment, bounded, run_with_timeout, post_result, run_once,
}
use qaestro.Worker.Process.{success, failure, attempt_loop, process}

-- `Fails m n w e w'`: `n` runs of `m` in a row, from `w` to `w'`, all raise, the last one `e`. With
-- no run at all `e` is the error before.
pub data Fails {E W A : Type 0} (m : Exec E W A) (e₀ : E) (w₀ : W) : ℕ → E → W → Type 0 where
  none_yet : Fails m e₀ w₀ zero e₀ w₀
  once_more :
      {n : ℕ} {e e' : E} {w w' : W}
      → Fails m e₀ w₀ n e w
      → m w ≡ (err e', w')
      → Fails m e₀ w₀ (suc n) e' w'

Exec-cases :
    {E A W : Type 0} (p : Result E A × W)
    → ((e : E) × (w : W) × (p ≡ (err e, w))) ⊎ ((a : A) × (w : W) × (p ≡ (ok a, w)))
Exec-cases (err e, w) = inl (e, w, refl)
Exec-cases (ok a, w) = inr (a, w, refl)

module _ {W : Type 0} (w : Worker W) (j : EventJob) (world : W) where
  abbrev FailsFor : ℕ → ErrorText → W → Type 0
  FailsFor = Fails (run_once w j) no_error world

  -- What may come of the attempts: the first success after fewer than `max_attempts` failures, or
  -- `max_attempts` failures, of which the last is reported.
  pub data Outcome (p : WorkerExecution × W) : Type 0 where
    first_success :
        (n : ℕ) (e : ErrorText) (w₁ w₂ : W) (r : WorkflowResult)
        → FailsFor n e w₁
        → n < w.max_attempts
        → run_once w j w₁ ≡ (ok r, w₂)
        → p ≡ (success j.correlation_id (suc n) r, w₂)
        → Outcome p
    exhausted :
        (e : ErrorText) (w₂ : W)
        → FailsFor w.max_attempts e w₂
        → p ≡ (failure j.correlation_id w.max_attempts e, w₂)
        → Outcome p

  attempt_loop_retry :
      (left attempt : ℕ) (e : ErrorText) {e' : ErrorText} (w₁ : W) {w₂ : W}
      → run_once w j w₁ ≡ (err e', w₂)
      → eqb attempt w.max_attempts ≡ false
      → attempt_loop w j (suc left) attempt e w₁ ≡ attempt_loop w j left (attempt + 1) e' w₂
  unfolding attempt_loop
  attempt_loop_retry left attempt e w₁ p more = ground arith

  attempt_loop-Outcome :
      (left n attempt : ℕ) (e : ErrorText) (w₁ : W)
      → FailsFor n e w₁
      → attempt ≡ suc n
      → left + n ≡ w.max_attempts
      → Outcome (attempt_loop w j left attempt e w₁)
  unfolding attempt_loop
  attempt_loop-Outcome zero n attempt e w₁ f a m =
      exhausted e w₁ (subst (λ k. FailsFor k e w₁) (omega arith) f) refl
  attempt_loop-Outcome (suc left) n attempt e w₁ f a m = elim (Exec-cases (run_once w j w₁)) [
    | inr (r, w₂, p) ↦ first_success n e w₁ w₂ r f (omega arith) p (ground arith)
    | inl (e', w₂, p) ↦ elim (Bool-cases (eqb attempt w.max_attempts)) [
      | inl last ↦
          exhausted e' w₂
            (subst (λ k. FailsFor k e' w₂) (omega (arith, (eqb_iff attempt w.max_attempts).0 last))
              (once_more f p))
            (ground arith)
      | inr more ↦ subst Outcome (sym (attempt_loop_retry left attempt e w₁ p more)) (
          attempt_loop-Outcome left (suc n) (attempt + 1) e' w₂ (once_more f p) (omega arith)
            (omega arith))
    ]
  ]

  -- Processing an event job tries it until the first success, at most `max_attempts` times. The
  -- execution counts the attempts and carries the first result, or the error of the last attempt.
  pub process-Outcome : Outcome (process w (job j) world)
  unfolding process
  process-Outcome =
      attempt_loop-Outcome w.max_attempts 0 1 no_error world none_yet (omega arith) (omega arith)

abbrev IsBounded : ℕ → WorkerExecution → Type 0
IsBounded max x =
    (1 ≤ x.attempts) × (x.attempts ≤ max) × ((x.status ≡ succeeded) ↔ (is_some x.result ≡ true))

Outcome-IsBounded :
    {W : Type 0} (w : Worker W) (j : EventJob) (world : W) {p : WorkerExecution × W}
    → 1 ≤ w.max_attempts
    → Outcome w j world p
    → IsBounded w.max_attempts p.0
Outcome-IsBounded w j world m (first_success n e w₁ w₂ r f b q h) = ground arith
Outcome-IsBounded w j world m (exhausted e w₂ f h) = ground arith

max_attempts-make_worker :
    {W : Type 0} (services : Services W) (max_attempts : ℤ) (limit : Option Seconds) {w : Worker W}
    → make_worker services max_attempts limit ≡ ok w
    → (pos w.max_attempts ≡ max_attempts) × (1 ≤ w.max_attempts)
unfolding make_worker
max_attempts-make_worker services (pos n) limit h = ground arith
max_attempts-make_worker services (negsuc n) limit h = ground arith

-- A worker that `__init__` accepts tries an event job at least once and at most as often as the
-- argument says, and its execution has succeeded exactly if it carries a result.
attempts_bounds :
    {W : Type 0} (services : Services W) (max_attempts : ℤ) (limit : Option Seconds) {w : Worker W}
    → make_worker services max_attempts limit ≡ ok w
    → (j : EventJob) (world : W)
    → let x = (process w (job j) world).0 in
      (1 ≤ x.attempts)
      × (x.attempts ≤ pos_part max_attempts)
      × ((x.status ≡ succeeded) ↔ (is_some x.result ≡ true))
attempts_bounds services max_attempts limit {w} h j world =
    let (same, least) = max_attempts-make_worker services max_attempts limit h in
    rw (← same) (Outcome-IsBounded w j world least (process-Outcome w j world))

abbrev pub is_silent : Result ErrorText WorkflowResult → Bool
is_silent (err e) = true
is_silent (ok r) = not (has_comment r)

silent_rest :
    {W : Type 0} (w : Worker W) (j : EventJob) (p : Result ErrorText WorkflowResult × W)
    → is_silent p.0 ≡ true
    → continue p.0 (post_result w.services j.correlation_id) p.1 ≡ p
unfolding post_result
silent_rest w j (err e, v) s = refl
silent_rest w j (ok (ci_result r), v) s = refl
silent_rest w j (ok (pr_result r), v) s = ground arith

bounded-within :
    {W : Type 0} (services : Services W) (limit : Seconds) (m : Exec ErrorText W WorkflowResult)
    (v : W)
    → services.within limit m v ≡ (some (m v).0, (m v).1)
    → bounded services (some limit) m v ≡ m v
unfolding bounded run_with_timeout
bounded-within services limit m v h = rw (h, run_with_timeout) (rw h)

-- Where the orchestrator's run ends within the limit, the attempt is that of the same worker without
-- a time limit.
run_once-within :
    {W : Type 0} (w : Worker W) (limit : Seconds) (j : EventJob) (world : W)
    → w.timeout_seconds ≡ some limit
    → w.services.within limit (w.services.orchestrate j.event) world
      ≡ (some (w.services.orchestrate j.event world).0, (w.services.orchestrate j.event world).1)
    → run_once w j world ≡ run_once (record w { timeout_seconds = none }) j world
unfolding run_once bounded
run_once-within w limit j world t h =
    rw (t, run_once) (rw (bounded-within w.services limit (w.services.orchestrate j.event) world h))

-- Without a time limit an attempt whose orchestrator raises, or returns a result that has no comment,
-- is the orchestrator's run alone: its outcome is the attempt's, and nothing is posted.
run_once-silent :
    {W : Type 0} (w : Worker W) (j : EventJob) (world : W)
    → w.timeout_seconds ≡ none
    → is_silent (w.services.orchestrate j.event world).0 ≡ true
    → run_once w j world ≡ w.services.orchestrate j.event world
unfolding run_once bounded
run_once-silent w j world t s =
    rw (t, run_once) (silent_rest w j (w.services.orchestrate j.event world) s)
