-- ===== src/Worker.antt =====
-- The worker's types (src/app/worker/types.py and runner.py) and one attempt at a job.
pub mod Process
pub mod Retry
pub mod Loop
pub mod Drain
pub mod Factory
pub mod Parts
use qaestro.Prelude.{
  Bool, false, is_some, ℕ, ℤ, pos, String, Option, none, some, Result, ok, err, ltb_ℤ, pos_part,
  if◌then◌else◌,
}
use qaestro.Prelude.Exec.{Exec, pure, raise, ◌>>=◌, ◌>>◌}
use qaestro.Contracts.{Event}
use qaestro.Jobs.{EventJob, DecodeError}
use qaestro.Workflow.{WorkflowResult, pr_result, ci_result}
use qaestro.Review.{PrCommentPayload, PrReviewPayload}

-- A time in seconds, as a fraction.
abbrev pub Seconds : Type 0
Seconds = ℕ × ℕ

-- The texts that the worker reports: `no_error` is the empty text.
pub data ErrorText : Type 0 where
  no_error : ErrorText
  message : String → ErrorText
  timed_out_after : Seconds → ErrorText
  malformed_queue_message : String → DecodeError → ErrorText

pub data WorkerStatus : Type 0 where
  succeeded failed : WorkerStatus

abbrev pub has_comment : WorkflowResult → Bool
has_comment (pr_result r) = is_some r.comment_payload
has_comment (ci_result r) = false

pub record WorkerExecution : Type 0 where
  pub correlation_id : String
  pub status : WorkerStatus
  pub attempts : ℕ
  pub result : Option WorkflowResult
  pub error : ErrorText

-- The outside world `W` as the worker uses it. `post_outputs` is there if the poster is a
-- `ReviewOutputPoster`. `within` runs an operation under a time limit, as the executor does:
-- `none` when the limit passes first, whatever the operation has then done to the world.
pub record Services (W : Type 0) : Type 0 where
  pub orchestrate : Event → Exec ErrorText W WorkflowResult
  pub post_comment : PrCommentPayload → String → Exec ErrorText W (Unit {0})
  pub post_outputs :
      Option (PrCommentPayload → Option PrReviewPayload → String → Exec ErrorText W (Unit {0}))
  pub within :
      Seconds → Exec ErrorText W WorkflowResult → W → Option (Result ErrorText WorkflowResult) × W

pub record Worker (W : Type 0) : Type 0 where
  pub services : Services W
  pub max_attempts : ℕ
  pub timeout_seconds : Option Seconds

pub data MaxAttemptsError : Type 0 where
  max_attempts_below_one : MaxAttemptsError

-- `Worker.__init__`
unfoldable pub make_worker :
    {W : Type 0} → Services W → ℤ → Option Seconds → Result MaxAttemptsError (Worker W)
make_worker services max_attempts timeout =
    if ltb_ℤ max_attempts (pos 1)
    then err max_attempts_below_one
    else ok (record {
      services = services;
      max_attempts = pos_part max_attempts;
      timeout_seconds = timeout;
    })

module _ {W : Type 0} (services : Services W) where
  -- `_post_pr_output`
  post_reviewed : PrCommentPayload → Option PrReviewPayload → String → Exec ErrorText W (Unit {0})
  post_reviewed comment none correlation_id = services.post_comment comment correlation_id
  post_reviewed comment (some review) correlation_id = elim services.post_outputs [
    | none ↦ services.post_comment comment correlation_id
    | some post ↦ post comment (some review) correlation_id
  ]

  post_pr_output :
      Option PrCommentPayload → Option PrReviewPayload → String → Exec ErrorText W (Unit {0})
  unfolding post_reviewed
  post_pr_output none review correlation_id = pure tt
  post_pr_output (some comment) review correlation_id = post_reviewed comment review correlation_id

  -- What follows the orchestrator: the output of a PR workflow that has a comment is posted.
  unfoldable pub post_result : String → WorkflowResult → Exec ErrorText W WorkflowResult
  unfolding post_pr_output
  post_result correlation_id (pr_result r) = do
    post_pr_output r.comment_payload r.review_payload correlation_id
    pure (pr_result r)
  post_result correlation_id (ci_result r) = pure (ci_result r)

  -- `_run_with_timeout`
  unfoldable pub run_with_timeout :
      Seconds → Exec ErrorText W WorkflowResult → Exec ErrorText W WorkflowResult
  run_with_timeout limit operation world =
      let (outcome, world') = services.within limit operation world in
      elim outcome [ none ↦ (err (timed_out_after limit), world') | some r ↦ (r, world') ]

  unfoldable pub bounded :
      Option Seconds → Exec ErrorText W WorkflowResult → Exec ErrorText W WorkflowResult
  unfolding run_with_timeout
  bounded none operation = operation
  bounded (some limit) operation = run_with_timeout limit operation

-- `_run_once`, with `_run_pipeline` where there is no time limit. Posting is not under the limit.
unfoldable pub run_once : {W : Type 0} → Worker W → EventJob → Exec ErrorText W WorkflowResult
run_once w j = do
  result ← bounded w.services w.timeout_seconds (w.services.orchestrate j.event)
  post_result w.services j.correlation_id result
