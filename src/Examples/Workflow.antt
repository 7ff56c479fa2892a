-- ===== src/Examples/Workflow.antt =====
-- The workflows on components that answer at once; their world counts the calls.
use qaestro.Prelude.{
  ℕ, ◌+◌, pos, String, true, ◌≡◌, refl, none, some, List, [], ◌∷◌, ok, Exception, lookup, is_set,
  strip,
}
use qaestro.Prelude.Exec.{Exec, Always}
use qaestro.Contracts.{CiCompleted, CiFeedbackContext, StrategyResult}
use qaestro.Review.{PrCommentPayload}
use qaestro.Aggregate.Checks.{CheckRunSnapshot, completed}
use qaestro.Aggregate.History.{IsValid}
use qaestro.Workflow.{PrWorkflowDraft}
use qaestro.Workflow.Triage.{classify_by_rule}
use qaestro.Workflow.Pr.{Components, for_strategy, stub_validate, run}
use qaestro.Workflow.Pr.Orders.{IsBounded, run-IsBounded}
use qaestro.Workflow.Pr.Publish.{IsPublishable, run-IsPublishable}
use qaestro.Workflow.Ci
use qaestro.Workflow.Ci.Recording.{wired, Ended, run-Ended}
use qaestro.Workflow.Feedback.{load_ci_feedback}
use qaestro.Workflow.Feedback.Publishing.{IsVerdict, load_ci_feedback-IsVerdict}
use qaestro.Workflow.Context.{load_pr_context, load_checks, load_ci_context}
use qaestro.Workflow.Context.Reads.{ReadsOnly, providers-ReadsOnly}
use qaestro.Examples.{pr_at, ci_at}
use qaestro.Examples.Analyzer.{feedback, impact}
use qaestro.Examples.Triage.{pr_context}

abbrev comment_of : PrWorkflowDraft → PrCommentPayload
comment_of draft = record { repo_full_name = "o/r"; pr_number = pos 7; body = "Report" }

abbrev planned : StrategyResult
planned = record {
  actions = [];
  reasoning = "";
  confidence = record { numerator = pos 1; exponent = 1 };
  knowledge_refs = [];
}

abbrev components : Components ℕ
components = record {
  load = λ e w. (ok pr_context, w + 1);
  classify = λ c w. (ok (classify_by_rule c), w + 1);
  analyze = λ c w. (ok impact, w + 1);
  plan = λ repo n title i ci w. (ok planned, w + 1);
  runtime_validator = for_strategy (λ s w. (ok (stub_validate s), w + 1));
  render = λ draft w. (ok (comment_of draft), w + 1);
  should_validate = λ e i s w. (ok true, w);
  ci_feedback_provider = some (λ e w. (ok (some feedback), w + 1));
}

run-IsBounded_example : Always IsBounded (run components (pr_at "e1" "aaa"))
run-IsBounded_example = run-IsBounded components (pr_at "e1" "aaa")

run-IsPublishable_example : Always IsPublishable (run components (pr_at "e1" "aaa"))
run-IsPublishable_example = run-IsPublishable components (pr_at "e1" "aaa")

-- The names of the failed jobs are added where there are none.
abbrev named : CiCompleted → Exec Exception ℕ CiCompleted
named e w = (ok (record e { failed_jobs = "unit" ∷ [] }), w + 1)

run-Ended_example :
    Ended
      (λ s. s)
      (some named)
      (ci_at "e2" "aaa")
      []
      0
      (Ci.run (λ s. s) (wired (λ s. s) (some named)) (ci_at "e2" "aaa") ([], 0))
run-Ended_example = run-Ended (λ s. s) (some named) (ci_at "e2" "aaa") [] 0

abbrev failed_check : CheckRunSnapshot
failed_check = record {
  name = "unit";
  status = completed;
  conclusion = some "failure";
  head_sha = "aaa";
}

abbrev checks_loaded : String → String → String → Exec Exception ℕ (List CheckRunSnapshot)
checks_loaded repo sha id w = (ok (failed_check ∷ []), w + 1)

empty_store-IsValid : IsValid []
unfolding lookup
empty_store-IsValid = record { at = λ key a h. cc }

load_ci_feedback-IsVerdict_example :
    (ci : CiFeedbackContext) × ((load_ci_feedback checks_loaded (pr_at "e1" "aaa") ([], 0)).0
      ≡ ok ci)
    × IsVerdict (pr_at "e1" "aaa") (failed_check ∷ []) ci
unfolding is_set strip
load_ci_feedback-IsVerdict_example =
    load_ci_feedback-IsVerdict checks_loaded (pr_at "e1" "aaa") [] 0 (failed_check ∷ [])
      empty_store-IsValid refl refl

providers-ReadsOnly_example :
    ReadsOnly (load_pr_context {W = ℕ} (λ s. s) (λ s. none) (pr_at "e1" "aaa"))
    × ReadsOnly (load_checks {W = ℕ} (λ s. s) (λ s. none) "o/r" "aaa" "c1")
    × ReadsOnly (load_ci_context {W = ℕ} (λ s. s) (λ s. none) (ci_at "e2" "aaa"))
providers-ReadsOnly_example =
    providers-ReadsOnly (λ s. s) (λ s. none) (pr_at "e1" "aaa") (ci_at "e2" "aaa") "o/r" "aaa" "c1"
