-- ===== src/Workflow/Context.antt =====
-- The providers of src/runtime/orchestrator/tool_context.py, over a tool runtime whose tools return
-- GitHub values. `quoted` is `repr` of a text and `int_of_text` is `int` on one, `none` where it
-- raises.
pub mod Reads
use qaestro.Prelude.{
  ℤ, String, Bool, true, false, not, ◌&&◌, ◌||◌, Option, none, some, List, [], ◌∷◌, map, Result, ok,
  err, Exception, filter, if◌then◌else◌, ◌==◌, string_eq, ◌⋈◌, text_or, is_set, lower, is_nonempty,
}
use qaestro.Prelude.Exec.{Exec, lift, pure, ◌>>=◌}
use qaestro.Contracts.{PrEvent, CiCompleted, EventMeta}
use qaestro.Json.{str, int, Fields, field, end}
use qaestro.Tools.{context, ToolCall, ToolResult}
use qaestro.Tools.Runtime.{ToolRuntime, ToolError, tool_exception, execute}
use qaestro.Analyzer.{PrFileDiff, PrAnalysisContext, normalize}
use qaestro.Analyzer.Patch.{first_added_line_from_patch}
use qaestro.Aggregate.Checks.{CheckRunSnapshot, CheckRunResult, from_result}
use qaestro.GitHub.{
  GitHubValue, meta, files, diff, jobs, checks, PrMeta, FileDiff, ActionsJobResult,
}

abbrev pub runtime_error : {A : Type 0} → String → Result Exception A
runtime_error text = err (record { class_name = "RuntimeError"; message = text })

abbrev pub type_error : {A : Type 0} → String → Result Exception A
type_error text = err (record { class_name = "TypeError"; message = text })

abbrev pub context_call : String → Fields → String → ToolCall Fields
context_call name input correlation_id = record {
  stage = context;
  name = name;
  input = input;
  correlation_id = correlation_id;
}

module _ (quoted : String → String) where
  abbrev pub raised_as : {A : Type 0} → Result ToolError A → Result Exception A
  raised_as (ok a) = ok a
  raised_as (err e) = err (tool_exception quoted e)

  -- `_expect_output`, less the type.
  unfoldable pub output_of : ToolResult Fields GitHubValue → Result Exception (Option GitHubValue)
  output_of r =
      if r.ok
      then ok r.output
      else runtime_error (text_or r.error ("tool " ⋈ quoted r.call.name ⋈ " failed"))

  abbrev pub unexpected : {A : Type 0} → String → Result Exception A
  unexpected name = type_error ("tool " ⋈ quoted name ⋈ " returned unexpected output type")

  unfoldable pub expect_meta : Option GitHubValue → Result Exception PrMeta
  expect_meta (some (meta m)) = ok m
  expect_meta _ = unexpected "github.pr.view"

  unfoldable pub expect_diff : Option GitHubValue → Result Exception String
  expect_diff (some (diff d)) = ok d
  expect_diff _ = unexpected "github.pr.diff"

-- `isinstance(output, tuple)`
abbrev pub is_tuple : GitHubValue → Bool
is_tuple (files fs) = true
is_tuple (jobs js) = true
is_tuple (checks cs) = true
is_tuple (GitHubValue.reviews rs) = true
is_tuple (meta m) = false
is_tuple (diff d) = false
is_tuple (GitHubValue.comment c) = false
is_tuple (GitHubValue.review r) = false

abbrev pub has_elements : GitHubValue → Bool
has_elements (files fs) = is_nonempty fs
has_elements (jobs js) = is_nonempty js
has_elements (checks cs) = is_nonempty cs
has_elements (GitHubValue.reviews rs) = is_nonempty rs
has_elements value = true

-- A tuple without elements is a tuple of any type.
abbrev pub empty_or : {A : Type 0} → String → GitHubValue → Result Exception (List A)
empty_or text value = if is_tuple value && not (has_elements value) then ok [] else type_error text

unfoldable pub expect_tuple : (String → String) → Option GitHubValue → Result Exception GitHubValue
expect_tuple quoted none = unexpected quoted "github.pr.files"
expect_tuple quoted (some value) =
    if is_tuple value then ok value else unexpected quoted "github.pr.files"

unfoldable pub expect_file_tuple : GitHubValue → Result Exception (List FileDiff)
expect_file_tuple (files fs) = ok fs
expect_file_tuple value = empty_or "github.pr.files returned unexpected output type" value

unfoldable pub expect_job_tuple : Option GitHubValue → Result Exception (List ActionsJobResult)
expect_job_tuple (some (jobs js)) = ok js
expect_job_tuple (some value) =
    empty_or "github.actions.run.jobs returned unexpected output type" value
expect_job_tuple none = type_error "github.actions.run.jobs returned unexpected output type"

unfoldable pub expect_check_tuple : Option GitHubValue → Result Exception (List CheckRunResult)
expect_check_tuple (some (checks cs)) = ok cs
expect_check_tuple (some value) =
    empty_or "github.checks.runs_for_ref returned unexpected output type" value
expect_check_tuple none = type_error "github.checks.runs_for_ref returned unexpected output type"

-- `_normalize_file`; an absent patch has no added line.
abbrev pub line_of_patch : (String → Option ℤ) → Option String → Option ℤ
line_of_patch int_of_text none = none
line_of_patch int_of_text (some p) =
    if is_set p then first_added_line_from_patch int_of_text p else none

unfoldable pub normalize_file : (String → Option ℤ) → FileDiff → PrFileDiff
normalize_file int_of_text f = record {
  path = f.filename;
  status = normalize f.status;
  additions = f.additions;
  deletions = f.deletions;
  patch = f.patch;
  previous_filename = f.previous_filename;
  first_added_line = line_of_patch int_of_text f.patch;
}

-- The jobs that an enriched CI event names.
unfoldable pub is_failed_job : ActionsJobResult → Bool
is_failed_job j =
    let conclusion = lower j.conclusion in
    is_set j.name
    && (conclusion == "failure" || conclusion == "timed_out" || conclusion == "startup_failure")

abbrev pub failed_job_names : List ActionsJobResult → List String
failed_job_names js = map (λ j. j.name) (filter is_failed_job js)

unfoldable pub with_failed_jobs : CiCompleted → List String → CiCompleted
with_failed_jobs event names =
    if is_nonempty names then record event { failed_jobs = names } else event

unfoldable pub context_from :
    (String → Option ℤ) → PrEvent → PrMeta → List FileDiff → String → PrAnalysisContext
context_from int_of_text event m fs unified_diff = record {
  repo_full_name = event.repo_full_name;
  pr_number = event.pr_number;
  title = text_or m.title event.title;
  body = text_or m.body event.body;
  base_branch = text_or m.base_ref event.base_branch;
  head_branch = text_or m.head_ref event.head_branch;
  files = map (normalize_file int_of_text) fs;
  unified_diff = unified_diff;
}

abbrev pub pr_input : PrEvent → Fields
pr_input event =
    field "repo_full_name" (str event.repo_full_name) (field "pr_number" (int event.pr_number) end)

-- What a provider does with the runtime.
abbrev pub Loads : Type 0 → Type 0 → Type 0
Loads W A = Exec Exception (ToolRuntime Fields GitHubValue W) A

module _ {W : Type 0} (quoted : String → String) (int_of_text : String → Option ℤ) where
  -- A call of the runtime.
  abbrev pub run_tool : String → Fields → String → Loads W (ToolResult Fields GitHubValue)
  run_tool name input correlation_id t =
      let (r, t') = execute (context_call name input correlation_id) t in (raised_as quoted r, t')

  -- `ToolRuntimePRContextProvider.load`
  unfoldable pub load_pr_context : PrEvent → Loads W PrAnalysisContext
  load_pr_context event = do
    r₁ ← run_tool "github.pr.view" (pr_input event) event.meta.correlation_id
    v₁ ← lift (output_of quoted r₁)
    m ← lift (expect_meta quoted v₁)
    r₂ ← run_tool "github.pr.files" (pr_input event) event.meta.correlation_id
    v₂ ← lift (output_of quoted r₂)
    tuple ← lift (expect_tuple quoted v₂)
    fs ← lift (expect_file_tuple tuple)
    r₃ ← run_tool "github.pr.diff" (pr_input event) event.meta.correlation_id
    v₃ ← lift (output_of quoted r₃)
    d ← lift (expect_diff quoted v₃)
    pure (context_from int_of_text event m fs d)

  -- `ToolRuntimePRCheckSnapshotProvider.load`
  unfoldable pub load_checks : String → String → String → Loads W (List CheckRunSnapshot)
  load_checks repo_full_name head_sha correlation_id = do
    r ←
        run_tool "github.checks.runs_for_ref"
          (field "repo_full_name" (str repo_full_name) (field "ref" (str head_sha) end))
          correlation_id
    v ← lift (
        if r.ok
        then ok r.output
        else runtime_error (text_or r.error "github.checks.runs_for_ref failed"))
    cs ← lift (expect_check_tuple v)
    pure (map from_result cs)

  -- `ToolRuntimeCIContextProvider.load` for a run that is to be looked up.
  unfoldable pub enrich : CiCompleted → ℤ → Loads W CiCompleted
  enrich event run_id = do
    r ←
        run_tool "github.actions.run.jobs"
          (field "repo_full_name" (str event.repo_full_name) (field "run_id" (int run_id) end))
          event.meta.correlation_id
    js ← lift (expect_job_tuple r.output)
    pure (with_failed_jobs event (failed_job_names js))

  abbrev pub enrich_from : Option ℤ → Option ℤ → CiCompleted → Loads W CiCompleted
  enrich_from (some n) (some run_id) event =
      if is_nonempty event.failed_jobs then pure event else enrich event run_id
  enrich_from _ _ event = pure event

  unfoldable pub load_ci_context : CiCompleted → Loads W CiCompleted
  load_ci_context event = enrich_from event.pr_number event.run_id event
