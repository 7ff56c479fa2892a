-- ===== src/Analyzer/Report.antt =====
-- The statistics, the summary and the analyzer itself (src/core/analyzer/rules.py).
use qaestro.Prelude.{
  ℤ, pos, ℕ, String, Bool, ◌||◌, Option, none, some, List, [], ◌∷◌, map, Result, ok, ◌>>=◌, text_or,
  ◌==◌, join, ◌⋈◌, decimal, length, count, take, sum_ℤ, int_text, Dict,
}
use qaestro.Contracts.{ImpactArea, BehaviourImpact, StatValue, number, text, not_assessed}
use qaestro.Analyzer.{
  PrFileDiff, PrFileStatus, PrAnalysisContext, status_eq, added, modified, removed, renamed, copied,
  changed, unchanged, unknown,
}
use qaestro.Analyzer.Patch.{primary_added_line, primary_changed_file}
use qaestro.Analyzer.Areas.{AnalyzerError, build_impact_areas}

abbrev pub of_status : PrFileStatus → PrFileDiff → Bool
of_status s f = f.status == s

-- `file.status in {MODIFIED, CHANGED}`
abbrev pub of_modified : PrFileDiff → Bool
of_modified f = f.status == modified || f.status == changed

abbrev pub counted : ℕ → StatValue
counted n = number (pos n)

abbrev pub or_zero : Option ℤ → ℤ
or_zero none = pos 0
or_zero (some n) = n

abbrev pub additions_of : List PrFileDiff → ℤ
additions_of files = sum_ℤ (map (λ f. f.additions) files)

abbrev pub deletions_of : List PrFileDiff → ℤ
deletions_of files = sum_ℤ (map (λ f. f.deletions) files)

module _ (int_of_text : String → Option ℤ) where
  unfoldable pub diff_stats : List PrFileDiff → Dict String StatValue
  diff_stats files =
      ("files_changed", counted (length files))
      ∷ ("additions", number (additions_of files))
      ∷ ("deletions", number (deletions_of files))
      ∷ ("files_added", counted (count (of_status added) files))
      ∷ ("files_modified", counted (count of_modified files))
      ∷ ("files_removed", counted (count (of_status removed) files))
      ∷ ("files_renamed", counted (count (of_status renamed) files))
      ∷ ("files_copied", counted (count (of_status copied) files))
      ∷ ("files_unchanged", counted (count (of_status unchanged) files))
      ∷ ("files_unknown", counted (count (of_status unknown) files))
      ∷ ("primary_file", text (primary_changed_file files))
      ∷ ("primary_line", number (or_zero (primary_added_line int_of_text files)))
      ∷ []

  unfoldable pub summary_of : PrAnalysisContext → List ImpactArea → String
  summary_of context areas =
      "PR #"
      ⋈ int_text context.pr_number
      ⋈ " ("
      ⋈ context.title
      ⋈ ") changes "
      ⋈ decimal (length context.files)
      ⋈ " files (+"
      ⋈ int_text (additions_of context.files)
      ⋈ "/-"
      ⋈ int_text (deletions_of context.files)
      ⋈ ") across "
      ⋈ text_or (join ", " (map (λ a. a.module_name) areas)) "no path groups"
      ⋈ ". Risk is not assessed by the path-group analyzer. Lead files: "
      ⋈ text_or (join ", " (map (λ f. f.path) (take 3 context.files))) "no files"
      ⋈ "."

  unfoldable pub analyze : PrAnalysisContext → Result AnalyzerError BehaviourImpact
  unfolding diff_stats summary_of
  analyze context = do
    areas ← build_impact_areas context.files
    ok (record {
      summary = summary_of context areas;
      areas = areas;
      overall_risk = not_assessed;
      raw_diff_stats = diff_stats context.files;
    })
