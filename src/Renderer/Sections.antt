-- ===== src/Renderer/Sections.antt =====
-- The sections of the comment (src/adapters/renderers/pr_comment.py).
use qaestro.Prelude.{
  ℤ, pos, String, Bool, not, ◌&&◌, Option, none, some, List, [], ◌∷◌, ◌++◌, map, filter, take,
  contains, if◌then◌else◌, string_eq, int_eq, Dict, lookup, is_nonempty, is_set, text_or, join, ◌⋈◌,
  upper, lower, strip, int_text, replace_chars, starts_with, text_drop, sorted_by,
}
use qaestro.Contracts.{
  QaReport, CiFeedbackContext, CiReadinessState, ready, waiting_for_checks, checks_failed,
  CiObservation, CiHistoricalEvidence, StatValue, number, text, risk_level_value, ImpactArea,
}
use qaestro.Tools.{stage_value}
use qaestro.Workflow.Triage.{PrWorkflowTriage, depth_value}
use qaestro.Renderer.Markdown.{inline_code_span, markdown_text}

-- `text.replace("_", " ")`
abbrev pub spaced : String → String
spaced s = replace_chars "_" " " s

abbrev pub ticked : String → String
ticked s = "`" ⋈ s ⋈ "`"

unfoldable pub triage_lines : Option PrWorkflowTriage → List String
triage_lines none = []
triage_lines (some t) =
    ("Workflow depth: **" ⋈ upper (depth_value t.depth) ⋈ "**")
    ∷ ("Triage rationale: " ⋈ t.rationale)
    ∷ ("Triaged analysis/validation stages: `"
        ⋈ text_or (join ", " (map stage_value t.allowed_stages)) "none"
        ⋈ "`")
    ∷ []

unfoldable pub overall_risk_label : QaReport → String
overall_risk_label report = upper (spaced (risk_level_value report.impact.overall_risk))

-- `_int_stat`
abbrev pub int_stat : StatValue → ℤ
int_stat (number n) = n
int_stat (text s) = pos 0

abbrev pub stat_text : Option StatValue → String
stat_text none = "0"
stat_text (some (number n)) = int_text n
stat_text (some (text s)) = s

abbrev pub preferred_order : List String
preferred_order =
    "files_added" ∷ "files_modified" ∷ "files_removed" ∷ "files_renamed" ∷ "files_copied"
    ∷ "files_unchanged" ∷ "files_unknown" ∷ []

-- The counters of the known keys that are there.
unfoldable pub known_counts : Dict String StatValue → List String → List (String × ℤ)
known_counts stats [] = []
known_counts stats (key ∷ keys) =
    let rest = known_counts stats keys in
    elim (lookup key stats) [ none ↦ rest | some v ↦ (key, int_stat v) ∷ rest ]

abbrev pub is_extra : String × StatValue → Bool
is_extra (key, v) =
    starts_with "files_" key && not (contains ("files_changed" ∷ preferred_order) key)

abbrev pub status_label : String → String
status_label key = spaced (if starts_with "files_" key then text_drop 6 key else key)

unfoldable pub status_counts : Dict String StatValue → List (String × ℤ)
unfolding known_counts
status_counts stats =
    map (λ p. (status_label p.0, p.1))
      (known_counts stats preferred_order
        ++ map (λ p. (p.0, int_stat p.1)) (sorted_by (λ p. p.0) (filter is_extra stats)))

abbrev pub count_text : String × ℤ → String
count_text (status, count) = status ⋈ " `" ⋈ int_text count ⋈ "`"

unfoldable pub diff_stat_lines : QaReport → List String
unfolding status_counts
diff_stat_lines report =
    let stats = report.impact.raw_diff_stats in
    let counts = status_counts stats in
    if not (is_nonempty stats)
    then "- Diff statistics unavailable." ∷ []
    else ("- Files changed: `" ⋈ stat_text (lookup "files_changed" stats) ⋈ "`")
      ∷ ("- Additions/deletions: `+"
          ⋈ stat_text (lookup "additions" stats)
          ⋈ "/-"
          ⋈ stat_text (lookup "deletions" stats)
          ⋈ "`")
      ∷ (if is_nonempty counts
          then "- File status counts: " ⋈ join ", " (map count_text counts)
          else "- File status counts: unavailable.")
      ∷ []

-- `CIReadinessState.value`
abbrev pub readiness_value : CiReadinessState → String
readiness_value ready = "ready"
readiness_value waiting_for_checks = "waiting_for_checks"
readiness_value checks_failed = "checks_failed"

unfoldable pub ci_observation_links : CiObservation → List String
ci_observation_links o =
    (if is_set o.run_url then ("[run](" ⋈ o.run_url ⋈ ")") ∷ [] else [])
    ++ (if is_set o.logs_url then ("[logs](" ⋈ o.logs_url ⋈ ")") ∷ [] else [])

unfoldable pub ci_observation_line : CiObservation → String
unfolding ci_observation_links
ci_observation_line o =
    "**"
    ⋈ markdown_text o.workflow_name
    ⋈ "** — "
    ⋈ inline_code_span (text_or (lower (strip o.conclusion)) "unknown")
    ⋈ (if is_nonempty o.failed_jobs
        then "; failed jobs: " ⋈ join ", " (map inline_code_span o.failed_jobs)
        else "")
    ⋈ (if is_nonempty (ci_observation_links o)
        then " (" ⋈ join "; " (ci_observation_links o) ⋈ ")"
        else "")

unfoldable pub historical_ci_lines : List CiHistoricalEvidence → List String
unfolding ci_observation_line
historical_ci_lines [] = []
historical_ci_lines (e ∷ es) =
    let rest = historical_ci_lines es in
    if is_nonempty e.observations
    then ("  - "
        ⋈ inline_code_span e.head_sha
        ⋈ ": "
        ⋈ join "; " (map ci_observation_line e.observations))
      ∷ rest
    else rest

unfoldable pub ci_feedback_section : Option CiFeedbackContext → List String
unfolding historical_ci_lines ci_observation_line
ci_feedback_section none = []
ci_feedback_section (some ci) =
    let historical = historical_ci_lines ci.historical_evidence in
    (""
      ∷ "### CI / Check Feedback"
      ∷ ("- Current head: " ⋈ inline_code_span ci.current_head_sha)
      ∷ ("- Readiness: **" ⋈ markdown_text (upper (spaced (readiness_value ci.readiness))) ⋈ "**")
      ∷ [])
    ++ (if is_nonempty ci.pending_checks
        then ("- Pending checks: " ⋈ join ", " (map inline_code_span ci.pending_checks)) ∷ []
        else [])
    ++ (if is_nonempty ci.current_observations
        then "- Current-head observations:"
          ∷ map (λ o. "  - " ⋈ ci_observation_line o) ci.current_observations
        else "- Current-head observations: none recorded." ∷ [])
    ++ (if is_nonempty historical
        then "- Historical CI evidence from superseded heads:" ∷ historical
        else [])

abbrev pub impact_line : ImpactArea → String
impact_line area =
    "- **"
    ⋈ area.module_name
    ⋈ "** ("
    ⋈ risk_level_value area.risk_level
    ⋈ "): "
    ⋈ area.description
    ⋈ " — files: "
    ⋈ join ", " (map ticked (take 5 area.affected_files))

unfoldable pub impact_lines : QaReport → List String
impact_lines report =
    if is_nonempty report.impact.areas
    then map impact_line report.impact.areas
    else "- No impact areas identified." ∷ []
