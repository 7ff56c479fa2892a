-- ===== src/Examples/Analyzer.antt =====
-- A change of three files, and a CI run that failed on it.
use qaestro.Prelude.{
  pos, String, ◌≡◌, refl, none, some, List, [], ◌∷◌, ok, split_at_chars, strip_chars, is_set,
  sorted_by, insert, join, text_leb, lookup,
}
use qaestro.Contracts.{
  ImpactArea, not_assessed, CiObservation, CiFeedbackContext, checks_failed, BehaviourImpact,
}
use qaestro.Analyzer.{PrFileDiff, modified}
use qaestro.Analyzer.Areas.{area_of, build_impact_areas, path_group_for_file, add_to_group}
use qaestro.Analyzer.Grouping.{IsPartition, build_impact_areas-IsPartition}
use qaestro.Strategy.{KnowledgeEntry}
use qaestro.Strategy.Knowledge.{search}
use qaestro.Strategy.Engine.{plan}
use qaestro.Strategy.Actions.{IsPlanned, observations_of, plan-IsPlanned}

abbrev file_at : String → PrFileDiff
file_at path = record {
  path = path;
  status = modified;
  additions = pos 2;
  deletions = pos 1;
  patch = none;
  previous_filename = "";
  first_added_line = none;
}

abbrev changed_files : List PrFileDiff
changed_files = file_at "src/app/a.py" ∷ file_at "README.md" ∷ file_at "src/app/b.py" ∷ []

abbrev areas : List ImpactArea
areas =
    area_of ("README.md", file_at "README.md" ∷ [])
    ∷ area_of ("src/app", file_at "src/app/a.py" ∷ file_at "src/app/b.py" ∷ [])
    ∷ []

build_runs : build_impact_areas changed_files ≡ ok areas
unfolding build_impact_areas path_group_for_file is_set strip_chars split_at_chars sorted_by
    add_to_group insert join text_leb lookup
build_runs = refl

build_impact_areas-IsPartition_example : IsPartition changed_files areas
build_impact_areas-IsPartition_example = build_impact_areas-IsPartition changed_files build_runs

abbrev cache_entry : KnowledgeEntry
cache_entry = record {
  key = "cache";
  summary = "Cache keys went stale before";
  repos = "o/r" ∷ [];
  checklist_items = [];
}

abbrev failed_run : CiObservation
failed_run = record {
  workflow_name = "tests";
  conclusion = "failure";
  run_url = "";
  failed_jobs = "unit" ∷ [];
  commit_sha = "aaa";
  logs_url = "";
}

abbrev pub feedback : CiFeedbackContext
feedback = record {
  current_head_sha = "aaa";
  readiness = checks_failed;
  current_observations = failed_run ∷ [];
  historical_evidence = [];
  pending_checks = [];
}

abbrev pub impact : BehaviourImpact
impact = record {
  summary = "Two areas";
  areas = areas;
  overall_risk = not_assessed;
  raw_diff_stats = [];
}

plan-IsPlanned_example :
    IsPlanned
      (observations_of (some feedback))
      (plan (search (cache_entry ∷ [])) "o/r" (pos 7) "Add" impact (some feedback)).actions
plan-IsPlanned_example =
    plan-IsPlanned (search (cache_entry ∷ [])) "o/r" (pos 7) "Add" impact (some feedback)
