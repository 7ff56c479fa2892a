-- ===== src/Examples.antt =====
-- Concrete events, queues and services on which the theorems are tried.
mod Jobs
mod Worker
mod Aggregate
mod Gateway
mod Tools
mod Sessions
mod Outputs
mod Analyzer
mod GitHub
mod Client
mod Service
mod Agent
mod Triage
mod Workflow
mod Renderer
mod Validator
use qaestro.Prelude.{ℤ, pos, String, Bool, true, false, Option, none, some, List, [], ◌∷◌, ok, err}
use qaestro.Contracts.{
  EventType, pr_opened, ci_completed, github, Timestamp, EventMeta, PrEvent, CiCompleted, Event,
  opened, completed,
}
use qaestro.Jobs.{EventJob}

abbrev pub noon : Timestamp
noon = record { iso = "2026-01-02T12:00:00+00:00" }

abbrev pub meta_of : String → EventType → EventMeta
meta_of id event_type = record {
  event_id = id;
  event_type = event_type;
  correlation_id = "c1";
  timestamp = noon;
  source = github;
}

abbrev pub pr_at : String → String → PrEvent
pr_at id sha = record {
  meta = meta_of id pr_opened;
  repo_full_name = "o/r";
  pr_number = pos 7;
  title = "Add a cache";
  body = "";
  author = "ann";
  base_branch = "main";
  head_branch = "cache";
  diff_url = "";
  files_changed =
      record {
        path = "a.py";
        status = "modified";
        additions = pos 3;
        deletions = pos 1;
        previous_filename = "";
      }
      ∷ [];
  head_sha = sha;
}

abbrev pub ci_at : String → String → CiCompleted
ci_at id sha = record {
  meta = meta_of id ci_completed;
  repo_full_name = "o/r";
  pr_number = some (pos 7);
  commit_sha = sha;
  workflow_name = "tests";
  conclusion = "failure";
  run_url = "";
  failed_jobs = "unit" ∷ [];
  logs_url = "";
  run_id = some (pos 99);
}

abbrev pub opened_job : EventJob
opened_job = record { event = opened (pr_at "e1" "aaa"); correlation_id = "c1"; delivery_id = "" }

abbrev pub ci_job : EventJob
ci_job = record { event = completed (ci_at "e2" "aaa"); correlation_id = "c2"; delivery_id = "" }

-- `datetime.fromisoformat`, on the texts of the examples.
abbrev pub read_iso : String → Option Timestamp
read_iso s = some (record { iso = s })
