-- ===== src/Gateway/Parsers.antt =====
-- The payload parsers of src/core/contracts/parsers.py. A fresh event id and the time, which the
-- code takes from `uuid4` and the clock, are arguments.
use qaestro.Prelude.{
  ℤ, pos, String, Option, none, some, [], ◌∷◌, ok, ◌>>=◌, if◌then◌else◌, ◌==◌, string_eq, contains,
  is_some,
}
use qaestro.Json.{Json, Fields, null, int, str, arr, obj, nil, end, get, get_default}
use qaestro.Contracts.{
  EventType, pr_opened, pr_updated, pr_commented, pr_reviewed, ci_completed, github, Timestamp,
  EventMeta,
}
use qaestro.Gateway.Raw.{RawPrEvent, RawEvent, opened, updated, commented, reviewed, completed}
use qaestro.Gateway.Values.{
  Read, as_mapping, truthy, or_empty, get_nested, to_int, to_optional_int, parse_files,
  failed_names, first_of, lower_of, iterate, as_comment,
}

-- What a delivery brings beside its payload.
pub record Delivery : Type 0 where
  pub event_id : String
  pub now : Timestamp
  pub correlation_id : String

abbrev pub new_meta : Delivery → EventType → EventMeta
new_meta d event_type = record {
  event_id = d.event_id;
  event_type = event_type;
  correlation_id = d.correlation_id;
  timestamp = d.now;
  source = github;
}

-- Which event an action of a pull request asks for.
unfoldable pub pr_action : String → Option EventType
pr_action action =
    if action == "opened"
    then some pr_opened
    else if contains ("synchronize" ∷ "edited" ∷ "reopened" ∷ []) action
    then some pr_updated
    else none

abbrev pub map_ok : {A B : Type 0} → (A → B) → Read A → Read B
map_ok f m = m >>= λ a. ok (f a)

abbrev pub pr_event_of : EventType → RawPrEvent → RawEvent
pr_event_of pr_opened e = opened e
pr_event_of _ e = updated e

module _ (int_of_text : String → Option ℤ) (d : Delivery) where
  unfoldable pub read_pr_event : EventType → Fields → Read RawEvent
  read_pr_event event_type payload = do
    files ← parse_files int_of_text (get_default "files" (arr nil) payload)
    repo ← as_mapping (get_default "repository" (obj end) payload)
    pr ← as_mapping (get_default "pull_request" (obj end) payload)
    pr_number ← to_int int_of_text (get_default "number" (int (pos 0)) pr)
    let repo_full_name = (get_default "full_name" (str "") repo)
    let title = (get_default "title" (str "") pr)
    let body = (or_empty (get_default "body" (str "") pr))
    let author = (get_nested "user" "login" pr)
    let base = (get_nested "base" "ref" pr)
    let head = (get_nested "head" "ref" pr)
    let diff_url = (get_default "diff_url" (str "") pr)
    let head_sha = (get_nested "head" "sha" pr)
    ok (
        pr_event_of event_type (record {
          meta = new_meta d event_type;
          repo_full_name = repo_full_name;
          pr_number = pr_number;
          title = title;
          body = body;
          author = author;
          base_branch = base;
          head_branch = head;
          diff_url = diff_url;
          files_changed = files;
          head_sha = head_sha;
        }))

  abbrev pub read_action : Option EventType → Fields → Read (Option RawEvent)
  read_action none payload = ok none
  read_action (some event_type) payload = map_ok some (read_pr_event event_type payload)

  unfoldable pub parse_github_pr_event : Fields → String → Read (Option RawEvent)
  parse_github_pr_event payload action = read_action (pr_action action) payload

  unfoldable pub number_of : Read Json → Read ℤ
  number_of m = do
    value ← m
    pr ← as_mapping value
    to_int int_of_text (get_default "number" (int (pos 0)) pr)

  -- The number of the first pull request, if there is one.
  unfoldable pub first_number : Json → Read (Option ℤ)
  first_number value = if truthy value then map_ok some (number_of (first_of value)) else ok none

  unfoldable pub read_ci_event : Json → Fields → Fields → Read RawEvent
  read_ci_event conclusion_value wf payload = do
    pr_number ← first_number (get_default "pull_requests" (arr nil) wf)
    jobs ← iterate (get_default "failed_jobs" (arr nil) payload)
    failed_jobs ← failed_names jobs
    repo ← as_mapping (get_default "repository" (obj end) payload)
    run_id ← to_optional_int int_of_text (get "id" wf)
    let repo_full_name = (get_default "full_name" (str "") repo)
    let commit_sha = (get_default "head_sha" (str "") wf)
    let workflow_name = (get_default "name" (str "") wf)
    let conclusion = conclusion_value
    let run_url = (get_default "html_url" (str "") wf)
    let logs_url = (get_default "logs_url" (str "") wf)
    ok (
        completed (record {
          meta = new_meta d ci_completed;
          repo_full_name = repo_full_name;
          pr_number = pr_number;
          commit_sha = commit_sha;
          workflow_name = workflow_name;
          conclusion = conclusion;
          run_url = run_url;
          failed_jobs = failed_jobs;
          logs_url = logs_url;
          run_id = run_id;
        }))

  unfoldable pub read_concluded : Json → Fields → Fields → Read (Option RawEvent)
  read_concluded conclusion wf payload =
      if truthy conclusion then map_ok some (read_ci_event conclusion wf payload) else ok none

  unfoldable pub parse_github_ci_event : Fields → Read (Option RawEvent)
  parse_github_ci_event payload = do
    wf ← as_mapping (get_default "workflow_run" (obj end) payload)
    read_concluded (get_default "conclusion" (str "") wf) wf payload

  unfoldable pub read_review_event : Json → Fields → Fields → Read RawEvent
  read_review_event state_raw review payload = do
    repo ← as_mapping (get_default "repository" (obj end) payload)
    pr ← as_mapping (get_default "pull_request" (obj end) payload)
    pr_number ← to_int int_of_text (get_default "number" (int (pos 0)) pr)
    state ← lower_of state_raw
    let repo_full_name = (get_default "full_name" (str "") repo)
    let reviewer = (get_nested "user" "login" review)
    let body = (or_empty (get_default "body" (str "") review))
    ok (
        reviewed (record {
          meta = new_meta d pr_reviewed;
          repo_full_name = repo_full_name;
          pr_number = pr_number;
          reviewer = reviewer;
          state = state;
          body = body;
        }))

  unfoldable pub read_stated : Json → Fields → Fields → Read (Option RawEvent)
  read_stated state_raw review payload =
      if truthy state_raw then map_ok some (read_review_event state_raw review payload) else ok none

  unfoldable pub parse_github_pr_review_event : Fields → Read (Option RawEvent)
  parse_github_pr_review_event payload = do
    review ← as_mapping (get_default "review" (obj end) payload)
    read_stated (get_default "state" (str "") review) review payload

  -- The number of the pull request that a comment belongs to; `none` where it is a plain issue's.
  unfoldable pub issue_number : Option Json → Read (Option ℤ)
  issue_number none = ok none
  issue_number (some value) = do
    issue ← as_mapping value
    if truthy (get_default "pull_request" null issue)
        then map_ok some (number_of (ok value))
        else ok none

  unfoldable pub comment_pr_number : Option Json → Option Json → Read (Option ℤ)
  comment_pr_number (some value) issue_value = map_ok some (number_of (ok value))
  comment_pr_number none issue_value = issue_number issue_value

  unfoldable pub read_comment_event : ℤ → Fields → Fields → Read RawEvent
  read_comment_event pr_number comment payload = do
    line ← to_optional_int int_of_text (get "line" comment)
    repo ← as_mapping (get_default "repository" (obj end) payload)
    comment_id ← to_int int_of_text (get_default "id" (int (pos 0)) comment)
    let repo_full_name = (get_default "full_name" (str "") repo)
    let author = (get_nested "user" "login" comment)
    let body = (or_empty (get_default "body" (str "") comment))
    let path = (or_empty (get_default "path" (str "") comment))
    ok (
        commented (record {
          meta = new_meta d pr_commented;
          repo_full_name = repo_full_name;
          pr_number = pr_number;
          comment_id = comment_id;
          author = author;
          body = body;
          is_review_comment = is_some (get "pull_request_review_id" comment);
          path = path;
          line = line;
        }))

  unfoldable pub read_numbered_comment : Option ℤ → Json → Fields → Read (Option RawEvent)
  read_numbered_comment none value payload = ok none
  read_numbered_comment (some n) value payload =
      if truthy value
      then map_ok some (as_comment value >>= λ comment. read_comment_event n comment payload)
      else ok none

  unfoldable pub parse_github_comment_event : Fields → Read (Option RawEvent)
  parse_github_comment_event payload = do
    number ← comment_pr_number (get "pull_request" payload) (get "issue" payload)
    read_numbered_comment number (get_default "comment" (obj end) payload) payload
