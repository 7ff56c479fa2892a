-- ===== src/Jobs/Read.antt =====
-- The readers of each event class and of a whole job (`_event_from_payload` and
-- `_deserialize_job` of src/app/jobs.py).
use qaestro.Prelude.{String, false, Option, ok, ◌>>=◌, ◌>>◌, guard}
use qaestro.Json.{Json, Fields, null, bool, arr, nil, get_default, equals_one}
use qaestro.Contracts.{
  EventType, pr_opened, pr_updated, pr_commented, pr_reviewed, ci_completed, chat_mention,
  Timestamp, EventMeta, PrEvent, PrCommented, PrReviewed, CiCompleted, ChatMention, Event, opened,
  updated, commented, reviewed, completed, mentioned,
}
use qaestro.Jobs.{EventJob, named, unsupported_schema}
use qaestro.Jobs.Decode.{
  Decoded, require_mapping, require_str, require_bool, require_list, str_tuple, str_field,
  str_field_or_empty, int_field, optional_int_field, parse_event_type, files_from,
  meta_from_payload,
}

pr_event_from_payload : EventMeta → Fields → Decoded PrEvent
unfolding require_list str_field str_field_or_empty int_field
pr_event_from_payload meta data' = do
  file_values ← require_list (get_default "files_changed" (arr nil) data') (named "files_changed")
  repo ← str_field "repo_full_name" data'
  number ← int_field "pr_number" data'
  title ← str_field "title" data'
  body ← str_field "body" data'
  author ← str_field "author" data'
  base ← str_field "base_branch" data'
  head ← str_field "head_branch" data'
  diff_url ← str_field "diff_url" data'
  files ← files_from 0 file_values
  head_sha ← str_field_or_empty "head_sha" data'
  ok (record {
    meta = meta;
    repo_full_name = repo;
    pr_number = number;
    title = title;
    body = body;
    author = author;
    base_branch = base;
    head_branch = head;
    diff_url = diff_url;
    files_changed = files;
    head_sha = head_sha;
  })

commented_from_payload : EventMeta → Fields → Decoded PrCommented
unfolding require_bool str_field str_field_or_empty int_field optional_int_field
commented_from_payload meta data' = do
  repo ← str_field "repo_full_name" data'
  number ← int_field "pr_number" data'
  comment_id ← int_field "comment_id" data'
  author ← str_field "author" data'
  body ← str_field "body" data'
  is_review ←
      require_bool (get_default "is_review_comment" (bool false) data') (named "is_review_comment")
  path ← str_field_or_empty "path" data'
  line ← optional_int_field "line" data'
  ok (record {
    meta = meta;
    repo_full_name = repo;
    pr_number = number;
    comment_id = comment_id;
    author = author;
    body = body;
    is_review_comment = is_review;
    path = path;
    line = line;
  })

reviewed_from_payload : EventMeta → Fields → Decoded PrReviewed
unfolding str_field str_field_or_empty int_field
reviewed_from_payload meta data' = do
  repo ← str_field "repo_full_name" data'
  number ← int_field "pr_number" data'
  reviewer ← str_field "reviewer" data'
  state ← str_field "state" data'
  body ← str_field_or_empty "body" data'
  ok (record {
    meta = meta;
    repo_full_name = repo;
    pr_number = number;
    reviewer = reviewer;
    state = state;
    body = body;
  })

completed_from_payload : EventMeta → Fields → Decoded CiCompleted
unfolding str_tuple str_field str_field_or_empty optional_int_field
completed_from_payload meta data' = do
  repo ← str_field "repo_full_name" data'
  number ← optional_int_field "pr_number" data'
  commit_sha ← str_field "commit_sha" data'
  workflow_name ← str_field "workflow_name" data'
  conclusion ← str_field "conclusion" data'
  run_url ← str_field "run_url" data'
  failed_jobs ← str_tuple (get_default "failed_jobs" (arr nil) data') (named "failed_jobs")
  logs_url ← str_field_or_empty "logs_url" data'
  run_id ← optional_int_field "run_id" data'
  ok (record {
    meta = meta;
    repo_full_name = repo;
    pr_number = number;
    commit_sha = commit_sha;
    workflow_name = workflow_name;
    conclusion = conclusion;
    run_url = run_url;
    failed_jobs = failed_jobs;
    logs_url = logs_url;
    run_id = run_id;
  })

mentioned_from_payload : EventMeta → Fields → Decoded ChatMention
unfolding str_field str_field_or_empty optional_int_field
mentioned_from_payload meta data' = do
  platform ← str_field "platform" data'
  channel_id ← str_field "channel_id" data'
  channel_name ← str_field "channel_name" data'
  author ← str_field "author" data'
  message ← str_field "message" data'
  thread_id ← str_field_or_empty "thread_id" data'
  referenced_pr ← optional_int_field "referenced_pr" data'
  ok (record {
    meta = meta;
    platform = platform;
    channel_id = channel_id;
    channel_name = channel_name;
    author = author;
    message = message;
    thread_id = thread_id;
    referenced_pr = referenced_pr;
  })

-- The class that the discriminator names, read from the event's object.
event_of_type : EventType → EventMeta → Fields → Decoded Event
unfolding pr_event_from_payload commented_from_payload reviewed_from_payload completed_from_payload
    mentioned_from_payload
event_of_type pr_opened meta data' = do e ← pr_event_from_payload meta data'; ok (opened e)
event_of_type pr_updated meta data' = do e ← pr_event_from_payload meta data'; ok (updated e)
event_of_type pr_commented meta data' = do e ← commented_from_payload meta data'; ok (commented e)
event_of_type pr_reviewed meta data' = do e ← reviewed_from_payload meta data'; ok (reviewed e)
event_of_type ci_completed meta data' = do e ← completed_from_payload meta data'; ok (completed e)
event_of_type chat_mention meta data' = do e ← mentioned_from_payload meta data'; ok (mentioned e)

module _ (fromisoformat : String → Option Timestamp) where
  unfoldable pub event_from_payload : Fields → Decoded Event
  unfolding str_field require_mapping event_of_type
  event_from_payload data' = do
    kind_text ← str_field "kind" data'
    kind ← parse_event_type kind_text
    meta_value ← require_mapping (get_default "meta" null data') (named "meta")
    meta ← meta_from_payload fromisoformat meta_value
    event_of_type kind meta data'

  unfoldable pub deserialize_job : Json → String → Decoded EventJob
  unfolding require_mapping require_str
  deserialize_job payload delivery_id = do
    data' ← require_mapping payload (named "job")
    guard (equals_one (get_default "schema_version" null data'))
        (unsupported_schema (get_default "schema_version" null data'))
    event_value ← require_mapping (get_default "event" null data') (named "event")
    event ← event_from_payload event_value
    correlation_id ← require_str (get_default "correlation_id" null data') (named "correlation_id")
    ok (record { event = event; correlation_id = correlation_id; delivery_id = delivery_id })
