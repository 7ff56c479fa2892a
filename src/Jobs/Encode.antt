-- ===== src/Jobs/Encode.antt =====
-- `_serialize_job` of src/app/jobs.py: a job as the JSON value that `json.dumps` writes.
use qaestro.Prelude.{pos, String, Option, none, some, List, [], ◌∷◌, ℤ}
use qaestro.Json.{Json, Items, Fields, null, bool, int, str, arr, obj, nil, cons, end, field}
use qaestro.Contracts.{
  EventMeta, FileChange, PrEvent, Event, opened, updated, commented, reviewed, completed, mentioned,
  event_meta, event_type_value, event_source_value,
}
use qaestro.Jobs.{EventJob}

-- `None` is written as `null`.
unfoldable pub optional_int_json : Option ℤ → Json
optional_int_json none = null
optional_int_json (some n) = int n

unfoldable pub texts_json : List String → Items
texts_json [] = nil
texts_json (s ∷ ss) = cons (str s) (texts_json ss)

unfoldable pub file_json : FileChange → Json
file_json f = obj (
    field "path" (str f.path) (
      field "status" (str f.status) (
        field "additions" (int f.additions) (
          field "deletions" (int f.deletions)
            (field "previous_filename" (str f.previous_filename) end)))))

unfoldable pub files_json : List FileChange → Items
files_json [] = nil
files_json (f ∷ fs) = cons (file_json f) (files_json fs)

-- `asdict(event.meta)`, with the two enumerations and the time replaced by texts.
unfoldable pub meta_fields : EventMeta → Fields
meta_fields m = field "event_id" (str m.event_id) (
    field "event_type" (str (event_type_value m.event_type)) (
      field "correlation_id" (str m.correlation_id) (
        field "timestamp" (str m.timestamp.iso)
          (field "source" (str (event_source_value m.source)) end))))

unfoldable pub pr_event_json : PrEvent → Fields → Fields
pr_event_json e rest = field "meta" (obj (meta_fields e.meta)) (
    field "repo_full_name" (str e.repo_full_name) (
      field "pr_number" (int e.pr_number) (
        field "title" (str e.title) (
          field "body" (str e.body) (
            field "author" (str e.author) (
              field "base_branch" (str e.base_branch) (
                field "head_branch" (str e.head_branch) (
                  field "diff_url" (str e.diff_url) (
                    field "files_changed" (arr (files_json e.files_changed))
                      (field "head_sha" (str e.head_sha) rest))))))))))

-- `asdict(event)`, followed by the entries that `_event_to_payload` adds.
unfoldable pub event_fields : Event → Fields → Fields
unfolding pr_event_json
event_fields (opened e) rest = pr_event_json e rest
event_fields (updated e) rest = pr_event_json e rest
event_fields (commented e) rest = field "meta" (obj (meta_fields e.meta)) (
    field "repo_full_name" (str e.repo_full_name) (
      field "pr_number" (int e.pr_number) (
        field "comment_id" (int e.comment_id) (
          field "author" (str e.author) (
            field "body" (str e.body) (
              field "is_review_comment" (bool e.is_review_comment)
                (field "path" (str e.path) (field "line" (optional_int_json e.line) rest))))))))
event_fields (reviewed e) rest = field "meta" (obj (meta_fields e.meta)) (
    field "repo_full_name" (str e.repo_full_name) (
      field "pr_number" (int e.pr_number) (
        field "reviewer" (str e.reviewer)
          (field "state" (str e.state) (field "body" (str e.body) rest)))))
event_fields (completed e) rest = field "meta" (obj (meta_fields e.meta)) (
    field "repo_full_name" (str e.repo_full_name) (
      field "pr_number" (optional_int_json e.pr_number) (
        field "commit_sha" (str e.commit_sha) (
          field "workflow_name" (str e.workflow_name) (
            field "conclusion" (str e.conclusion) (
              field "run_url" (str e.run_url) (
                field "failed_jobs" (arr (texts_json e.failed_jobs)) (
                  field "logs_url" (str e.logs_url)
                    (field "run_id" (optional_int_json e.run_id) rest)))))))))
event_fields (mentioned e) rest = field "meta" (obj (meta_fields e.meta)) (
    field "platform" (str e.platform) (
      field "channel_id" (str e.channel_id) (
        field "channel_name" (str e.channel_name) (
          field "author" (str e.author) (
            field "message" (str e.message) (
              field "thread_id" (str e.thread_id)
                (field "referenced_pr" (optional_int_json e.referenced_pr) rest)))))))

unfoldable pub event_to_payload : Event → Fields
unfolding event_fields
event_to_payload e =
    event_fields e (field "kind" (str (event_type_value (event_meta e).event_type)) end)

unfoldable pub serialize_job : EventJob → Json
serialize_job j = obj (
    field "schema_version" (int (pos 1)) (
      field "correlation_id" (str j.correlation_id)
        (field "event" (obj (event_to_payload j.event)) end)))
