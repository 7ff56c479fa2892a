-- ===== src/Gateway/Raw.antt =====
-- The events of src/core/contracts/events.py as the parsers of src/core/contracts/parsers.py make
-- them. A dataclass checks no attribute, so an attribute whose annotation is `str` holds whatever
-- value the payload has.
use qaestro.Prelude.{ℤ, String, Bool, Option, List, map}
use qaestro.Json.{Json, str}
use qaestro.Contracts.{
  EventType, pr_opened, pr_updated, pr_commented, pr_reviewed, ci_completed, chat_mention,
  EventMeta, FileChange, PrEvent, PrCommented, PrReviewed, CiCompleted, ChatMention, Event,
}
use qaestro.Contracts

pub record RawFileChange : Type 0 where
  pub path : Json
  pub status : Json
  pub additions : ℤ
  pub deletions : ℤ
  pub previous_filename : Json

pub record RawPrEvent : Type 0 where
  pub meta : EventMeta
  pub repo_full_name : Json
  pub pr_number : ℤ
  pub title : Json
  pub body : Json
  pub author : Json
  pub base_branch : Json
  pub head_branch : Json
  pub diff_url : Json
  pub files_changed : List RawFileChange
  pub head_sha : Json

pub record RawPrCommented : Type 0 where
  pub meta : EventMeta
  pub repo_full_name : Json
  pub pr_number : ℤ
  pub comment_id : ℤ
  pub author : Json
  pub body : Json
  pub is_review_comment : Bool
  pub path : Json
  pub line : Option ℤ

pub record RawPrReviewed : Type 0 where
  pub meta : EventMeta
  pub repo_full_name : Json
  pub pr_number : ℤ
  pub reviewer : Json
  pub state : String
  pub body : Json

pub record RawCiCompleted : Type 0 where
  pub meta : EventMeta
  pub repo_full_name : Json
  pub pr_number : Option ℤ
  pub commit_sha : Json
  pub workflow_name : Json
  pub conclusion : Json
  pub run_url : Json
  pub failed_jobs : List Json
  pub logs_url : Json
  pub run_id : Option ℤ

-- The union of the event classes; no parser makes a mention.
pub data RawEvent : Type 0 where
  opened : RawPrEvent → RawEvent
  updated : RawPrEvent → RawEvent
  commented : RawPrCommented → RawEvent
  reviewed : RawPrReviewed → RawEvent
  completed : RawCiCompleted → RawEvent
  mentioned : ChatMention → RawEvent

pub record RawJob : Type 0 where
  pub event : RawEvent
  pub correlation_id : String
  pub delivery_id : String

abbrev pub raw_meta : RawEvent → EventMeta
raw_meta (opened e) = e.meta
raw_meta (updated e) = e.meta
raw_meta (commented e) = e.meta
raw_meta (reviewed e) = e.meta
raw_meta (completed e) = e.meta
raw_meta (mentioned e) = e.meta

abbrev pub raw_type : RawEvent → EventType
raw_type (opened e) = pr_opened
raw_type (updated e) = pr_updated
raw_type (commented e) = pr_commented
raw_type (reviewed e) = pr_reviewed
raw_type (completed e) = ci_completed
raw_type (mentioned e) = chat_mention

abbrev pub raw_file : FileChange → RawFileChange
raw_file f = record {
  path = str f.path;
  status = str f.status;
  additions = f.additions;
  deletions = f.deletions;
  previous_filename = str f.previous_filename;
}

abbrev pub raw_pr : PrEvent → RawPrEvent
raw_pr e = record {
  meta = e.meta;
  repo_full_name = str e.repo_full_name;
  pr_number = e.pr_number;
  title = str e.title;
  body = str e.body;
  author = str e.author;
  base_branch = str e.base_branch;
  head_branch = str e.head_branch;
  diff_url = str e.diff_url;
  files_changed = map raw_file e.files_changed;
  head_sha = str e.head_sha;
}

-- An event whose attributes have their annotated types.
abbrev pub raw_of : Event → RawEvent
raw_of (Contracts.opened e) = opened (raw_pr e)
raw_of (Contracts.updated e) = updated (raw_pr e)
raw_of (Contracts.commented e) = commented (record {
  meta = e.meta;
  repo_full_name = str e.repo_full_name;
  pr_number = e.pr_number;
  comment_id = e.comment_id;
  author = str e.author;
  body = str e.body;
  is_review_comment = e.is_review_comment;
  path = str e.path;
  line = e.line;
})
raw_of (Contracts.reviewed e) = reviewed (record {
  meta = e.meta;
  repo_full_name = str e.repo_full_name;
  pr_number = e.pr_number;
  reviewer = str e.reviewer;
  state = e.state;
  body = str e.body;
})
raw_of (Contracts.completed e) = completed (record {
  meta = e.meta;
  repo_full_name = str e.repo_full_name;
  pr_number = e.pr_number;
  commit_sha = str e.commit_sha;
  workflow_name = str e.workflow_name;
  conclusion = str e.conclusion;
  run_url = str e.run_url;
  failed_jobs = map str e.failed_jobs;
  logs_url = str e.logs_url;
  run_id = e.run_id;
})
raw_of (Contracts.mentioned e) = mentioned e
