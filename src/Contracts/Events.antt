-- ===== src/Contracts/Events.antt =====
-- Normalised events (src/core/contracts/events.py). A subclass of `PREvent` has the same fields, so
-- the class of a PR event is the constructor of `Event`.
use qaestro.Prelude.{String, ℤ, Bool, Option, none, some, List, if◌then◌else◌, ◌==◌, string_eq, ◌≡◌}

pub data EventType : Type 0 where
  pr_opened pr_updated pr_commented pr_reviewed ci_completed chat_mention : EventType

-- `EventType.value`
unfoldable pub event_type_value : EventType → String
event_type_value pr_opened = "pr_opened"
event_type_value pr_updated = "pr_updated"
event_type_value pr_commented = "pr_commented"
event_type_value pr_reviewed = "pr_reviewed"
event_type_value ci_completed = "ci_completed"
event_type_value chat_mention = "chat_mention"

-- `EventType(text)`; `none` is the ValueError.
unfoldable pub event_type_of : String → Option EventType
event_type_of text =
    if text == "pr_opened"
    then some pr_opened
    else if text == "pr_updated"
    then some pr_updated
    else if text == "pr_commented"
    then some pr_commented
    else if text == "pr_reviewed"
    then some pr_reviewed
    else if text == "ci_completed"
    then some ci_completed
    else if text == "chat_mention"
    then some chat_mention
    else none

pub data EventSource : Type 0 where
  github slack teams replay : EventSource

-- `EventSource.value`
unfoldable pub event_source_value : EventSource → String
event_source_value github = "github"
event_source_value slack = "slack"
event_source_value teams = "teams"
event_source_value replay = "replay"

-- `EventSource(text)`; `none` is the ValueError.
unfoldable pub event_source_of : String → Option EventSource
event_source_of text =
    if text == "github"
    then some github
    else if text == "slack"
    then some slack
    else if text == "teams"
    then some teams
    else if text == "replay"
    then some replay
    else none

-- A `datetime`, named by the text that its `isoformat` prints.
pub record Timestamp : Type 0 where
  pub iso : String

pub record EventMeta : Type 0 where
  pub event_id : String
  pub event_type : EventType
  pub correlation_id : String
  pub timestamp : Timestamp
  pub source : EventSource

pub record FileChange : Type 0 where
  pub path : String
  pub status : String
  pub additions : ℤ
  pub deletions : ℤ
  pub previous_filename : String

pub record PrEvent : Type 0 where
  pub meta : EventMeta
  pub repo_full_name : String
  pub pr_number : ℤ
  pub title : String
  pub body : String
  pub author : String
  pub base_branch : String
  pub head_branch : String
  pub diff_url : String
  pub files_changed : List FileChange
  pub head_sha : String

pub record PrCommented : Type 0 where
  pub meta : EventMeta
  pub repo_full_name : String
  pub pr_number : ℤ
  pub comment_id : ℤ
  pub author : String
  pub body : String
  pub is_review_comment : Bool
  pub path : String
  pub line : Option ℤ

pub record PrReviewed : Type 0 where
  pub meta : EventMeta
  pub repo_full_name : String
  pub pr_number : ℤ
  pub reviewer : String
  pub state : String
  pub body : String

pub record CiCompleted : Type 0 where
  pub meta : EventMeta
  pub repo_full_name : String
  pub pr_number : Option ℤ
  pub commit_sha : String
  pub workflow_name : String
  pub conclusion : String
  pub run_url : String
  pub failed_jobs : List String
  pub logs_url : String
  pub run_id : Option ℤ

pub record ChatMention : Type 0 where
  pub meta : EventMeta
  pub platform : String
  pub channel_id : String
  pub channel_name : String
  pub author : String
  pub message : String
  pub thread_id : String
  pub referenced_pr : Option ℤ

-- The union of the concrete event classes.
pub data Event : Type 0 where
  opened : PrEvent → Event
  updated : PrEvent → Event
  commented : PrCommented → Event
  reviewed : PrReviewed → Event
  completed : CiCompleted → Event
  mentioned : ChatMention → Event

abbrev pub event_meta : Event → EventMeta
event_meta (opened e) = e.meta
event_meta (updated e) = e.meta
event_meta (commented e) = e.meta
event_meta (reviewed e) = e.meta
event_meta (completed e) = e.meta
event_meta (mentioned e) = e.meta

-- The event type that each class stands for.
abbrev pub class_type : Event → EventType
class_type (opened e) = pr_opened
class_type (updated e) = pr_updated
class_type (commented e) = pr_commented
class_type (reviewed e) = pr_reviewed
class_type (completed e) = ci_completed
class_type (mentioned e) = chat_mention

-- The metadata of the event names the class of the event.
abbrev pub IsTyped : Event → Type 0
IsTyped e = (event_meta e).event_type ≡ class_type e
