-- ===== src/Jobs.antt =====
-- The jobs that gateway and worker share, and their queues (src/app/jobs.py).
pub mod Encode
pub mod Decode
pub mod Read
pub mod RoundTrip
pub mod Memory
pub mod Redis
pub mod Factory
use qaestro.Prelude.{ℕ, String}
use qaestro.Json.{Json}
use qaestro.Contracts.{Event}

pub record EventJob : Type 0 where
  pub event : Event
  pub correlation_id : String
  pub delivery_id : String

-- Where a value stands in a job's payload: the `field` of the decoder's messages.
pub data Place : Type 0 where
  named : String → Place
  in_meta : String → Place
  file : ℕ → Place
  in_file : ℕ → String → Place
  failed_job : ℕ → Place

-- What the decoder asks of a value.
pub data Shape : Type 0 where
  an_object a_string an_integer a_boolean a_list : Shape

-- The exceptions of the decoder; `str(exc)` is their text.
pub data DecodeError : Type 0 where
  not_json : DecodeError
  not_utf8 : DecodeError
  missing_field : String → DecodeError
  must_be : Place → Shape → DecodeError
  unsupported_schema : Json → DecodeError
  not_an_event_type : String → DecodeError
  not_an_event_source : String → DecodeError
  not_iso_format : String → DecodeError

pub record MalformedEventJob : Type 0 where
  pub delivery_id : String
  pub error : DecodeError

pub data QueuedJob : Type 0 where
  job : EventJob → QueuedJob
  malformed : MalformedEventJob → QueuedJob

abbrev pub delivery_id_of : QueuedJob → String
delivery_id_of (job j) = j.delivery_id
delivery_id_of (malformed m) = m.delivery_id

-- What a queue's call raises: an exception of the client, by its text, or a UnicodeDecodeError.
pub data QueueError : Type 0 where
  client_error : String → QueueError
  undecodable : QueueError
