-- ===== src/Jobs/RoundTrip.antt =====
-- Decoding what the encoder wrote.
use qaestro.Prelude.{
  ℕ, ◌+◌, String, ◌≡◌, refl, ap, Option, none, some, List, [], ◌∷◌, ℤ, ok, Ensures, Ensures-bind,
  Ensures-ok, string_eq,
}
use qaestro.Json.{Json, get, equals_one}
use qaestro.Contracts.{
  EventType, pr_opened, pr_updated, pr_commented, pr_reviewed, ci_completed, chat_mention,
  EventSource, github, slack, teams, replay, Timestamp, EventMeta, FileChange, Event, opened,
  updated, commented, reviewed, completed, mentioned, event_meta, IsTyped, class_type,
  event_type_value, event_type_of, event_source_value, event_source_of,
}
use qaestro.Jobs.{EventJob, Place, DecodeError}
use qaestro.Jobs.Encode.{
  optional_int_json, texts_json, file_json, files_json, meta_fields, event_to_payload,
  serialize_job,
}
use qaestro.Jobs.Decode.{
  optional_int, strings_from, files_from, file_change_from_payload, meta_from_payload,
  parse_event_type, parse_event_source, parse_timestamp, str_tuple,
}
use qaestro.Jobs.Read.{event_from_payload, deserialize_job}

parse-event_type_value : (t : EventType) → parse_event_type (event_type_value t) ≡ ok t
unfolding parse_event_type event_type_value event_type_of
parse-event_type_value pr_opened = refl
parse-event_type_value pr_updated = refl
parse-event_type_value pr_commented = refl
parse-event_type_value pr_reviewed = refl
parse-event_type_value ci_completed = refl
parse-event_type_value chat_mention = refl

parse-event_source_value : (s : EventSource) → parse_event_source (event_source_value s) ≡ ok s
unfolding parse_event_source event_source_value event_source_of
parse-event_source_value github = refl
parse-event_source_value slack = refl
parse-event_source_value teams = refl
parse-event_source_value replay = refl

optional_int-json : (o : Option ℤ) (place : Place) → optional_int (optional_int_json o) place ≡ ok o
unfolding optional_int optional_int_json
optional_int-json none place = refl
optional_int-json (some n) place = refl

strings_from-texts_json : (i : ℕ) (ss : List String) → strings_from i (texts_json ss) ≡ ok ss
unfolding strings_from texts_json
strings_from-texts_json i [] = refl
strings_from-texts_json i (s ∷ ss) = rw (strings_from-texts_json (i + 1) ss)

files_from-files_json : (i : ℕ) (fs : List FileChange) → files_from i (files_json fs) ≡ ok fs
unfolding files_from files_json file_json file_change_from_payload get
files_from-files_json i [] = refl
files_from-files_json i (f ∷ fs) = rw (files_from-files_json (i + 1) fs)

-- The discriminator of a payload is read back as the class of the event.
kind-round :
    (e : Event)
    → IsTyped e
    → parse_event_type (event_type_value (event_meta e).event_type) ≡ ok (class_type e)
kind-round e t = rw parse-event_type_value (ap ok t)

module _ (fromisoformat : String → Option Timestamp) where
  parse_timestamp-iso :
      (t : Timestamp) → fromisoformat t.iso ≡ some t → parse_timestamp fromisoformat t.iso ≡ ok t
  unfolding parse_timestamp
  parse_timestamp-iso t h = rw (h, parse_timestamp)

  meta_from_payload-meta_fields :
      (m : EventMeta)
      → fromisoformat m.timestamp.iso ≡ some m.timestamp
      → meta_from_payload fromisoformat (meta_fields m) ≡ ok m
  unfolding meta_from_payload meta_fields get
  meta_from_payload-meta_fields m h =
      rw parse-event_type_value
        (rw (parse_timestamp-iso m.timestamp h) (rw parse-event_source_value))

  -- The payload of an event whose class its metadata names decodes to the event.
  event_from-to_payload :
      (e : Event)
      → IsTyped e
      → fromisoformat (event_meta e).timestamp.iso ≡ some (event_meta e).timestamp
      → event_from_payload fromisoformat (event_to_payload e) ≡ ok e
  unfolding event_from_payload event_to_payload get str_tuple
  event_from-to_payload (opened e) t h =
      rw (kind-round (opened e) t)
        (rw (meta_from_payload-meta_fields e.meta h) (rw files_from-files_json))
  event_from-to_payload (updated e) t h =
      rw (kind-round (updated e) t)
        (rw (meta_from_payload-meta_fields e.meta h) (rw files_from-files_json))
  event_from-to_payload (commented e) t h =
      rw (kind-round (commented e) t)
        (rw (meta_from_payload-meta_fields e.meta h) (rw optional_int-json))
  event_from-to_payload (reviewed e) t h =
      rw (kind-round (reviewed e) t) (rw (meta_from_payload-meta_fields e.meta h) refl)
  event_from-to_payload (completed e) t h = rw (kind-round (completed e) t) (
      rw (meta_from_payload-meta_fields e.meta h)
        (rw optional_int-json (rw strings_from-texts_json (rw optional_int-json))))
  event_from-to_payload (mentioned e) t h =
      rw (kind-round (mentioned e) t)
        (rw (meta_from_payload-meta_fields e.meta h) (rw optional_int-json))

  -- A job whose event's metadata names the event's class, and whose time `fromisoformat` reads
  -- back, is decoded to the same event and correlation id, under the delivery id that is given.
  pub deserialize-serialize_job :
      (j : EventJob) (delivery_id : String)
      → IsTyped j.event
      → fromisoformat (event_meta j.event).timestamp.iso ≡ some (event_meta j.event).timestamp
      → deserialize_job fromisoformat (serialize_job j) delivery_id
        ≡ ok (record j { delivery_id = delivery_id })
  unfolding deserialize_job serialize_job get equals_one
  deserialize-serialize_job j d t h = rw (event_from-to_payload j.event t h)

  delivered :
      (event : Event) (correlation_id id : String)
      → Ensures {E = DecodeError}
          (λ (j : EventJob). j.delivery_id ≡ id)
          (ok (record { event = event; correlation_id = correlation_id; delivery_id = id }))
  delivered event correlation_id id = Ensures-ok _ _ refl

  -- A job is decoded under the delivery id that is given.
  pub deserialize_job-delivery_id :
      (value : Json) (id : String)
      → Ensures (λ (j : EventJob). j.delivery_id ≡ id) (deserialize_job fromisoformat value id)
  unfolding deserialize_job
  deserialize_job-delivery_id value id = search (Ensures-bind, delivered) depth 12
