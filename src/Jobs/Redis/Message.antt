-- ===== src/Jobs/Redis/Message.antt =====
-- A stream message as a job (`_job_from_message`, `_field_value`, `_to_str` of src/app/jobs.py).
use qaestro.Prelude.{
  String, Option, none, some, List, [], ◌∷◌, Result, ok, err, ◌>>=◌, if◌then◌else◌, ◌==◌, string_eq,
}
use qaestro.Json.{Json}
use qaestro.Contracts.{Timestamp}
use qaestro.Jobs.{
  EventJob, QueuedJob, job, malformed, QueueError, undecodable, DecodeError, not_json, not_utf8,
  missing_field,
}
use qaestro.Jobs.Read.{deserialize_job}

-- A value of a reply: a `str`, bytes that are UTF-8 for a text, or bytes that are not UTF-8.
pub data RedisText : Type 0 where
  text : String → RedisText
  bytes : String → RedisText
  bad_bytes : RedisText

pub record RedisMessage : Type 0 where
  pub message_id : RedisText
  pub fields : List (RedisText × RedisText)

-- `json.dumps`, and `json.loads` with `none` for a JSONDecodeError.
pub record JsonText : Type 0 where
  pub dumps : Json → String
  pub loads : String → Option Json

-- `_to_str`
unfoldable pub to_str : RedisText → Result QueueError String
to_str (text s) = ok s
to_str (bytes s) = ok s
to_str bad_bytes = err undecodable

find_text : String → List (RedisText × RedisText) → Option RedisText
find_text key [] = none
find_text key ((text k, v) ∷ fs) = if k == key then some v else find_text key fs
find_text key ((bytes k, v) ∷ fs) = find_text key fs
find_text key ((bad_bytes, v) ∷ fs) = find_text key fs

find_bytes : String → List (RedisText × RedisText) → Option RedisText
find_bytes key [] = none
find_bytes key ((text k, v) ∷ fs) = find_bytes key fs
find_bytes key ((bytes k, v) ∷ fs) = if k == key then some v else find_bytes key fs
find_bytes key ((bad_bytes, v) ∷ fs) = find_bytes key fs

payload_text : RedisText → Result DecodeError String
payload_text (text s) = ok s
payload_text (bytes s) = ok s
payload_text bad_bytes = err not_utf8

-- The field under the text key, or else under the encoded key.
unfoldable pub field_value : List (RedisText × RedisText) → String → Result DecodeError String
unfolding find_text find_bytes payload_text
field_value fields key = elim (find_text key fields) [
  | some v ↦ payload_text v
  | none ↦ elim (find_bytes key fields) [ some v ↦ payload_text v | none ↦ err (missing_field key) ]
]

module _ (json : JsonText) (fromisoformat : String → Option Timestamp) where
  unfoldable pub parse_payload : String → Result DecodeError Json
  parse_payload payload = elim (json.loads payload) [ none ↦ err not_json | some v ↦ ok v ]

  unfoldable pub decode_fields : List (RedisText × RedisText) → String → Result DecodeError EventJob
  decode_fields fields delivery_id = do
    payload ← field_value fields "job"
    value ← parse_payload payload
    deserialize_job fromisoformat value delivery_id

  -- `except Exception`: what cannot be decoded becomes a malformed job.
  unfoldable pub job_or_malformed : String → Result DecodeError EventJob → QueuedJob
  job_or_malformed delivery_id (ok j) = job j
  job_or_malformed delivery_id (err e) = malformed (record { delivery_id = delivery_id; error = e })

  unfoldable pub job_from_message : RedisMessage → Result QueueError QueuedJob
  unfolding to_str
  job_from_message m = do
    delivery_id ← to_str m.message_id
    ok (job_or_malformed delivery_id (decode_fields m.fields delivery_id))
