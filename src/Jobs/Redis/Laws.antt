-- ===== src/Jobs/Redis/Laws.antt =====
-- What the Redis queue does with a message, with its two sources and with an acknowledgement.
use qaestro.Prelude.{
  ℤ, pos, neg_part, pos_part, String, ◌≡◌, ◌↔◌, ◌⊎◌, refl, Option, some, List, [], ◌∷◌, Result, ok,
  err, Ensures, Ensures-bind, ◌≤◌, ◌+◌, arith,
}
use qaestro.Json.{Json}
use qaestro.Contracts.{Timestamp, IsTyped, event_meta}
use qaestro.Jobs.{EventJob, QueuedJob, job, DecodeError, QueueError, delivery_id_of}
use qaestro.Jobs.Encode.{serialize_job}
use qaestro.Jobs.RoundTrip.{deserialize_job-delivery_id, deserialize-serialize_job}
use qaestro.Jobs.Redis.{RedisConfig, RedisStreamClient, RedisQueue, validate_timing, dequeue}
use qaestro.Jobs.Redis.Message.{
  RedisText, RedisMessage, JsonText, to_str, field_value, job_from_message, decode_fields,
  job_or_malformed, parse_payload,
}

-- The integer order, through the two parts of an integer.
infix 50 ◌≤ℤ◌
abbrev pub ◌≤ℤ◌ : ℤ → ℤ → Type 0
a ≤ℤ b = pos_part a + neg_part b ≤ pos_part b + neg_part a

-- The timing is accepted exactly when both times are at least 0, and a blocking read, if there is
-- one, is not longer than the idle time after which a message is claimed.
validate_timing_iff :
    (read_block_ms claim_idle_ms : ℤ)
    → (validate_timing read_block_ms claim_idle_ms ≡ ok tt) ↔ (
        (pos 0 ≤ℤ read_block_ms)
        × (pos 0 ≤ℤ claim_idle_ms)
        × ((read_block_ms ≡ pos 0) ⊎ (read_block_ms ≤ℤ claim_idle_ms)))
unfolding validate_timing
validate_timing_iff read_block_ms claim_idle_ms = ground arith

module _ (json : JsonText) (fromisoformat : String → Option Timestamp) where
  job_or_malformed-delivery_id :
      (id : String) (r : Result DecodeError EventJob)
      → Ensures (λ (j : EventJob). j.delivery_id ≡ id) r
      → delivery_id_of (job_or_malformed json fromisoformat id r) ≡ id
  unfolding job_or_malformed
  job_or_malformed-delivery_id id (ok j) h = h.at j refl
  job_or_malformed-delivery_id id (err e) h = refl

  decode_fields-delivery_id :
      (fields : List (RedisText × RedisText)) (id : String)
      → Ensures (λ (j : EventJob). j.delivery_id ≡ id) (decode_fields json fromisoformat fields id)
  unfolding decode_fields
  decode_fields-delivery_id fields id = search (Ensures-bind, deserialize_job-delivery_id) depth 10

  -- Whatever a message holds, if its id decodes then it becomes a job, decoded or malformed, that
  -- is acknowledged under this id.
  delivery_id-job_from_message :
      (m : RedisMessage) {id : String}
      → to_str m.message_id ≡ ok id
      → (j : QueuedJob) × (job_from_message json fromisoformat m ≡ ok j) × (delivery_id_of j ≡ id)
  unfolding job_from_message
  delivery_id-job_from_message m {id} h = (
    job_or_malformed json fromisoformat id (decode_fields json fromisoformat m.fields id),
    rw h,
    job_or_malformed-delivery_id id _ (decode_fields-delivery_id m.fields id),
  )

  parse_payload-dumps :
      (value : Json)
      → json.loads (json.dumps value) ≡ some value
      → parse_payload json fromisoformat (json.dumps value) ≡ ok value
  unfolding parse_payload
  parse_payload-dumps value l = rw (l, parse_payload)

  -- A message whose `job` field, under a text or an encoded key, holds what `enqueue` wrote of a
  -- job becomes that job under the message's id, if `json.loads` reads back what `json.dumps` wrote
  -- of it, the event's metadata names its class and `fromisoformat` reads back its time.
  job_from_message-serialize_job :
      (j : EventJob) (m : RedisMessage) {id : String}
      → to_str m.message_id ≡ ok id
      → field_value m.fields "job" ≡ ok (json.dumps (serialize_job j))
      → json.loads (json.dumps (serialize_job j)) ≡ some (serialize_job j)
      → IsTyped j.event
      → fromisoformat (event_meta j.event).timestamp.iso ≡ some (event_meta j.event).timestamp
      → job_from_message json fromisoformat m ≡ ok (job (record j { delivery_id = id }))
  unfolding job_from_message decode_fields job_or_malformed
  job_from_message-serialize_job j m {id} n f l t h = rw n (
      rw f (
        rw (parse_payload-dumps (serialize_job j) l)
          (rw (deserialize-serialize_job fromisoformat j id t h))))

-- The server's state after a claim, and the job of the first message of a list.
module _ {S : Type 0} (cfg : RedisConfig) (client : RedisStreamClient S) (json : JsonText)
    (fromisoformat : String → Option Timestamp) (q : RedisQueue S) where
  abbrev claim : Result QueueError (RedisText × List RedisMessage) × S
  claim =
      client.xautoclaim cfg.stream cfg.group cfg.consumer cfg.claim_idle_ms q.claim_start_id
        q.server

  -- A pending message that the server lets this consumer claim is taken first: no new message is
  -- read, and the cursor moves on.
  dequeue-pending :
      (next : RedisText) (m : RedisMessage) (ms : List RedisMessage) (s : S) (cursor : String)
      (j : QueuedJob)
      → claim ≡ (ok (next, m ∷ ms), s)
      → to_str next ≡ ok cursor
      → job_from_message json fromisoformat m ≡ ok j
      → dequeue cfg client json fromisoformat q
        ≡ (ok (some j), record { server = s; claim_start_id = cursor })
  unfolding dequeue
  dequeue-pending next m ms s cursor j c n k = ground arith

  -- With nothing to claim, one new message is read from the state that the claim left.
  dequeue-new :
      (next : RedisText) (name : String) (m : RedisMessage) (s s' : S) (cursor : String)
      (rest : List (String × List RedisMessage)) (ms : List RedisMessage) (j : QueuedJob)
      → claim ≡ (ok (next, []), s)
      → to_str next ≡ ok cursor
      → client.xreadgroup cfg.group cfg.consumer cfg.stream cfg.read_block_ms s
        ≡ (ok ((name, m ∷ ms) ∷ rest), s')
      → job_from_message json fromisoformat m ≡ ok j
      → dequeue cfg client json fromisoformat q
        ≡ (ok (some j), record { server = s'; claim_start_id = cursor })
  unfolding dequeue
  dequeue-new next name m s s' cursor rest ms j c n r k = ground arith
