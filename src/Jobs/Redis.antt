-- ===== src/Jobs/Redis.antt =====
-- `RedisStreamsJobQueue` of src/app/jobs.py over the part of redis-py that it calls. The client is
-- a parameter: a call takes the server's state to a new one, and returns or raises.
pub mod Message
pub mod Laws
use qaestro.Prelude.{
  ℤ, pos, String, Bool, ◌&&◌, ◌≡◌, not, Option, none, some, List, [], ◌∷◌, Result, ok, err, ltb_ℤ,
  if◌then◌else◌, is_set, ◌==◌, string_eq,
}
use qaestro.Prelude.Exec.{Exec, pure, raise, ◌>>=◌, ◌>>◌}
use qaestro.Json.{Json}
use qaestro.Contracts.{Timestamp}
use qaestro.Jobs.{EventJob, QueuedJob, QueueError, delivery_id_of}
use qaestro.Jobs.Encode.{serialize_job}
use qaestro.Jobs.Redis.Message.{RedisText, RedisMessage, JsonText, to_str, job_from_message}

pub record RedisConfig : Type 0 where
  pub stream : String
  pub group : String
  pub consumer : String
  pub read_block_ms : ℤ
  pub claim_idle_ms : ℤ

-- `RedisStreamClient`. `xreadgroup` returns the messages of each stream, `xautoclaim` the next
-- cursor and the claimed messages.
pub record RedisStreamClient (S : Type 0) : Type 0 where
  pub xgroup_create : String → String → Exec QueueError S (Unit {0})
  pub xadd : String → String → String → Exec QueueError S (Unit {0})
  pub xreadgroup :
      String → String → String → ℤ → Exec QueueError S (List (String × List RedisMessage))
  pub xautoclaim :
      String → String → String → ℤ → String → Exec QueueError S (RedisText × List RedisMessage)
  pub xack : String → String → String → Exec QueueError S (Unit {0})

-- The queue's own state: the server as it is, and the cursor of the next claim.
pub record RedisQueue (S : Type 0) : Type 0 where
  pub server : S
  pub claim_start_id : String

pub data TimingError : Type 0 where
  negative_read_block negative_claim_idle claim_before_read : TimingError

unfoldable pub validate_timing : ℤ → ℤ → Result TimingError (Unit {0})
validate_timing read_block_ms claim_idle_ms =
    if ltb_ℤ read_block_ms (pos 0)
    then err negative_read_block
    else if ltb_ℤ claim_idle_ms (pos 0)
    then err negative_claim_idle
    else if ltb_ℤ (pos 0) read_block_ms && ltb_ℤ claim_idle_ms read_block_ms
    then err claim_before_read
    else ok tt

-- A call of the client, which leaves the cursor alone.
abbrev call : {S A : Type 0} → Exec QueueError S A → Exec QueueError (RedisQueue S) A
call m q = let (r, s) = m q.server in (r, record q { server = s })

set_cursor : {S : Type 0} → String → Exec QueueError (RedisQueue S) (Unit {0})
set_cursor id q = (ok tt, record q { claim_start_id = id })

module _ {S : Type 0} (cfg : RedisConfig) (client : RedisStreamClient S) (json : JsonText)
    (fromisoformat : String → Option Timestamp) where
  unfoldable pub enqueue : EventJob → Exec QueueError (RedisQueue S) (Unit {0})
  enqueue j = call (client.xadd cfg.stream "job" (json.dumps (serialize_job j)))

  -- The first message, if there is one, as a job.
  first_job : List RedisMessage → Exec QueueError (RedisQueue S) (Option QueuedJob)
  first_job [] q = (ok none, q)
  first_job (m ∷ ms) q = elim (job_from_message json fromisoformat m) [
    | ok j ↦ (ok (some j), q)
    | err e ↦ (err e, q)
  ]

  store_cursor : RedisText → Exec QueueError (RedisQueue S) (Unit {0})
  unfolding set_cursor
  store_cursor next q = elim (to_str next) [ ok id ↦ set_cursor id q | err e ↦ (err e, q) ]

  claim_reply : RedisText × List RedisMessage → Exec QueueError (RedisQueue S) (Option QueuedJob)
  unfolding store_cursor first_job
  claim_reply (next, messages) = do store_cursor next; first_job messages

  claim_pending : Exec QueueError (RedisQueue S) (Option QueuedJob)
  unfolding claim_reply
  claim_pending q =
      (do
        reply ←
            call (
              client.xautoclaim cfg.stream cfg.group cfg.consumer cfg.claim_idle_ms
                q.claim_start_id)
        claim_reply reply)
        q

  job_from_streams :
      List (String × List RedisMessage) → Exec QueueError (RedisQueue S) (Option QueuedJob)
  unfolding first_job
  job_from_streams [] = pure none
  job_from_streams ((name, messages) ∷ rest) = first_job messages

  read_new : Exec QueueError (RedisQueue S) (Option QueuedJob)
  unfolding job_from_streams
  read_new = do
    streams ← call (client.xreadgroup cfg.group cfg.consumer cfg.stream cfg.read_block_ms)
    job_from_streams streams

  pending_or_new : Option QueuedJob → Exec QueueError (RedisQueue S) (Option QueuedJob)
  unfolding read_new
  pending_or_new none = read_new
  pending_or_new (some j) = pure (some j)

  unfoldable pub dequeue : Exec QueueError (RedisQueue S) (Option QueuedJob)
  unfolding claim_pending pending_or_new
  dequeue = do pending ← claim_pending; pending_or_new pending

  unfoldable pub ack : QueuedJob → Exec QueueError (RedisQueue S) (Unit {0})
  ack j =
      if is_set (delivery_id_of j)
      then call (client.xack cfg.stream cfg.group (delivery_id_of j))
      else pure tt
