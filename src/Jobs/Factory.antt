-- ===== src/Jobs/Factory.antt =====
-- How a queue is built: `RedisStreamsJobQueue.__init__` and `from_url` of src/app/jobs.py, and
-- src/app/queue_factory.py. redis-py is a parameter: the client of an address, and what its
-- exceptions are.
use qaestro.Prelude.{
  ℤ, String, Bool, ◌&&◌, [], Result, ok, err, if◌then◌else◌, ◌==◌, string_eq, text_or, occurs,
}
use qaestro.Prelude.Exec.{Exec, lift, ◌>>=◌, ◌>>◌}
use qaestro.Config.{AppConfig}
use qaestro.Jobs.{QueueError}
use qaestro.Jobs.Memory.{MemoryQueue}
use qaestro.Jobs.Redis.{RedisConfig, RedisStreamClient, TimingError, validate_timing}

pub data BuildError : Type 0 where
  bad_timing : TimingError → BuildError
  redis_error : QueueError → BuildError
  -- `ValueError`, with the name of the backend.
  unsupported_backend : String → BuildError

pub data BuiltQueue (S : Type 0) : Type 0 where
  memory : MemoryQueue → BuiltQueue S
  redis_streams : RedisConfig → RedisStreamClient S → String → BuiltQueue S

pub record Redis (S : Type 0) : Type 0 where
  pub from_url : String → Result QueueError (RedisStreamClient S)
  pub is_response_error : QueueError → Bool
  pub text_of : QueueError → String

module _ {S : Type 0} (redis : Redis S) where
  -- A group that is there already is kept.
  abbrev pub group_kept : Result QueueError (Unit {0}) → Result BuildError (Unit {0})
  group_kept (ok u) = ok u
  group_kept (err e) =
      if redis.is_response_error e && occurs "BUSYGROUP" (redis.text_of e)
      then ok tt
      else err (redis_error e)

  -- `_ensure_group`
  unfoldable pub ensure_group : RedisConfig → RedisStreamClient S → Exec BuildError S (Unit {0})
  ensure_group cfg client s =
      let (r, s') = client.xgroup_create cfg.stream cfg.group s in (group_kept r, s')

  abbrev pub timed : ℤ → ℤ → Result BuildError (Unit {0})
  timed read_block_ms claim_idle_ms = elim (validate_timing read_block_ms claim_idle_ms) [
    | ok u ↦ ok u
    | err e ↦ err (bad_timing e)
  ]

  -- `RedisStreamsJobQueue(...)`, with the cursor "0-0".
  unfoldable pub make_queue : RedisConfig → RedisStreamClient S → Exec BuildError S (BuiltQueue S)
  unfolding ensure_group
  make_queue cfg client = do
    lift (timed cfg.read_block_ms cfg.claim_idle_ms)
    ensure_group cfg client
    lift (ok (redis_streams cfg client "0-0"))

  abbrev pub client_at : String → Result BuildError (RedisStreamClient S)
  client_at url = elim (redis.from_url url) [ ok client ↦ ok client | err e ↦ err (redis_error e) ]

  unfoldable pub build_job_queue : AppConfig → String → Exec BuildError S (BuiltQueue S)
  unfolding make_queue
  build_job_queue cfg consumer =
      if cfg.queue_backend == "memory"
      then lift (ok (memory (record { jobs = [] })))
      else if cfg.queue_backend == "redis-streams"
      then (do
        lift (timed cfg.redis_read_block_ms cfg.redis_claim_idle_ms)
        client ← lift (client_at cfg.redis_url)
        make_queue
            (record {
              stream = cfg.redis_stream;
              group = cfg.redis_consumer_group;
              consumer = text_or consumer cfg.redis_consumer;
              read_block_ms = cfg.redis_read_block_ms;
              claim_idle_ms = cfg.redis_claim_idle_ms;
            })
            client)
      else lift (err (unsupported_backend cfg.queue_backend))
