-- ===== src/Examples/Jobs.antt =====
-- The jobs' encoding on a concrete job.
use qaestro.Prelude.{◌≡◌, refl, ok}
use qaestro.Jobs.Encode.{serialize_job}
use qaestro.Jobs.Read.{deserialize_job}
use qaestro.Jobs.RoundTrip.{deserialize-serialize_job}
use qaestro.Examples.{opened_job, read_iso}

deserialize-serialize_job_example :
    deserialize_job read_iso (serialize_job opened_job) "1-0"
    ≡ ok (record opened_job { delivery_id = "1-0" })
deserialize-serialize_job_example = deserialize-serialize_job read_iso opened_job "1-0" refl refl
