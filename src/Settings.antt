-- ===== src/Settings.antt =====
-- src/kiroku/config.py: the settings that the modelled code reads. `high_water` stands for
-- `int(stream_max_len * stream_high_water_ratio)`, a product of floating point numbers.
use Prim.Native.String.{◌++◌ as ◌<>◌}
use bmu.Prelude.{ℕ, String, Option, none, some, if◌then◌else◌}
use bmu.Text.{is_empty}

pub record Settings : Type 0 where
  pub job_stream : String
  pub result_stream : String
  pub job_consumer_group : String
  pub result_consumer_group : String
  pub worker_pool : Option String
  pub stream_max_len : ℕ
  pub high_water : ℕ
  pub result_stream_max_len : ℕ
  pub worker_concurrency : ℕ
  pub recorder_batch_timeout : ℕ
  pub worker_connect_timeout : ℕ
  pub worker_command_timeout : ℕ

-- `Settings.effective_job_stream`
unfoldable pub effective_job_stream : Settings → String
effective_job_stream s = elim s.worker_pool [
  | none ↦ s.job_stream
  | some pool ↦ if is_empty pool then s.job_stream else s.job_stream <> (":" <> pool)
]
