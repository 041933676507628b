-- ===== src/Models/Run.antt =====
-- src/kiroku/models/run.py and run_batch.py
use bmu.Prelude.{ℕ, String, Option}

pub data RunStatus : Type 0 where
  pending running success failed timeout cancelled : RunStatus

-- `parsed_data` is kept as the text of its JSON.
pub record Run : Type 0 where
  pub id : ℕ
  pub schedule_id : Option ℕ
  pub batch_id : Option ℕ
  pub device_id : ℕ
  pub kind : String
  pub status : RunStatus
  pub started_at : Option ℕ
  pub finished_at : Option ℕ
  pub commit_sha : Option String
  pub payload_sha256 : Option String
  pub bytes_captured : Option ℕ
  pub error : Option String
  pub parsed_data : Option String
  pub parse_error : Option String
  pub parser_template_id : Option ℕ
  pub job_id : Option ℕ

-- `created_at` comes from `TimestampMixin`.
pub record RunBatch : Type 0 where
  pub id : ℕ
  pub schedule_id : Option ℕ
  pub schedule_name : String
  pub kind : String
  pub total : ℕ
  pub succeeded : ℕ
  pub failed : ℕ
  pub started_at : Option ℕ
  pub finished_at : Option ℕ
  pub commit_sha : Option String
  pub created_at : ℕ
