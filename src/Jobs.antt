-- ===== src/Jobs.antt =====
-- src/kiroku/jobs.py: what travels through the Redis streams. A kind is the text of the source's
-- `Literal`.
use bmu.Prelude.{ℕ, String, Bool, Option, List}
use bmu.Runtime.{Runtime, Row}
use bmu.Parsers.{Parsed}

pub record CredentialRef : Type 0 where
  pub provider : String
  pub credential_id : ℕ
  pub ref : Option String

pub record EmbeddedCredential : Type 0 where
  pub username : String
  pub password : Option String
  pub enable_password : Option String
  pub private_key : Option String
  pub private_key_passphrase : Option String

pub record JobSpec : Type 0 where
  pub run_id : ℕ
  pub schedule_id : Option ℕ
  pub device_id : ℕ
  pub device_name : String
  pub hostname : String
  pub port : Option ℕ
  pub kind : String
  pub job_id : ℕ
  pub driver_kind : String
  pub platform : Option String
  pub custom_platform_yaml : Option String
  pub transport : Option String
  pub commands : List String
  pub rpc : Option String
  pub parser_template_id : Option ℕ
  pub parser_type : Option String
  pub parser_body : Option String
  pub cve_vendor : Option String
  pub cve_product : Option String
  pub connect_timeout : Option ℕ
  pub command_timeout : Option ℕ
  pub worker_pool : Option String
  pub credential : CredentialRef
  pub credential_material : Option EmbeddedCredential

pub record CommandResult : Type 0 where
  pub command : String
  pub output : String
  pub elapsed_ms : ℕ
  pub failed : Bool

pub record JobResult (py : Runtime) : Type 0 where
  pub run_id : ℕ
  pub device_id : ℕ
  pub device_name : String
  pub kind : String
  pub success : Bool
  pub error : Option String
  pub started_at : String
  pub finished_at : String
  pub config_text : Option String
  pub command_results : List CommandResult
  pub parsed : Parsed py
  pub parse_error : Option String
  pub parser_template_id : Option ℕ
  pub job_id : Option ℕ
  pub cve_entries : List (Row py)
  pub cpe : Option String
