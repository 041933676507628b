-- ===== src/Worker.antt =====
-- `_handle` of src/kiroku/worker/runner.py. `execute` of scrapli_runner.py, which talks to the
-- device, is an argument: it returns a result, or raises; `crash_text` is the text that `_handle`
-- makes of an exception and its trace.
pub mod Sessions
pub mod Cli
pub mod Netconf
pub mod Execute
pub mod Outcomes
pub mod Runs
pub mod Executing
pub mod Backups
pub mod Scans
pub mod Handling
pub mod Normalize
pub mod Endings
use bmu.Prelude.{ℕ, String, Bool, true, false, Option, none, some, List, []}
use bmu.Prelude.{Result, ok, err, ◌>>=◌}
use bmu.Runtime.{Runtime}
use bmu.Settings.{Settings}
use bmu.Parsers.{nothing}
use bmu.Models.Credential.{CredentialMaterial}
use bmu.Jobs.{EmbeddedCredential, JobSpec, JobResult}
use bmu.Queue.{Redis, Codec, publish_result, ack_job}

unfoldable pub material_of : EmbeddedCredential → CredentialMaterial
material_of e = record {
  username = e.username;
  password = e.password;
  enable_password = e.enable_password;
  private_key = e.private_key;
  private_key_passphrase = e.private_key_passphrase;
}

abbrev pub no_material : String
no_material = "job spec has no embedded credential_material; re-dispatch from an updated server"

module _ {py : Runtime} where
  -- The result of a job that did not run, or that crashed.
  unfoldable pub failure_result : String → String → JobSpec → JobResult py
  failure_result message now spec = record {
    run_id = spec.run_id;
    device_id = spec.device_id;
    device_name = spec.device_name;
    kind = spec.kind;
    success = false;
    error = some message;
    started_at = now;
    finished_at = now;
    config_text = none;
    command_results = [];
    parsed = nothing;
    parse_error = none;
    parser_template_id = none;
    job_id = none;
    cve_entries = [];
    cpe = none;
  }

  module _ (redis : Redis) (settings : Settings) (codec : Codec py)
      (execute : JobSpec → CredentialMaterial → Result (JobResult py))
      (crash_text : String → String) where
    -- The result that is published. `later` is the time at which a crash is caught.
    unfoldable pub result_of : String → String → JobSpec → JobResult py
    unfolding material_of
    result_of now later spec = elim spec.credential_material [
      | none ↦ failure_result no_material now spec
      | some m ↦ elim (execute spec (material_of m)) [
        | ok result ↦ result
        | err e ↦ failure_result (crash_text e) later spec
      ]
    ]

    unfoldable pub handle : String → String → redis.State → String → JobSpec → Result (redis.State)
    handle now later s msg_id spec = do
      (id, s') ← publish_result redis settings codec s (result_of now later spec)
      ack_job redis settings s' msg_id
