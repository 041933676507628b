-- ===== src/Tests/Lifecycle.antt =====
-- The theorems on the lifecycle of batches, at concrete inputs.
use bmu.Prelude.{◌+◌, ◌<◌, ◌≡◌, refl, ◌↔◌, true, none, some, [], ◌∷◌, arith, find_row, is_some}
use bmu.Models.Run.{Run, RunBatch, pending, failed}
use bmu.Jobs.{JobResult}
use bmu.Models.Job.{kind_value}
use bmu.Queue.{job_stream_pressure, publish_job}
use bmu.Credentials.{resolve_credential}
use bmu.Dispatch.Specs.{device_group_pairs, credential_of, default_credential, spec_for}
use bmu.Dispatch.Fire.{capacity_error, count_streams, new_runs, publish_all, fire_job}
use bmu.Recorder.Store.{commit_batch}
use bmu.Recorder.State.{staged_paths}
use bmu.Recorder.Payload.{batch_id, count_result, stamp_runs, note_times}
use bmu.Recorder.Persist.{
  Persisted, persist, persist_block, session_scope, persist_run, apply_result, save_payload,
  is_complete, close_batch, auto_evaluate_compliance, batch_devices, commit_close, write_back,
  evaluate_all,
}
use bmu.Recorder.Reaping.{open_runs}
use bmu.Web.Runs.{has_status, cancel_batch}
use bmu.Lifecycle.Steps.{System, fired, Reach, start, next}
use bmu.Lifecycle.Batches.{Reach-balanced, has_status-running, persist_last, cancel_batch_finishes}
use bmu.Tests.Values.{python, engine, git, server, json, secrets, repr, settings, job, rows, memory}
use bmu.Tests.Dispatch.{nightly}
use bmu.Tests.Recorder.{iso, to_json, result}

abbrev before : System git python
before = record {
  rows = record rows { runs = []; batches = [] };
  memory = memory;
  next_run = 1;
  next_batch = 1;
}

abbrev waiting_run : Run
waiting_run = record {
  id = 1;
  schedule_id = none;
  batch_id = some 1;
  device_id = 1;
  kind = "backup";
  status = pending;
  started_at = none;
  finished_at = none;
  commit_sha = none;
  payload_sha256 = none;
  bytes_captured = none;
  error = none;
  parsed_data = none;
  parse_error = none;
  parser_template_id = none;
  job_id = none;
}

-- The system when the job was fired: one run waits, and one has failed.
abbrev after : System git python
after = record before {
  rows = record (before.rows) {
    runs =
        waiting_run
        ∷ record waiting_run {
          id = 2;
          device_id = 2;
          status = failed;
          error = some "no credential available";
          finished_at = some 50;
        }
        ∷ [];
    batches = nightly ∷ [];
  };
  next_run = 3;
  next_batch = 2;
}

reached : Reach git python engine iso to_json server settings json secrets repr after
unfolding fire_job publish_all capacity_error count_streams device_group_pairs job_stream_pressure
    new_runs spec_for credential_of resolve_credential publish_job default_credential kind_value
reached = next (start before refl refl (omega arith)) (fired before [] [] job none none 50 49) tt

Reach-balanced_example :
    (nightly.succeeded + nightly.failed + open_runs 1 after.rows.runs ≡ nightly.total)
    × (is_some nightly.finished_at ≡ true → open_runs 1 after.rows.runs ≡ 0)
unfolding find_row
Reach-balanced_example =
    Reach-balanced git python engine iso to_json server settings json secrets repr after 1 nightly
      reached refl

has_status-running_example :
    (has_status "running" nightly ≡ true) ↔ (0 < open_runs 1 after.rows.runs)
unfolding find_row
has_status-running_example =
    has_status-running git python engine iso to_json server settings json secrets repr after 1
      nightly reached refl

-- The result of the run that waits.
abbrev last : JobResult python
last = record result { run_id = 1 }

abbrev stored : Persisted git python engine iso to_json
stored = persist git python engine iso to_json 90 last after.rows after.memory

stored_example : stored.raised ≡ none
unfolding persist persist_block session_scope find_row persist_run apply_result save_payload
    is_complete count_result close_batch auto_evaluate_compliance batch_devices commit_close
    commit_batch staged_paths stamp_runs write_back note_times evaluate_all
stored_example = refl

persist_last_example :
    (y : RunBatch) × (find_row batch_id 1 stored.rows.batches ≡ some y)
    × (is_some y.finished_at ≡ true)
    × (y.succeeded + y.failed ≡ 2)
unfolding find_row
persist_last_example =
    persist_last git python engine iso to_json server settings json secrets repr after 90 1 last
      waiting_run nightly reached refl refl refl refl refl stored_example

cancel_batch_finishes_example :
    (y : RunBatch) × (find_row batch_id 1 (cancel_batch 99 1 after.rows).batches ≡ some y)
    × (is_some y.finished_at ≡ true)
    × (open_runs 1 (cancel_batch 99 1 after.rows).runs ≡ 0)
    × (y.succeeded + y.failed ≡ 2)
unfolding find_row
cancel_batch_finishes_example =
    cancel_batch_finishes git python engine iso to_json server settings json secrets repr after 99 1
      nightly reached refl
