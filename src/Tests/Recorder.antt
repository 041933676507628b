-- ===== src/Tests/Recorder.antt =====
-- The theorems on the recorder, at concrete inputs.
use bmu.Prelude.{
  ℕ, ◌≡◌, refl, String, true, Option, none, some, [], ◌∷◌, inl, find_row, map_ok, keep_ok,
}
use bmu.Parsers.{parse, Parsed, nothing}
use bmu.Models.Run.{RunBatch, pending}
use bmu.Jobs.{JobResult}
use bmu.Compliance.{
  scoped_device_ids, run_policy_for_devices, device_result, evaluate_policy, evaluate_check,
  rows_of, satisfies,
}
use bmu.Recorder.Store.{commit_batch}
use bmu.Recorder.State.{Rows, staged_paths}
use bmu.Recorder.Payload.{batch_id, count_result, stamp_runs, note_times}
use bmu.Recorder.Persist.{
  Persisted, persist, persist_block, session_scope, persist_run, apply_result, save_payload,
  is_complete, close_batch, auto_evaluate_compliance, batch_devices, commit_close, write_back,
  evaluate_all,
}
use bmu.Prelude.{if◌then◌else◌, ◌==◌, string_eq}
use bmu.Recorder.Diff.{drop_newlines, hunk_start, is_hunk, is_file, diff_rows}
use bmu.Recorder.DiffNumbers.{
  numbers, old_of, new_of, count_from, old_lines, new_lines, diff_rows_lem,
}
use bmu.Recorder.Reaper.{stale_batches, reap_stale_batches, is_stale}
use bmu.Recorder.Counting.{persist_counts}
use bmu.Recorder.Counters.{IsCounted, verdict}
use bmu.Recorder.Closing.{status_of, persist-verdict}
use bmu.Recorder.Reaping.{open_runs, reap_stale_batches_none, reap_stale_batches-closes}
use bmu.Tests.Values.{python, engine, git, run_with, batch, rows, memory, policy_with, check_with}

abbrev pub iso : String → Option ℕ
iso s = some 80

abbrev pub to_json : Parsed python → String
to_json p = ""

-- A backup of the run's device.
abbrev pub result : JobResult python
result = record {
  run_id = 7;
  device_id = 1;
  device_name = "r1";
  kind = "backup";
  success = true;
  error = none;
  started_at = "t0";
  finished_at = "t1";
  config_text = some "hostname r1";
  command_results = [];
  parsed = nothing;
  parse_error = none;
  parser_template_id = none;
  job_id = none;
  cve_entries = [];
  cpe = none;
}

abbrev stored : Persisted git python engine iso to_json
stored = persist git python engine iso to_json 90 result rows memory

stored_example : stored.raised ≡ none
unfolding persist persist_block session_scope find_row persist_run apply_result save_payload
    is_complete count_result close_batch auto_evaluate_compliance batch_devices commit_close
    commit_batch staged_paths stamp_runs write_back note_times evaluate_all
stored_example = refl

persist_counts_example :
    (y : RunBatch) × (find_row batch_id 2 stored.rows.batches ≡ some y) × IsCounted true batch y
unfolding find_row
persist_counts_example =
    persist_counts git python engine iso to_json 90 result (run_with pending) 2 batch rows memory
      refl refl refl refl stored_example

persist-verdict_example : status_of 7 stored.rows.runs ≡ some (verdict true)
unfolding find_row
persist-verdict_example =
    persist-verdict git python engine iso to_json 90 result (run_with pending) rows memory refl refl
      stored_example

reap_none_example :
    stale_batches 50 (reap_stale_batches git python 50 99 (rows, memory)).0.batches ≡ []
reap_none_example = reap_stale_batches_none git python 50 99 rows memory

reap_closes_example : open_runs 2 (reap_stale_batches git python 50 99 (rows, memory)).0.runs ≡ 0
unfolding is_stale
reap_closes_example = reap_stale_batches-closes git python 50 99 batch rows memory (inl refl) refl

-- A policy whose pattern does not compile.
abbrev strict_rows : Rows python
strict_rows = record rows { policies = policy_with (check_with "regex" "(" "any" ∷ []) ∷ [] }

abbrev refused : Persisted git python engine iso to_json
refused = persist git python engine iso to_json 90 result strict_rows memory

refused_example : refused.raised ≡ some "missing )"
unfolding persist persist_block session_scope find_row persist_run apply_result save_payload
    is_complete count_result close_batch auto_evaluate_compliance batch_devices commit_close
    commit_batch staged_paths stamp_runs write_back note_times evaluate_all scoped_device_ids
    run_policy_for_devices map_ok device_result evaluate_policy parse evaluate_check rows_of keep_ok
    satisfies
refused_example = refl

abbrev abs_int : String → Option ℕ
abs_int s = if s == "-3" then some 3 else if s == "+4" then some 4 else none

-- A hunk that replaces the second of two lines.
diff_rows_example :
    (numbers old_of (diff_rows abs_int 0 0 ("@@ -3,2 +4,2 @@" ∷ " a" ∷ "-b" ∷ "+c" ∷ []))
      ≡ count_from 3 (old_lines (" a" ∷ "-b" ∷ "+c" ∷ [])))
    × (numbers new_of (diff_rows abs_int 0 0 ("@@ -3,2 +4,2 @@" ∷ " a" ∷ "-b" ∷ "+c" ∷ []))
        ≡ count_from 4 (new_lines (" a" ∷ "-b" ∷ "+c" ∷ [])))
unfolding drop_newlines hunk_start is_hunk is_file
diff_rows_example =
    diff_rows_lem abs_int 3 4 0 0 "@@ -3,2 +4,2 @@" (" a" ∷ "-b" ∷ "+c" ∷ []) refl refl refl
      ((refl, refl), ((refl, refl), ((refl, refl), tt)))
