-- ===== src/Dispatch/Fire.antt =====
-- `fire_job` of src/kiroku/dispatch.py: the check of the streams, the new rows, and the loop that
-- publishes. An exception leaves the rows and the streams as they are at that point, so both are
-- part of the answer. `repr` is Python's.
use Prim.Native.String.{◌++◌ as ◌<>◌}
use bmu.Prelude.{ℕ, suc, ◌+◌, String, Option, none, some, List, [], ◌∷◌, ◌++◌, map}
use bmu.Prelude.{Result, ok, err, ◌>>=◌, ltb, length, if◌then◌else◌}
use bmu.Text.{decimal, is_empty}
use bmu.Runtime.{Runtime, row_get, row_set}
use bmu.Settings.{Settings}
use bmu.Models.Credential.{Credential}
use bmu.Models.Job.{Job, kind_value}
use bmu.Models.Run.{Run, RunBatch, pending, failed}
use bmu.Credentials.{Secrets}
use bmu.Queue.{Redis, Codec, job_stream_for, job_stream_pressure, publish_job}
use bmu.Dispatch.Specs.{Db, Target, device_group_pairs, pool_of, default_credential, spec_for}

-- `stream_counts[stream] = stream_counts.get(stream, 0) + 1`
unfoldable pub count_stream : String → List (String × ℕ) → List (String × ℕ)
unfolding row_get row_set
count_stream stream counts =
    row_set stream (elim (row_get stream counts) [ none ↦ 0 | some n ↦ n ] + 1) counts

unfoldable pub count_streams : Settings → List (String × ℕ) → List Target → List (String × ℕ)
unfolding count_stream job_stream_for pool_of
count_streams settings counts [] = counts
count_streams settings counts (t ∷ ts) =
    count_streams settings (count_stream (job_stream_for settings (pool_of t)) counts) ts

unfoldable pub capacity_message : (String → String) → String → ℕ → ℕ → ℕ → ℕ → String
unfolding decimal
capacity_message repr stream undelivered count high_water max_len =
    "job stream "
    <> (repr stream
        <> (" at capacity: "
            <> (decimal undelivered
                <> (" undelivered + "
                    <> (decimal count
                        <> (" incoming exceeds high-water mark "
                            <> (decimal high_water
                                <> ("/"
                                    <> (decimal max_len <> "; retry when workers catch up")))))))))

abbrev new_run : ℕ → Job → Option ℕ → ℕ → ℕ → Run
new_run id job schedule_id batch_id device_id = record {
  id = id;
  schedule_id = schedule_id;
  batch_id = some batch_id;
  device_id = device_id;
  kind = kind_value job.kind;
  status = pending;
  started_at = none;
  finished_at = none;
  commit_sha = none;
  payload_sha256 = none;
  bytes_captured = none;
  error = none;
  parsed_data = none;
  parse_error = none;
  parser_template_id = none;
  job_id = none;
}

-- The new runs, one to a target, with the ids from the next one on.
unfoldable pub new_runs : ℕ → Job → Option ℕ → ℕ → List Target → List (Target × Run)
new_runs id job schedule_id batch_id [] = []
new_runs id job schedule_id batch_id ((d, group) ∷ ts) =
    ((d, group), new_run id job schedule_id batch_id d.id)
    ∷ new_runs (suc id) job schedule_id batch_id ts

-- `run.status = FAILED`, with the error and the time.
abbrev pub fail_run : String → ℕ → Run → Run
fail_run message now run = record run {
  status = failed;
  error = some message;
  finished_at = some now;
}

unfoldable pub fail_runs : String → ℕ → List (Target × Run) → List Run
fail_runs message now [] = []
fail_runs message now ((t, run) ∷ rest) = fail_run message now run ∷ fail_runs message now rest

-- `log.warning(…)`, in a module that has no `log`.
abbrev log_warning : Result {0} Unit
log_warning = err "name 'log' is not defined"

module _ (redis : Redis) (settings : Settings) {py : Runtime} (codec : Codec py) (secrets : Secrets)
    (repr : String → String) where
  -- The loop over the streams. A stream that would pass the high-water mark makes the message, and
  -- then `log.warning` raises.
  unfoldable pub capacity_error : redis.State → List (String × ℕ) → Result (Option String)
  capacity_error s [] = ok none
  capacity_error s ((stream, count) ∷ rest) =
      let later = capacity_error s rest in
      elim (job_stream_pressure redis settings s stream) [
        | err e ↦ err e
        | ok (undelivered, max_len) ↦
            if ltb settings.high_water (undelivered + count)
            then (do
              warned ← log_warning
              ok (
                  some
                    (capacity_message repr stream undelivered count settings.high_water max_len)))
            else later
      ]

  -- What the loop that publishes leaves: the exception that ended it, if any; the runs; how many
  -- of them it failed; and the streams.
  pub record Published : Type 0 where
    pub raised : Option String
    pub runs : List Run
    pub failures : ℕ
    pub streams : redis.State

  abbrev runs_of : List (Target × Run) → List Run
  runs_of pairs = map (λ (_, run). run) pairs

  unfoldable pub publish_all :
      redis.State → Option Credential → Job → Option ℕ → ℕ → List (Target × Run) → Published
  publish_all s default job schedule_id now [] = record {
    raised = none;
    runs = [];
    failures = 0;
    streams = s;
  }
  publish_all s default job schedule_id now ((t, run) ∷ rest) =
      elim (spec_for secrets default job schedule_id t run) [
        | err e ↦ record { raised = some e; runs = run ∷ runs_of rest; failures = 0; streams = s }
        | ok none ↦
            let p = publish_all s default job schedule_id now rest in
            record p {
              runs = fail_run "no credential available" now run ∷ p.runs;
              failures = p.failures + 1;
            }
        | ok (some spec) ↦ elim (publish_job redis settings codec s spec) [
          | err e ↦ record { raised = some e; runs = run ∷ runs_of rest; failures = 0; streams = s }
          | ok (msg_id, s') ↦
              let p = publish_all s' default job schedule_id now rest in
              record p { runs = run ∷ p.runs }
        ]
      ]

  -- The batch or the exception, the rows, and the streams.
  pub record Fired : Type 0 where
    pub answer : Result RunBatch
    pub db : Db
    pub streams : redis.State

  abbrev pub new_batch : Db → Job → Option ℕ → Option String → ℕ → ℕ → ℕ → RunBatch
  new_batch db job schedule_id schedule_name now created total = record {
    id = db.next_batch;
    schedule_id = schedule_id;
    schedule_name = elim schedule_name [
      | none ↦ job.name
      | some n ↦ if is_empty n then job.name else n
    ];
    kind = kind_value job.kind;
    total = total;
    succeeded = 0;
    failed = 0;
    started_at = some now;
    finished_at = none;
    commit_sha = none;
    created_at = created;
  }

  -- The rows with a new batch and its runs.
  abbrev pub with_batch : Db → RunBatch → List Run → ℕ → Db
  with_batch db batch runs count = record db {
    batches = db.batches ++ batch ∷ [];
    runs = db.runs ++ runs;
    next_batch = suc db.next_batch;
    next_run = db.next_run + count;
  }

  -- The branch for a message is never taken, since the check of the streams raises where it makes
  -- one.
  unfoldable pub fire_job : Db → redis.State → Job → Option ℕ → Option String → ℕ → ℕ → Fired
  fire_job db s job schedule_id schedule_name now created =
      let targets = device_group_pairs job in
      let total = length targets in
      let batch = new_batch db job schedule_id schedule_name now created total in
      let pairs = new_runs db.next_run job schedule_id db.next_batch targets in
      elim (capacity_error s (count_streams settings [] targets)) [
        | err e ↦ record { answer = err e; db = db; streams = s }
        | ok (some message) ↦
            let closed = record batch { failed = total; finished_at = some now } in
            record {
              answer = ok closed;
              db = with_batch db closed (fail_runs message now pairs) total;
              streams = s;
            }
        | ok none ↦
            let p = publish_all s (default_credential db.credentials) job schedule_id now pairs in
            let open_batch = record batch { failed = p.failures } in
            record {
              answer = elim p.raised [ none ↦ ok open_batch | some e ↦ err e ];
              db = with_batch db open_batch p.runs total;
              streams = p.streams;
            }
      ]
