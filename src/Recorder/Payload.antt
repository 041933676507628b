-- ===== src/Recorder/Payload.antt =====
-- The branches of `_persist` of src/kiroku/recorder/runner.py that save what a successful result
-- carries. `fromisoformat` and the JSON of a column are parameters.
use Prim.Native.String.{◌++◌ as ◌<>◌, len}
use bmu.Prelude.{ℕ, ◌+◌, String, Bool, true, false, Option, none, some, or_else}
use bmu.Prelude.{List, [], ◌∷◌}
use bmu.Prelude.{if◌then◌else◌, ◌==◌, nat_eq, string_eq, find_row, update_row}
use bmu.Text.{is_empty, truthy, decimal}
use bmu.Runtime.{Runtime}
use bmu.Parsers.{Parsed, nothing, Engines}
use bmu.Models.Device.{Device}
use bmu.Models.Run.{Run, RunBatch, cancelled}
use bmu.Jobs.{JobResult, CommandResult}
use bmu.Recorder.Store.{Git, stage, file_path, write}
use bmu.Recorder.State.{Rows, Memory, stage_path, upsert_config}

abbrev pub run_id : Run → ℕ
run_id r = r.id

abbrev pub batch_id : RunBatch → ℕ
batch_id b = b.id

abbrev pub device_id : Device → ℕ
device_id d = d.id

abbrev pub is_cancelled : Run → Bool
is_cancelled r = elim r.status [ cancelled ↦ true | _ ↦ false ]

-- `run.batch_id == batch.id`
abbrev pub in_batch : ℕ → Run → Bool
in_batch k r = elim r.batch_id [ none ↦ false | some j ↦ j == k ]

-- `run.batch_id`, if it is true.
abbrev pub key_of : Option ℕ → Option ℕ
key_of none = none
key_of (some k) = if k == 0 then none else some k

-- One batch counter more, for a result that succeeded or failed.
unfoldable pub count_result : Bool → RunBatch → RunBatch
count_result true b = record b { succeeded = b.succeeded + 1 }
count_result false b = record b { failed = b.failed + 1 }

unfoldable pub output_bytes : List CommandResult → ℕ
output_bytes [] = 0
output_bytes (c ∷ cs) = len c.output + output_bytes cs

-- The commit of a batch, on all of its runs.
unfoldable pub stamp_runs : ℕ → String → List Run → List Run
stamp_runs k sha [] = []
stamp_runs k sha (r ∷ rs) =
    (if in_batch k r then record r { commit_sha = some sha } else r) ∷ stamp_runs k sha rs

module _ (git : Git) (py : Runtime) (engines : Engines py) (iso : String → Option ℕ)
    (json : Parsed py → String) where
  -- `_parse_iso`
  unfoldable pub parse_iso : Option String → Option ℕ
  parse_iso none = none
  parse_iso (some s) = if is_empty s then none else iso s

  -- The times and the error of the result, on the run.
  unfoldable pub note_times : JobResult py → Run → Run
  unfolding parse_iso
  note_times result r = record r {
    started_at = or_else (parse_iso (some result.started_at)) r.started_at;
    finished_at = or_else (parse_iso (some result.finished_at)) r.finished_at;
    error = result.error;
  }

  -- What the branches of a successful result work on.
  pub record Work : Type 0 where
    pub run : Run
    pub batch : Option RunBatch
    pub rows : Rows py
    pub memory : Memory git

  abbrev group_of : Rows py → ℕ → String
  group_of rows d = elim (find_row device_id d rows.devices) [
    | none ↦ "ungrouped"
    | some device ↦ elim (rows.group_names d) [ [] ↦ "ungrouped" | g ∷ gs ↦ g ]
  ]

  -- The text of a backup goes to the working tree, and is committed with its batch, or at once if
  -- there is none.
  unfoldable pub store_backup : JobResult py → String → Work → Work
  unfolding stage write stage_path file_path
  store_backup result content w =
      let group = group_of w.rows result.device_id in
      elim w.batch [
        | some b ↦
            let st = stage git w.memory.store group result.device_name content in
            let path = file_path git group result.device_name in
            record w {
              run = record (w.run) { payload_sha256 = some st.sha };
              memory = record {
                store = st.store;
                staged =
                    if st.changed then stage_path b.id path w.memory.staged else w.memory.staged;
              };
            }
        | none ↦
            let wr =
              write git w.memory.store group result.device_name content
                ("run_id=" <> decimal result.run_id) in
            record w {
              run = record (w.run) { commit_sha = wr.commit_sha; payload_sha256 = some wr.sha };
              memory = record (w.memory) { store = wr.store };
            }
      ]

  -- The device's latest backup, and its row of device_configs.
  unfoldable pub note_backup : JobResult py → String → Work → Work
  unfolding upsert_config update_row parse_iso
  note_backup result content w =
      let captured_at = parse_iso (some result.finished_at) in
      let path = file_path git (group_of w.rows result.device_id) result.device_name in
      record w {
        run = record (w.run) { bytes_captured = some (len content) };
        rows = record (w.rows) {
          devices =
              update_row device_id result.device_id
                (λ d. record d { latest_backup_path = some path; latest_backup_at = captured_at })
                w.rows.devices;
          configs =
              upsert_config
                (record {
                  device_id = result.device_id;
                  batch_id = w.run.batch_id;
                  captured_at = captured_at;
                  content = some content;
                })
                w.rows.configs;
        };
      }

  abbrev if_some {ℓ} : {A : Type ℓ} → Option A → Option A → Option A
  if_some none old = old
  if_some (some a) old = some a

  unfoldable pub save_collect : JobResult py → Run → Run
  unfolding output_bytes
  save_collect result r = record r {
    bytes_captured = some (output_bytes result.command_results);
    parsed_data = elim result.parsed [ nothing ↦ r.parsed_data | p ↦ some (json p) ];
    parse_error = if truthy result.parse_error then result.parse_error else r.parse_error;
    parser_template_id = if_some (key_of result.parser_template_id) r.parser_template_id;
    job_id = if_some (key_of result.job_id) r.job_id;
  }
