-- ===== src/Recorder/Persist.antt =====
-- `_persist` of src/kiroku/recorder/runner.py, with the CVE rows, the close of a batch and the
-- evaluation of policies. An exception leaves the memory and the store as they are at that point, and
-- `session_scope` rolls the rows back. `now` is the clock.
use Prim.Native.String.{◌++◌ as ◌<>◌}
use bmu.Prelude.{ℕ, ◌+◌, String, Bool, false, ◌&&◌, Option, none, some, or_else}
use bmu.Prelude.{List, [], ◌∷◌, ◌++◌, map, Result, ok, err, ◌>>=◌, leb, length, contains, keep}
use bmu.Prelude.{if◌then◌else◌, ◌==◌, nat_eq, string_eq, find_row, update_row}
use bmu.Text.{decimal, join}
use bmu.Runtime.{Runtime, Row, row_get}
use bmu.Parsers.{Item, dict, other, Parsed, nothing, listing, mapping, Engines}
use bmu.Models.Run.{Run, RunBatch, success, failed}
use bmu.Models.Compliance.{CompliancePolicy}
use bmu.Jobs.{JobResult}
use bmu.Compliance.{
  PolicyResult, scoped_device_ids, run_policy_for_devices, upsert_compliance_results,
}
use bmu.Recorder.Store.{Git, commit_batch}
use bmu.Recorder.State.{DeviceConfig, CveResult, CveScan, Rows, Memory, staged_paths, unstage}
use bmu.Recorder.Payload.{
  run_id, batch_id, is_cancelled, in_batch, key_of, count_result, stamp_runs, parse_iso, note_times,
  Work, store_backup, note_backup, save_collect,
}

-- The run ids of a batch's devices: `{r.device_id for r in runs of the batch}`.
unfoldable pub batch_devices : ℕ → List Run → List ℕ
batch_devices k [] = []
batch_devices k (r ∷ rs) =
    let rest = batch_devices k rs in if in_batch k r then r.device_id ∷ rest else rest

-- `content_map.get(device_id)`
unfoldable pub config_text : ℕ → List DeviceConfig → Option String
config_text d [] = none
config_text d (c ∷ cs) = if c.device_id == d then c.content else config_text d cs

-- `batch.finished_at is None` and `done >= batch.total`
unfoldable pub is_complete : RunBatch → Bool
is_complete b = elim b.finished_at [ some t ↦ false | none ↦ leb b.total (b.succeeded + b.failed) ]

module _ (git : Git) (py : Runtime) (engines : Engines py) (iso : String → Option ℕ)
    (json : Parsed py → String) where
  -- The first version that the parsed rows give.
  unfoldable pub first_version : List (Item py) → Option String
  unfolding row_get
  first_version [] = none
  first_version (other o ∷ rest) = first_version rest
  first_version (dict r ∷ rest) =
      let later = first_version rest in
      elim (row_get "version" r) [
        | none ↦ later
        | some v ↦ if py.is_true v then some (py.str v) else later
      ]

  unfoldable pub version_of : Parsed py → Option String
  unfolding first_version
  version_of nothing = none
  version_of (listing items) = first_version items
  version_of (mapping []) = none
  version_of (mapping (p ∷ ps)) = first_version (dict (p ∷ ps) ∷ [])

  -- `_parse_iso(entry.get("published_at"))`, for a feed whose dates are texts.
  abbrev published : Row py → Option ℕ
  published entry = elim (row_get "published_at" entry) [
    | none ↦ none
    | some v ↦ if py.is_true v then iso (py.str v) else none
  ]

  unfoldable pub cve_result : Row py → CveResult py
  unfolding row_get
  cve_result entry = record {
    cve_id = elim (row_get "cve_id" entry) [ none ↦ py.text "" | some v ↦ v ];
    cvss_v3_score = row_get "cvss_v3_score" entry;
    severity = row_get "severity" entry;
    summary = row_get "summary" entry;
    published_at = published entry;
    url = row_get "url" entry;
  }

  -- `_record_cve_scan`: the new scan; the run gets the number of entries.
  unfoldable pub cve_scan : ℕ → JobResult py → CveScan py
  unfolding version_of cve_result
  cve_scan now result = record {
    run_id = result.run_id;
    device_id = result.device_id;
    cpe = elim result.cpe [ none ↦ "" | some c ↦ c ];
    version_found = version_of result.parsed;
    raw_version = version_of result.parsed;
    scanned_at = elim (parse_iso git py engines iso json (some result.finished_at)) [
      | none ↦ now
      | some t ↦ t
    ];
    results = map cve_result result.cve_entries;
  }

  -- What a successful result adds, by its kind.
  unfoldable pub save_payload :
      ℕ → JobResult py → Work git py engines iso json → Work git py engines iso json
  unfolding store_backup note_backup save_collect cve_scan
  save_payload now result w =
      if result.kind == "backup"
      then elim result.config_text [
        | none ↦ w
        | some content ↦
            note_backup git py engines iso json result content
              (store_backup git py engines iso json result content w)
      ]
      else if result.kind == "collect"
      then record w { run = save_collect git py engines iso json result w.run }
      else if result.kind == "cve_scan"
      then record w {
        run = record (w.run) { bytes_captured = some (length result.cve_entries) };
        rows = record (w.rows) { scans = w.rows.scans ++ cve_scan now result ∷ [] };
      }
      else w

  -- The run and the batch counter after the result, and its payload if it succeeded.
  unfoldable pub apply_result :
      ℕ → JobResult py → Work git py engines iso json → Work git py engines iso json
  apply_result now result w =
      let timed = note_times git py engines iso json result w.run in
      let counted : Option RunBatch = elim w.batch [
        | none ↦ none
        | some b ↦ some (count_result result.success b)
      ] in
      if result.success
      then save_payload now result
          (record w { run = record timed { status = success }; batch = counted })
      else record w { run = record timed { status = failed }; batch = counted }

  -- Write the run and the batch back to their tables.
  unfoldable pub write_back : Work git py engines iso json → Rows py
  unfolding update_row
  write_back w = record (w.rows) {
    runs = update_row run_id w.run.id (λ _. w.run) w.rows.runs;
    batches = elim w.batch [
      | none ↦ w.rows.batches
      | some b ↦ update_row batch_id b.id (λ _. b) w.rows.batches
    ];
  }

  -- The evaluation of one policy on the devices of a batch.
  unfoldable pub evaluate_one :
      ℕ
      → List ℕ
      → List DeviceConfig
      → CompliancePolicy
      → List (PolicyResult py)
      → Result (List (PolicyResult py))
  unfolding config_text
  evaluate_one now devices configs policy table =
      elim (keep (λ d. contains d devices) (scoped_device_ids policy)) [
        | [] ↦ ok table
        | d ∷ ds ↦ do
          results ←
              run_policy_for_devices py engines now policy
                (map (λ x. (x, config_text x configs)) (d ∷ ds))
          ok (upsert_compliance_results py table results)
      ]

  unfoldable pub evaluate_all :
      ℕ
      → List ℕ
      → List DeviceConfig
      → List CompliancePolicy
      → List (PolicyResult py)
      → Result (List (PolicyResult py))
  unfolding evaluate_one
  evaluate_all now devices configs [] table = ok table
  evaluate_all now devices configs (p ∷ ps) table = do
    table' ← evaluate_one now devices configs p table
    evaluate_all now devices configs ps table'

  -- `_auto_evaluate_compliance`
  unfoldable pub auto_evaluate_compliance : ℕ → RunBatch → Rows py → Result (Rows py)
  auto_evaluate_compliance now b rows = elim (batch_devices b.id rows.runs) [
    | [] ↦ ok rows
    | d ∷ ds ↦ do
      table ←
          evaluate_all now (d ∷ ds) rows.configs
            (keep (λ p. p.auto_evaluate && p.enabled) rows.policies) rows.results
      ok (record rows { results = table })
  ]

  -- The exception, if there is one, the rows and the memory.
  pub record Persisted : Type 0 where
    pub raised : Option String
    pub rows : Rows py
    pub memory : Memory git

  abbrev pub commit_message : RunBatch → List String → String
  commit_message b paths =
      "backup batch: "
      <> (b.schedule_name
          <> ("\n\nbatch_id="
              <> (decimal b.id
                  <> (", devices=" <> (decimal b.total <> ("\n" <> join "\n" paths))))))

  -- The batch and its runs after the commit of its paths.
  unfoldable pub commit_close : RunBatch → Rows py → Memory git → Persisted
  commit_close b rows memory =
      let paths = staged_paths b.id memory.staged in
      let (sha, store) = commit_batch git memory.store paths (commit_message b paths) in
      let memory' : Memory git = record { store = store; staged = unstage b.id memory.staged } in
      elim sha [
        | none ↦ record { raised = none; rows = rows; memory = memory' }
        | some commit ↦ record {
          raised = none;
          rows = record rows {
            runs = stamp_runs b.id commit rows.runs;
            batches =
                update_row batch_id b.id (λ x. record x { commit_sha = some commit }) rows.batches;
          };
          memory = memory';
        }
      ]

  -- The last result of a batch closes it: commit, then the policies if it is a backup.
  unfoldable pub close_batch : ℕ → JobResult py → RunBatch → Rows py → Memory git → Persisted
  close_batch now result b rows memory =
      let finished =
        or_else (parse_iso git py engines iso json (some result.finished_at)) (some now) in
      let closed = record b { finished_at = finished } in
      let stored = record rows {
        batches = update_row batch_id b.id (λ x. record x { finished_at = finished }) rows.batches;
      } in
      let done = commit_close closed stored memory in
      if b.kind == "backup"
      then elim (auto_evaluate_compliance now closed done.rows) [
        | ok rows' ↦ record done { rows = rows' }
        | err e ↦ record done { raised = some e }
      ]
      else done

  -- The part of `_persist` behind its early returns.
  unfoldable pub persist_run : ℕ → JobResult py → Run → Rows py → Memory git → Persisted
  persist_run now result run rows memory =
      let batch : Option RunBatch = elim (key_of run.batch_id) [
        | none ↦ none
        | some k ↦ find_row batch_id k rows.batches
      ] in
      let w =
        apply_result now result
          (record { run = run; batch = batch; rows = rows; memory = memory }) in
      let saved = write_back w in
      elim w.batch [
        | none ↦ record { raised = none; rows = saved; memory = w.memory }
        | some b ↦
            if is_complete b
            then close_batch now result b saved w.memory
            else record { raised = none; rows = saved; memory = w.memory }
      ]

  -- The block of `_persist`, with the rows of the session as they are when it is left.
  unfoldable pub persist_block : ℕ → JobResult py → Rows py → Memory git → Persisted
  persist_block now result rows memory = elim (find_row run_id result.run_id rows.runs) [
    | none ↦ record { raised = none; rows = rows; memory = memory }
    | some run ↦
        if is_cancelled run
        then record { raised = none; rows = rows; memory = memory }
        else persist_run now result run rows memory
  ]

  -- `session_scope` of src/kiroku/db/session.py: the commit, or the rollback to the rows from before
  -- the block if that raised.
  unfoldable pub session_scope : Rows py → Persisted → Persisted
  session_scope before p = elim p.raised [ none ↦ p | some e ↦ record p { rows = before } ]

  unfoldable pub persist : ℕ → JobResult py → Rows py → Memory git → Persisted
  unfolding session_scope persist_block
  persist now result rows memory = session_scope rows (persist_block now result rows memory)
