-- ===== src/Recorder/Closing.antt =====
-- What one result does to its run, and the rollback: `_persist` of src/kiroku/recorder/runner.py.
use bmu.Prelude.{
  ℕ, String, ◌≡◌, refl, ap, sym, ◌∙◌, false, ◌&&◌, Option, none, some, List, [], ◌∷◌, arith,
}
use bmu.Prelude.{ok, find_row, update_row, find_row_changed, key-find_row, ◌==◌, nat_eq, string_eq}
use bmu.Prelude.{Option-cases, Bool-cases, Result-cases, inl, inr, keep, or_else}
use bmu.Runtime.{Runtime}
use bmu.Parsers.{Parsed, Engines}
use bmu.Models.Run.{Run, RunBatch, RunStatus, success}
use bmu.Jobs.{JobResult}
use bmu.Recorder.Store.{Git, commit_batch}
use bmu.Recorder.State.{Rows, Memory, staged_paths}
use bmu.Recorder.Payload.{
  parse_iso, run_id, batch_id, in_batch, is_cancelled, key_of, count_result, stamp_runs, note_times,
  Work,
}
use bmu.Recorder.Persist.{
  commit_message, apply_result, write_back, commit_close, close_batch, is_complete, persist_run,
  persist, persist_block, session_scope, Persisted, auto_evaluate_compliance, evaluate_all,
  batch_devices,
}
use bmu.Recorder.Applied.{save_payload-IsFrame, persist_quiet}
use bmu.Recorder.Counters.{verdict}

-- The status of a run of the table.
abbrev pub status_of : ℕ → List Run → Option RunStatus
status_of k rs = elim (find_row run_id k rs) [ none ↦ none | some r ↦ some r.status ]

status_of-stamp_runs :
    (j k : ℕ) (sha : String) (rs : List Run) → status_of k (stamp_runs j sha rs) ≡ status_of k rs
unfolding stamp_runs find_row
status_of-stamp_runs j k sha [] = refl
status_of-stamp_runs j k sha (r ∷ rs) =
    ground
      (arith, status_of-stamp_runs j k sha rs, Bool-cases (in_batch j r), Bool-cases (r.id == k))

module _ (git : Git) (py : Runtime) (engines : Engines py) (iso : String → Option ℕ)
    (json : Parsed py → String) where
  abbrev Working : Type 0
  Working = Work git py engines iso json

  pub apply_result-run :
      (now : ℕ) (result : JobResult py) (w : Working)
      → ((apply_result git py engines iso json now result w).run.id ≡ w.run.id)
        × ((apply_result git py engines iso json now result w).run.status ≡ verdict result.success)
        × ((apply_result git py engines iso json now result w).rows.runs ≡ w.rows.runs)
  unfolding apply_result verdict note_times
  apply_result-run now result w = elim (Bool-cases result.success) [
    | inr bad ↦ (ground (arith, bad), ground (arith, bad), ground (arith, bad))
    | inl good ↦
        let counted : Option RunBatch = elim w.batch [
          | none ↦ none
          | some b ↦ some (count_result result.success b)
        ] in
        let w' : Working = record w {
          run = record (note_times git py engines iso json result w.run) { status = success };
          batch = counted;
        } in
        let f = save_payload-IsFrame git py engines iso json now result w' in
        (ground (arith, good, f.id), ground (arith, good, f.status), ground (arith, good, f.runs))
  ]

  status_of-write_back :
      (k : ℕ) (run : Run) (w : Working)
      → find_row run_id k w.rows.runs ≡ some run
      → w.run.id ≡ k
      → status_of k (write_back git py engines iso json w).runs ≡ some w.run.status
  unfolding write_back
  status_of-write_back k run w found same = ground (
    arith,
    same,
    find_row_changed run_id k (λ (x : Run). w.run) w.rows.runs run (λ x e. same) found,
  )

  status_of-commit_close :
      (k : ℕ) (b : RunBatch) (rows : Rows py) (memory : Memory git)
      → status_of k (commit_close git py engines iso json b rows memory).rows.runs
        ≡ status_of k rows.runs
  unfolding commit_close
  status_of-commit_close k b rows memory =
      let paths = staged_paths b.id memory.staged in
      elim (Option-cases
        (commit_batch git memory.store paths (commit_message git py engines iso json b paths)).0) [
          | inl absent ↦ ground (arith, absent)
          | inr (sha, there) ↦ ground (arith, there, status_of-stamp_runs b.id k sha rows.runs)
        ]

  pub auto_evaluate_compliance-runs :
      (now : ℕ) (b : RunBatch) (rows rows' : Rows py)
      → auto_evaluate_compliance git py engines iso json now b rows ≡ ok rows'
      → rows'.runs ≡ rows.runs
  unfolding auto_evaluate_compliance
  auto_evaluate_compliance-runs now b rows rows' h = ground (
    arith,
    h,
    evaluate_all git py engines iso json now (batch_devices b.id rows.runs) rows.configs
        (keep (λ p. p.auto_evaluate && p.enabled) rows.policies) rows.results,
  )

  status_of-close_batch :
      (k now : ℕ) (result : JobResult py) (b : RunBatch) (rows : Rows py) (memory : Memory git)
      → (close_batch git py engines iso json now result b rows memory).raised ≡ none
      → status_of k (close_batch git py engines iso json now result b rows memory).rows.runs
        ≡ status_of k rows.runs
  unfolding close_batch
  status_of-close_batch k now result b rows memory quiet =
      let finished =
        or_else (parse_iso git py engines iso json (some result.finished_at)) (some now) in
      let closed = record b { finished_at = finished } in
      let stored = record rows {
        batches =
            update_row batch_id b.id (λ (x : RunBatch). record x { finished_at = finished })
              rows.batches;
      } in
      let done = commit_close git py engines iso json closed stored memory in
      let kept = status_of-commit_close k closed stored memory in
      elim (Bool-cases (b.kind == "backup")) [
        | inr other ↦ ground (arith, other, kept)
        | inl backup ↦
            elim (Result-cases
              (auto_evaluate_compliance git py engines iso json now closed done.rows)) [
                | inl (rows', eq) ↦ ground (
                  arith,
                  backup,
                  eq,
                  kept,
                  auto_evaluate_compliance-runs now closed done.rows rows' eq,
                )
                | inr (e, eq) ↦ ground (arith, backup, eq, quiet)
              ]
      ]

  persist_run-verdict :
      (k now : ℕ) (result : JobResult py) (run : Run) (rows : Rows py) (memory : Memory git)
      → find_row run_id k rows.runs ≡ some run
      → (persist_run git py engines iso json now result run rows memory).raised ≡ none
      → status_of k (persist_run git py engines iso json now result run rows memory).rows.runs
        ≡ some (verdict result.success)
  unfolding persist_run
  persist_run-verdict k now result run rows memory found quiet =
      let batch : Option RunBatch = elim (key_of run.batch_id) [
        | none ↦ none
        | some j ↦ find_row batch_id j rows.batches
      ] in
      let w₀ : Working = record { run = run; batch = batch; rows = rows; memory = memory } in
      let w = apply_result git py engines iso json now result w₀ in
      let (same, settled, runs) = apply_result-run now result w₀ in
      let saved = write_back git py engines iso json w in
      let written =
        status_of-write_back k run w (ap (λ rs. find_row run_id k rs) runs ∙ found)
          (same ∙ key-find_row run_id k rows.runs run found)
        ∙ ap (λ s. some s) settled in
      elim (Option-cases w.batch) [
        | inl alone ↦ ground (arith, alone, written)
        | inr (b, of) ↦ elim (Bool-cases (is_complete b)) [
          | inr waits ↦ ground (arith, of, waits, written)
          | inl full ↦ ground (
            arith,
            of,
            full,
            written,
            status_of-close_batch k now result b saved w.memory (ground (arith, of, full, quiet)),
          )
        ]
      ]

  -- A result of a run that is known and not cancelled, when the handler does not raise: the run's
  -- row has the status success or failed, by the result.
  pub persist-verdict :
      (now : ℕ) (result : JobResult py) (run : Run) (rows : Rows py) (memory : Memory git)
      → find_row run_id result.run_id rows.runs ≡ some run
      → is_cancelled run ≡ false
      → (persist git py engines iso json now result rows memory).raised ≡ none
      → status_of result.run_id (persist git py engines iso json now result rows memory).rows.runs
        ≡ some (verdict result.success)
  unfolding persist_block
  persist-verdict now result run rows memory known live quiet =
      let same = persist_quiet git py engines iso json now result rows memory quiet in
      let calm = ap (λ (p : Persisted git py engines iso json). p.raised) (sym same) ∙ quiet in
      ap (λ (p : Persisted git py engines iso json). status_of result.run_id p.rows.runs) same
      ∙ ground (
        arith,
        known,
        live,
        persist_run-verdict result.run_id now result run rows memory known
            (ground (arith, known, live, calm)),
      )

  -- When the handler raises, the rows are those from before the result, whatever the result is.
  pub persist_rolls_back :
      (now : ℕ) (result : JobResult py) (rows : Rows py) (memory : Memory git) (e : String)
      → (persist git py engines iso json now result rows memory).raised ≡ some e
      → (persist git py engines iso json now result rows memory).rows ≡ rows
  unfolding persist session_scope
  persist_rolls_back now result rows memory e h =
      ground (
        arith,
        h,
        Option-cases (persist_block git py engines iso json now result rows memory).raised,
      )
