-- ===== src/Recorder/Counting.antt =====
-- What one result does to its run and to the counters of its batch: `_persist` of
-- src/kiroku/recorder/runner.py.
use bmu.Prelude.{ℕ, String, ◌≡◌, refl, Bool, true, false, Option, none, some, arith}
use bmu.Prelude.{ok, find_row, update_row, find_row_changed, key-find_row, ◌==◌, nat_eq, string_eq}
use bmu.Prelude.{
  Option-cases, Bool-cases, Result-cases, inl, inr, keep, ◌&&◌, is_some, or_else, ap, sym, ◌∙◌,
}
use bmu.Runtime.{Runtime}
use bmu.Parsers.{Parsed, Engines}
use bmu.Models.Run.{Run, RunBatch}
use bmu.Jobs.{JobResult}
use bmu.Recorder.Store.{Git, commit_batch}
use bmu.Recorder.State.{Rows, Memory, staged_paths}
use bmu.Recorder.Payload.{parse_iso, run_id, batch_id, is_cancelled, key_of, count_result, Work}
use bmu.Recorder.Persist.{
  commit_message, write_back, commit_close, close_batch, is_complete, persist_run, persist,
  persist_block, Persisted, auto_evaluate_compliance, evaluate_all, batch_devices,
}
use bmu.Recorder.Applied.{applied, apply_result-IsApplied, persist_quiet}
use bmu.Recorder.Counters.{
  IsFinished, IsCounted, IsCounted-complete, IsCounted-open, id-count_result,
}

module _ (git : Git) (py : Runtime) (engines : Engines py) (iso : String → Option ℕ)
    (json : Parsed py → String) where
  abbrev pub Working : Type 0
  Working = Work git py engines iso json

  commit_close-batch :
      (b x : RunBatch) (rows : Rows py) (memory : Memory git)
      → find_row batch_id b.id rows.batches ≡ some x
      → (y : RunBatch) × (find_row batch_id b.id
            (commit_close git py engines iso json b rows memory).rows.batches
          ≡ some y)
        × (y.succeeded ≡ x.succeeded)
        × (y.failed ≡ x.failed)
        × (y.total ≡ x.total)
        × (y.finished_at ≡ x.finished_at)
  unfolding commit_close
  commit_close-batch b x rows memory h =
      let paths = staged_paths b.id memory.staged in
      elim (Option-cases
        (commit_batch git memory.store paths (commit_message git py engines iso json b paths)).0) [
          | inl absent ↦ (x, ground (arith, absent, h), refl, refl, refl, refl)
          | inr (sha, there) ↦ (
            record x { commit_sha = some sha },
            ground (
              arith,
              there,
              find_row_changed batch_id b.id (λ (y : RunBatch). record y { commit_sha = some sha })
                  rows.batches x (λ y e. e) h,
            ),
            refl,
            refl,
            refl,
            refl,
          )
        ]

  pub auto_evaluate_compliance-batches :
      (now : ℕ) (b : RunBatch) (rows rows' : Rows py)
      → auto_evaluate_compliance git py engines iso json now b rows ≡ ok rows'
      → rows'.batches ≡ rows.batches
  unfolding auto_evaluate_compliance
  auto_evaluate_compliance-batches now b rows rows' h = ground (
    arith,
    h,
    evaluate_all git py engines iso json now (batch_devices b.id rows.runs) rows.configs
        (keep (λ p. p.auto_evaluate && p.enabled) rows.policies) rows.results,
  )

  close_batch-IsFinished :
      (now : ℕ) (result : JobResult py) (b : RunBatch) (rows : Rows py) (memory : Memory git)
      → find_row batch_id b.id rows.batches ≡ some b
      → (close_batch git py engines iso json now result b rows memory).raised ≡ none
      → (y : RunBatch) × (find_row batch_id b.id
            (close_batch git py engines iso json now result b rows memory).rows.batches
          ≡ some y)
        × IsFinished b y
  unfolding close_batch
  close_batch-IsFinished now result b rows memory h quiet =
      let finished =
        or_else (parse_iso git py engines iso json (some result.finished_at)) (some now) in
      let closed = record b { finished_at = finished } in
      let stored = record rows {
        batches =
            update_row batch_id b.id (λ (x : RunBatch). record x { finished_at = finished })
              rows.batches;
      } in
      let done = commit_close git py engines iso json closed stored memory in
      let (y, at, s, f, t, e) = commit_close-batch closed closed stored memory (
        find_row_changed batch_id b.id (λ (x : RunBatch). record x { finished_at = finished })
          rows.batches b (λ x e. e) h) in
      let timed : is_some finished ≡ true =
        ground
          (arith, Option-cases (parse_iso git py engines iso json (some result.finished_at))) in
      let fin : IsFinished b y = record {
        succeeded = s;
        failures = f;
        total = t;
        finished = ap is_some e ∙ timed;
      } in
      elim (Bool-cases (b.kind == "backup")) [
        | inr other ↦ (y, ground (arith, other, at), fin)
        | inl backup ↦
            elim (Result-cases
              (auto_evaluate_compliance git py engines iso json now closed done.rows)) [
                | inl (rows', eq) ↦ (
                  y,
                  ground (
                    arith,
                    backup,
                    eq,
                    at,
                    auto_evaluate_compliance-batches now closed done.rows rows' eq,
                  ),
                  fin,
                )
                | inr (e, eq) ↦ ground (arith, backup, eq, quiet)
              ]
      ]

  write_back-found :
      (good : Bool) (b : RunBatch) (w : Working) (k : ℕ)
      → w.batch ≡ some (count_result good b)
      → (count_result good b).id ≡ k
      → find_row batch_id k w.rows.batches ≡ some b
      → find_row batch_id k (write_back git py engines iso json w).batches
        ≡ some (count_result good b)
  unfolding write_back
  write_back-found good b w k h same found =
      let c = count_result good b in
      ground (
        arith,
        h,
        same,
        find_row_changed batch_id k (λ (x : RunBatch). c) w.rows.batches b (λ x e. same) found,
      )

  persist_run-IsCounted :
      (now : ℕ) (result : JobResult py) (run : Run) (k : ℕ) (b : RunBatch) (rows : Rows py)
      (memory : Memory git)
      → key_of run.batch_id ≡ some k
      → find_row batch_id k rows.batches ≡ some b
      → (persist_run git py engines iso json now result run rows memory).raised ≡ none
      → (y : RunBatch) × (find_row batch_id k
            (persist_run git py engines iso json now result run rows memory).rows.batches
          ≡ some y)
        × IsCounted result.success b y
  unfolding persist_run
  persist_run-IsCounted now result run k b rows memory key found quiet =
      let w = applied git py engines iso json now result run b rows memory in
      let c = count_result result.success b in
      let a = apply_result-IsApplied git py engines iso json now result run b rows memory in
      let saved = write_back git py engines iso json w in
      let same = id-count_result result.success b ∙ key-find_row batch_id k rows.batches b found in
      let there =
        write_back-found result.success b w k a.batch same
          (ap (λ bs. find_row batch_id k bs) a.batches ∙ found) in
      elim (Bool-cases (is_complete c)) [
        | inr waits ↦ (
          c,
          ground (arith, key, found, a.batch, waits, there),
          IsCounted-open result.success b waits,
        )
        | inl full ↦
            let (y, at, fin) =
              close_batch-IsFinished now result c saved w.memory
                (ap (λ i. find_row batch_id i saved.batches) same ∙ there)
                (ground (arith, key, found, a.batch, full, quiet)) in
            (
              y,
              ground (
                arith,
                key,
                found,
                a.batch,
                full,
                ap
                    (λ i.
                      find_row batch_id i
                        (close_batch git py engines iso json now result c saved
                          w.memory).rows.batches)
                    same,
                at,
              ),
              IsCounted-complete result.success b y full fin,
            )
      ]

  -- A result of a run that is known, not cancelled, and in a batch, when the handler does not raise:
  -- the batch of the run has one success or one failure more, by the result, the same total, and it
  -- is finished exactly if it was so before or if the results are now as many as its total.
  pub persist_counts :
      (now : ℕ) (result : JobResult py) (run : Run) (k : ℕ) (b : RunBatch) (rows : Rows py)
      (memory : Memory git)
      → find_row run_id result.run_id rows.runs ≡ some run
      → is_cancelled run ≡ false
      → key_of run.batch_id ≡ some k
      → find_row batch_id k rows.batches ≡ some b
      → (persist git py engines iso json now result rows memory).raised ≡ none
      → (y : RunBatch) × (find_row batch_id k
            (persist git py engines iso json now result rows memory).rows.batches
          ≡ some y)
        × IsCounted result.success b y
  unfolding persist_block
  persist_counts now result run k b rows memory known live key found quiet =
      let same = persist_quiet git py engines iso json now result rows memory quiet in
      let calm = ap (λ (p : Persisted git py engines iso json). p.raised) (sym same) ∙ quiet in
      let (y, at, c) =
        persist_run-IsCounted now result run k b rows memory key found
          (ground (arith, known, live, calm)) in
      (
        y,
        ap (λ (p : Persisted git py engines iso json). find_row batch_id k p.rows.batches) same
            ∙ ground (arith, known, live, at),
        c,
      )
