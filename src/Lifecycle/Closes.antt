-- ===== src/Lifecycle/Closes.antt =====
-- The close of a batch by `_persist` of src/kiroku/recorder/runner.py, and the other batches.
use bmu.Prelude.{
  ℕ, ◌≡◌, ap, ◌∙◌, false, String, Option, none, some, List, arith, inl, inr, find_row, update_row,
  find_row-update_row, Bool-cases, Option-cases, Result-cases, ◌==◌, nat_eq, string_eq, or_else,
}
use bmu.Runtime.{Runtime}
use bmu.Parsers.{Parsed, Engines}
use bmu.Models.Run.{RunBatch}
use bmu.Jobs.{JobResult}
use bmu.Recorder.Store.{Git, commit_batch}
use bmu.Recorder.State.{Rows, Memory, staged_paths}
use bmu.Recorder.Payload.{batch_id, parse_iso}
use bmu.Recorder.Persist.{commit_message, commit_close, close_batch, auto_evaluate_compliance}
use bmu.Recorder.Reaping.{open_runs}
use bmu.Recorder.Counting.{auto_evaluate_compliance-batches}
use bmu.Recorder.Closing.{auto_evaluate_compliance-runs}
use bmu.Lifecycle.Alike.{open_runs-stamp_runs, runs_with-stamp_runs, IsAlike}
use bmu.Lifecycle.Tables.{runs_with}

-- The row of a batch that is not changed.
pub find_row-other :
    (j k : ℕ) (f : RunBatch → RunBatch) (xs : List RunBatch)
    → ((x : RunBatch) → x.id ≡ j → (f x).id ≡ j)
    → (k == j) ≡ false
    → find_row batch_id k (update_row batch_id j f xs) ≡ find_row batch_id k xs
find_row-other j k f xs keeps other =
    ground (arith, other, find_row-update_row batch_id j k f xs keeps)

module _ (git : Git) (py : Runtime) (engines : Engines py) (iso : String → Option ℕ)
    (json : Parsed py → String) where
  commit_close-IsAlike :
      (b : RunBatch) (rows : Rows py) (memory : Memory git)
      → IsAlike rows.runs (commit_close git py engines iso json b rows memory).rows.runs
  unfolding commit_close
  commit_close-IsAlike b rows memory =
      let paths = staged_paths b.id memory.staged in
      elim (Option-cases
        (commit_batch git memory.store paths (commit_message git py engines iso json b paths)).0) [
          | inl absent ↦ record {
            ids = λ i. ground (arith, absent);
            opens = λ k. ground (arith, absent);
          }
          | inr (sha, there) ↦ record {
            ids = λ i. ground (arith, there, runs_with-stamp_runs b.id i sha rows.runs);
            opens = λ k. ground (arith, there, open_runs-stamp_runs b.id k sha rows.runs);
          }
        ]

  commit_close-other :
      (k : ℕ) (b : RunBatch) (rows : Rows py) (memory : Memory git)
      → (k == b.id) ≡ false
      → find_row batch_id k (commit_close git py engines iso json b rows memory).rows.batches
        ≡ find_row batch_id k rows.batches
  unfolding commit_close
  commit_close-other k b rows memory other =
      let paths = staged_paths b.id memory.staged in
      elim (Option-cases
        (commit_batch git memory.store paths (commit_message git py engines iso json b paths)).0) [
          | inl absent ↦ ground (arith, absent)
          | inr (sha, there) ↦ ground (
            arith,
            there,
            find_row-other b.id k (λ (x : RunBatch). record x { commit_sha = some sha })
                rows.batches (λ x e. e) other,
          )
        ]

  -- The tables after the close of a batch.
  pub record IsClose (b : RunBatch) (rows after : Rows py) : Type 0 where
    pub runs : IsAlike rows.runs after.runs
    pub others :
        (k : ℕ)
        → (k == b.id) ≡ false
        → find_row batch_id k after.batches ≡ find_row batch_id k rows.batches

  pub close_batch-IsClose :
      (now : ℕ) (result : JobResult py) (b : RunBatch) (rows : Rows py) (memory : Memory git)
      → (close_batch git py engines iso json now result b rows memory).raised ≡ none
      → IsClose b rows (close_batch git py engines iso json now result b rows memory).rows
  unfolding close_batch
  close_batch-IsClose now result b rows memory quiet =
      let finished =
        or_else (parse_iso git py engines iso json (some result.finished_at)) (some now) in
      let closed = record b { finished_at = finished } in
      let stamp : RunBatch → RunBatch = λ x. record x { finished_at = finished } in
      let stored = record rows { batches = update_row batch_id b.id stamp rows.batches } in
      let done = commit_close git py engines iso json closed stored memory in
      let alike = commit_close-IsAlike closed stored memory in
      let rest : (k : ℕ)
          → (k == b.id) ≡ false
          → find_row batch_id k done.rows.batches ≡ find_row batch_id k rows.batches =
        λ k other.
          commit_close-other k closed stored memory other
          ∙ find_row-other b.id k stamp rows.batches (λ x e. e) other in
      elim (Bool-cases (b.kind == "backup")) [
        | inr plain ↦ rw (plain, close_batch) (record { runs = alike; others = rest })
        | inl backup ↦
            elim (Result-cases
              (auto_evaluate_compliance git py engines iso json now closed done.rows)) [
                | inr (e, eq) ↦ absurd (ground (arith, backup, eq, quiet))
                | inl (rows', eq) ↦
                    let same =
                      auto_evaluate_compliance-runs git py engines iso json now closed done.rows
                        rows' eq in
                    let batches =
                      auto_evaluate_compliance-batches git py engines iso json now closed done.rows
                        rows' eq in
                    rw (backup, eq, close_batch)
                      (record {
                        runs = record {
                          ids = λ i. ap (runs_with i) same ∙ alike.ids i;
                          opens = λ k. ap (open_runs k) same ∙ alike.opens k;
                        };
                        others =
                            λ k other. ap (λ bs. find_row batch_id k bs) batches ∙ rest k other;
                      })
              ]
      ]
