-- ===== src/Lifecycle/Results.antt =====
-- A result of an open run keeps the batches balanced: `_persist` of src/kiroku/recorder/runner.py.
use bmu.Prelude.{
  ℕ, ◌+◌, ◌≤◌, ◌≡◌, refl, sym, ap, ◌∙◌, subst, Bool, true, false, String, Option, none, some, arith,
  inl, inr, find_row, update_row, key-find_row, Bool-cases, Option-cases, ◌==◌, nat_eq, string_eq,
  if◌then◌else◌,
}
use bmu.Runtime.{Runtime}
use bmu.Parsers.{Parsed, Engines}
use bmu.Models.Run.{Run, RunBatch, success}
use bmu.Jobs.{JobResult}
use bmu.Recorder.Store.{Git}
use bmu.Recorder.State.{Rows, Memory}
use bmu.Recorder.Payload.{run_id, batch_id, in_batch, key_of, count_result, note_times, Work}
use bmu.Recorder.Persist.{apply_result, write_back, close_batch, is_complete, persist_run}
use bmu.Recorder.Reaper.{is_open}
use bmu.Recorder.Reaping.{open_runs}
use bmu.Recorder.Counters.{verdict, id-count_result}
use bmu.Recorder.Applied.{save_payload-IsFrame}
use bmu.Recorder.Closing.{apply_result-run}
use bmu.Lifecycle.Alike.{open_runs-update_row, runs_with-update_row}
use bmu.Lifecycle.Closes.{find_row-other, IsClose, close_batch-IsClose}
use bmu.Lifecycle.Tables.{runs_with}

module _ (git : Git) (py : Runtime) (engines : Engines py) (iso : String → Option ℕ)
    (json : Parsed py → String) where
  abbrev Working : Type 0
  Working = Work git py engines iso json

  -- The work after a result, and the tables that are written back.
  abbrev started : Run → Rows py → Memory git → Working
  started run rows memory = record {
    run = run;
    batch = elim (key_of run.batch_id) [ none ↦ none | some k ↦ find_row batch_id k rows.batches ];
    rows = rows;
    memory = memory;
  }

  apply_result-batch :
      (now : ℕ) (result : JobResult py) (w : Working)
      → ((apply_result git py engines iso json now result w).rows.batches ≡ w.rows.batches)
        × ((apply_result git py engines iso json now result w).batch
            ≡ elim w.batch [ none ↦ none | some b ↦ some (count_result result.success b) ])
  unfolding apply_result note_times
  apply_result-batch now result w = elim (Bool-cases result.success) [
    | inr bad ↦ (ground (arith, bad), ground (arith, bad))
    | inl good ↦
        let w' : Working = record w {
          run = record (note_times git py engines iso json result w.run) { status = success };
          batch = elim w.batch [ none ↦ none | some b ↦ some (count_result result.success b) ];
        } in
        let f = save_payload-IsFrame git py engines iso json now result w' in
        (ground (arith, good, f.batches), ground (arith, good, f.batch))
  ]

  -- The tables when a result of a run is in.
  pub record IsSettled (run : Run) (rows after : Rows py) : Type 0 where
    pub ids : (i : ℕ) → runs_with i after.runs ≡ runs_with i rows.runs
    pub opens :
        (k : ℕ) → open_runs k after.runs + (if in_batch k run then 1 else 0) ≡ open_runs k rows.runs
    pub others :
        (k : ℕ)
        → (key_of run.batch_id ≡ some k → find_row batch_id k rows.batches ≡ none)
        → find_row batch_id k after.batches ≡ find_row batch_id k rows.batches

  -- The batch that a result counts for.
  started-batch :
      (run : Run) (rows : Rows py) (memory : Memory git) (b : RunBatch)
      → (started run rows memory).batch ≡ some b
      → (key_of run.batch_id ≡ some b.id) × (find_row batch_id b.id rows.batches ≡ some b)
  started-batch run rows memory b h = elim (Option-cases (key_of run.batch_id)) [
    | inl alone ↦ absurd (ground (arith, alone, h))
    | inr (k, key) ↦
        let found : find_row batch_id k rows.batches ≡ some b = ground (arith, key, h) in
        let same = key-find_row batch_id k rows.batches b found in
        (ground (arith, key, same), ap (λ j. find_row batch_id j rows.batches) same ∙ found)
  ]

  not_open : (good : Bool) (r : Run) → r.status ≡ verdict good → is_open r ≡ false
  unfolding verdict
  not_open good r h = ground (arith, h, Bool-cases good)

  write_back-IsSettled :
      (now i : ℕ) (result : JobResult py) (run : Run) (rows : Rows py) (memory : Memory git)
      → runs_with i rows.runs ≤ 1
      → find_row run_id i rows.runs ≡ some run
      → is_open run ≡ true
      → IsSettled run rows (
          write_back git py engines iso json
            (apply_result git py engines iso json now result (started run rows memory)))
  unfolding write_back
  write_back-IsSettled now i result run rows memory alone found was =
      let w₀ = started run rows memory in
      let w = apply_result git py engines iso json now result w₀ in
      let (same, settled, runs) = apply_result-run git py engines iso json now result w₀ in
      let (batches, batch) = apply_result-batch now result w₀ in
      let key : w.run.id ≡ i = same ∙ key-find_row run_id i rows.runs run found in
      let closed = not_open result.success w.run settled in
      record {
        ids = λ j. runs_with-update_row w.run.id j w.run w.rows.runs refl ∙ ap (runs_with j) runs;
        opens = λ k.
            subst
              (λ rs.
                open_runs k (update_row run_id w.run.id (λ (r : Run). w.run) rs)
                  + (if in_batch k run then 1 else 0)
                ≡ open_runs k rows.runs)
              (sym runs)
              (open_runs-update_row w.run.id k run w.run rows.runs
                (subst (λ j. runs_with j rows.runs ≤ 1) (sym key) alone)
                (subst (λ j. find_row run_id j rows.runs ≡ some run) (sym key) found) was closed);
        others = λ k apart. elim (Option-cases w₀.batch) [
          | inl none_such ↦ ground (arith, batch, none_such, batches)
          | inr (b, there) ↦
              let (of, at) = started-batch run rows memory b there in
              let c = count_result result.success b in
              let c_id = id-count_result result.success b in
              elim (Bool-cases (k == b.id)) [
                | inl this ↦
                    let k_id = (nat_eq.same_iff k b.id).0 this in
                    let gone = apart (of ∙ ap (λ j. some j) (sym k_id)) in
                    absurd
                      (ground (arith, gone, at, ap (λ j. find_row batch_id j rows.batches) k_id))
                | inr other ↦ ground (
                  arith,
                  batch,
                  there,
                  batches,
                  find_row-other c.id k (λ x. c) rows.batches (λ x e. refl)
                      (ground (arith, other, c_id)),
                )
              ]
        ];
      }

  IsClose-IsSettled :
      (run : Run) (b : RunBatch) (rows saved after : Rows py)
      → key_of run.batch_id ≡ some b.id
      → (find_row batch_id b.id rows.batches ≡ none → ⊥)
      → IsSettled run rows saved
      → IsClose git py engines iso json b saved after
      → IsSettled run rows after
  IsClose-IsSettled run b rows saved after key there settled close = record {
    ids = λ i. close.runs.ids i ∙ settled.ids i;
    opens = λ k. omega (arith, close.runs.opens k, settled.opens k);
    others = λ k apart. elim (Bool-cases (k == b.id)) [
      | inr other ↦ close.others k other ∙ settled.others k apart
      | inl this ↦
          let k_id = (nat_eq.same_iff k b.id).0 this in
          absurd (
            there (
              ap (λ j. find_row batch_id j rows.batches) (sym k_id)
              ∙ apart (key ∙ ap (λ j. some j) (sym k_id))))
    ];
  }

  pub persist_run-IsSettled :
      (now i : ℕ) (result : JobResult py) (run : Run) (rows : Rows py) (memory : Memory git)
      → runs_with i rows.runs ≤ 1
      → find_row run_id i rows.runs ≡ some run
      → is_open run ≡ true
      → (persist_run git py engines iso json now result run rows memory).raised ≡ none
      → IsSettled run rows (persist_run git py engines iso json now result run rows memory).rows
  unfolding persist_run
  persist_run-IsSettled now i result run rows memory alone found was quiet =
      let w₀ = started run rows memory in
      let w = apply_result git py engines iso json now result w₀ in
      let saved = write_back git py engines iso json w in
      let settled = write_back-IsSettled now i result run rows memory alone found was in
      let batch = (apply_result-batch now result w₀).1 in
      elim (Option-cases w₀.batch) [
        | inl none_such ↦
            let gone : w.batch ≡ none = ground (arith, batch, none_such) in
            rw (gone, persist_run) settled
        | inr (b, there) ↦
            let c = count_result result.success b in
            let counted : w.batch ≡ some c = ground (arith, batch, there) in
            let same = id-count_result result.success b in
            let (of, at) = started-batch run rows memory b there in
            elim (Bool-cases (is_complete c)) [
              | inr waits ↦ rw (counted, waits, persist_run) settled
              | inl full ↦
                  let still : (close_batch git py engines iso json now result c saved
                        w.memory).raised
                      ≡ none =
                    ground (arith, counted, full, quiet) in
                  rw (counted, full, persist_run)
                    (IsClose-IsSettled run c rows saved
                      (close_batch git py engines iso json now result c saved w.memory).rows
                      (of ∙ ap (λ j. some j) (sym same))
                      (λ gone.
                        ground (arith, gone, at, ap (λ j. find_row batch_id j rows.batches) same))
                      settled
                      (close_batch-IsClose git py engines iso json now result c saved w.memory
                        still))
            ]
      ]
