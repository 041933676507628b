-- ===== src/Lifecycle/Cancels.antt =====
-- `cancel_batch` of src/kiroku/web/routes/runs.py keeps the batches balanced.
use bmu.Prelude.{
  ℕ, ◌+◌, ◌≡◌, refl, ap, true, ◌&&◌, List, [], ◌∷◌, arith, inl, inr, find_row, update_row,
  Bool-cases, Option-cases, is_some, ◌==◌, nat_eq, if◌then◌else◌,
}
use bmu.Runtime.{Runtime}
use bmu.Models.Run.{Run, RunBatch}
use bmu.Recorder.State.{Rows}
use bmu.Recorder.Payload.{batch_id, in_batch}
use bmu.Recorder.Reaper.{is_open}
use bmu.Recorder.Reaping.{open_runs}
use bmu.Web.Runs.{cancel_open, credit, cancel_batch}
use bmu.Lifecycle.Tables.{runs_with, IsMove, IsMove-refl, find_row-before, find_row_missing}

runs_with-cancel_open :
    (now k i : ℕ) (rs : List Run) → runs_with i (cancel_open now k rs) ≡ runs_with i rs
unfolding cancel_open
runs_with-cancel_open now k i [] = refl
runs_with-cancel_open now k i (r ∷ rs) =
    ground (arith, runs_with-cancel_open now k i rs, Bool-cases (in_batch k r && is_open r))

pub open_runs-cancel_open :
    (now j k : ℕ) (rs : List Run)
    → open_runs k (cancel_open now j rs) ≡ (if k == j then 0 else open_runs k rs)
unfolding cancel_open
open_runs-cancel_open now j k [] = ground arith
open_runs-cancel_open now j k (r ∷ rs) =
    ground
      (arith, open_runs-cancel_open now j k rs, Bool-cases (is_open r), Option-cases r.batch_id)

pub id-credit : (now n : ℕ) (x : RunBatch) → (credit now n x).id ≡ x.id
unfolding credit
id-credit now n x = refl

-- The row of a batch when one batch was cancelled.
balanced_credit :
    (now j k : ℕ) (x y : RunBatch) (count before after : ℕ)
    → y ≡ (if k == j then credit now count x else x)
    → after ≡ (if k == j then 0 else before)
    → (k ≡ j → before ≡ count)
    → (x.succeeded + x.failed + before ≡ x.total) × (is_some x.finished_at ≡ true → before ≡ 0)
    → (y.succeeded + y.failed + after ≡ y.total) × (is_some y.finished_at ≡ true → after ≡ 0)
unfolding credit
balanced_credit now j k x y count before after same left opened h = elim (Bool-cases (k == j)) [
  | inl this ↦
      let e = opened ((nat_eq.same_iff k j).0 this) in
      let row : y ≡ credit now count x = ground (arith, same, this) in
      rw row (ground (arith, this, left, e, h), λ f. ground (arith, this, left))
  | inr other ↦
      let row : y ≡ x = ground (arith, same, other) in
      rw row (ground (arith, other, left, h), λ f. ground (arith, other, left, h.1 f))
]

module _ (py : Runtime) where
  -- The two tables after a cancellation that finds an unfinished batch.
  cancelled-IsMove :
      (now k : ℕ) (runs : List Run) (batches : List RunBatch)
      → IsMove runs
          (cancel_open now k runs)
          batches
          (update_row batch_id k (credit now (open_runs k runs)) batches)
  cancelled-IsMove now k runs batches =
      let count = open_runs k runs in
      record {
        ids = λ i. runs_with-cancel_open now k i runs;
        fewer = λ j. ground (arith, open_runs-cancel_open now k j runs);
        missing = λ j h. find_row_missing k j (credit now count) batches (id-credit now count) h;
        balance = λ j z h y found.
            let (x, there, same) =
              find_row-before k j (credit now count) batches y (id-credit now count) found in
            balanced_credit now k j x y count (open_runs j runs)
              (open_runs j (cancel_open now k runs)) same (open_runs-cancel_open now k j runs)
              (λ e. ap (λ i. open_runs i runs) e) (h x there);
      }

  pub cancel_batch-IsMove :
      (now k : ℕ) (rows : Rows py)
      → IsMove rows.runs
          (cancel_batch now k rows).runs
          rows.batches
          (cancel_batch now k rows).batches
  unfolding cancel_batch
  cancel_batch-IsMove now k rows = elim (Option-cases (find_row batch_id k rows.batches)) [
    | inl absent ↦ rw (absent, cancel_batch) (IsMove-refl rows.runs rows.batches)
    | inr (b, there) ↦ elim (Option-cases b.finished_at) [
      | inr (t, over) ↦ rw (there, over, cancel_batch) (IsMove-refl rows.runs rows.batches)
      | inl waits ↦ rw (there, waits, cancel_batch) (cancelled-IsMove now k rows.runs rows.batches)
    ]
  ]
