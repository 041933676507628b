-- ===== src/Lifecycle/Reaps.antt =====
-- The reaper of src/kiroku/recorder/runner.py keeps the batches balanced.
use bmu.Prelude.{
  ℕ, ◌+◌, ◌≡◌, refl, ap, true, ◌&&◌, String, Option, List, [], ◌∷◌, arith, inl, inr, Bool-cases,
  Option-cases, is_some, ◌==◌, nat_eq, if◌then◌else◌,
}
use bmu.Runtime.{Runtime}
use bmu.Models.Run.{Run, RunBatch}
use bmu.Recorder.Store.{Git, commit_batch}
use bmu.Recorder.State.{Rows, Memory, staged_paths}
use bmu.Recorder.Payload.{in_batch}
use bmu.Recorder.Reaper.{
  is_open, fail_open, stamp_missing, reaped, reap_batch, reap_batches, reap_message,
  reap_stale_batches, stale_batches,
}
use bmu.Recorder.Reaping.{open_runs, stamp_missing-still}
use bmu.Lifecycle.Tables.{
  runs_with, IsMove, IsMove-refl, IsMove-trans, find_row-before, find_row_missing,
}

runs_with-fail_open :
    (now k i : ℕ) (rs : List Run) → runs_with i (fail_open now k rs) ≡ runs_with i rs
unfolding fail_open
runs_with-fail_open now k i [] = refl
runs_with-fail_open now k i (r ∷ rs) =
    ground (arith, runs_with-fail_open now k i rs, Bool-cases (in_batch k r && is_open r))

runs_with-stamp_missing :
    (k i : ℕ) (sha : String) (rs : List Run) → runs_with i (stamp_missing k sha rs) ≡ runs_with i rs
unfolding stamp_missing
runs_with-stamp_missing k i sha [] = refl
runs_with-stamp_missing k i sha (r ∷ rs) = ground (
  arith,
  runs_with-stamp_missing k i sha rs,
  Bool-cases (in_batch k r),
  Option-cases r.commit_sha,
)

-- The runs of other batches are as open as before.
open_runs-fail_open :
    (now j k : ℕ) (rs : List Run)
    → open_runs k (fail_open now j rs) ≡ (if k == j then 0 else open_runs k rs)
unfolding fail_open
open_runs-fail_open now j k [] = ground arith
open_runs-fail_open now j k (r ∷ rs) =
    ground (arith, open_runs-fail_open now j k rs, Bool-cases (is_open r), Option-cases r.batch_id)

id-reaped :
    (now failures : ℕ) (sha : Option String) (x : RunBatch) → (reaped now sha failures x).id ≡ x.id
unfolding reaped
id-reaped now failures sha x = refl

-- The counters of a batch row when the reaper has closed a batch.
balanced_reaped :
    (now failures k : ℕ) (sha : Option String) (b x y : RunBatch) (before after : ℕ)
    → y ≡ (if k == b.id then reaped now sha failures x else x)
    → after ≡ (if k == b.id then 0 else before)
    → (k ≡ b.id → before ≡ failures)
    → (x.succeeded + x.failed + before ≡ x.total) × (is_some x.finished_at ≡ true → before ≡ 0)
    → (y.succeeded + y.failed + after ≡ y.total) × (is_some y.finished_at ≡ true → after ≡ 0)
unfolding reaped
balanced_reaped now failures k sha b x y before after same left opened h =
    elim (Bool-cases (k == b.id)) [
      | inl this ↦
          let e = opened ((nat_eq.same_iff k b.id).0 this) in
          let row : y ≡ reaped now sha failures x = ground (arith, same, this) in
          rw row (ground (arith, this, left, e, h), λ f. ground (arith, this, left))
      | inr other ↦
          let row : y ≡ x = ground (arith, same, other) in
          rw row (ground (arith, other, left, h), λ f. ground (arith, other, left, h.1 f))
    ]

module _ (git : Git) (py : Runtime) where
  reap_batch-IsMove :
      (now : ℕ) (b : RunBatch) (rows : Rows py) (memory : Memory git)
      → IsMove rows.runs
          (reap_batch git py now b (rows, memory)).0.runs
          rows.batches
          (reap_batch git py now b (rows, memory)).0.batches
  unfolding reap_batch
  reap_batch-IsMove now b rows memory =
      let paths = staged_paths b.id memory.staged in
      let sha = (commit_batch git memory.store paths (reap_message git py now b paths)).0 in
      let failed_runs = fail_open now b.id rows.runs in
      let failures = open_runs b.id rows.runs in
      let after = (reap_batch git py now b (rows, memory)).0 in
      let same_id : (x : RunBatch) → (reaped now sha failures x).id ≡ x.id =
        λ x. id-reaped now failures sha x in
      let opens : (k : ℕ)
          → open_runs k after.runs ≡ (if k == b.id then 0 else open_runs k rows.runs) =
        λ k. elim (Option-cases sha) [
          | inl quiet ↦ ground (arith, quiet, open_runs-fail_open now b.id k rows.runs)
          | inr (c, there) ↦ ground (
            arith,
            there,
            stamp_missing-still b.id k c failed_runs,
            open_runs-fail_open now b.id k rows.runs,
          )
        ] in
      record {
        ids = λ i. elim (Option-cases sha) [
          | inl quiet ↦ ground (arith, quiet, runs_with-fail_open now b.id i rows.runs)
          | inr (c, there) ↦ ground (
            arith,
            there,
            runs_with-stamp_missing b.id i c failed_runs,
            runs_with-fail_open now b.id i rows.runs,
          )
        ];
        fewer = λ k. ground (arith, opens k);
        missing = λ k h. find_row_missing b.id k (reaped now sha failures) rows.batches same_id h;
        balance = λ k z h y found.
            let (x, there, same) =
              find_row-before b.id k (reaped now sha failures) rows.batches y same_id found in
            balanced_reaped now failures k sha b x y (open_runs k rows.runs)
              (open_runs k after.runs) same (opens k) (λ e. ap (λ j. open_runs j rows.runs) e)
              (h x there);
      }

  reap_batches-IsMove :
      (now : ℕ) (bs : List RunBatch) (rows : Rows py) (memory : Memory git)
      → IsMove rows.runs
          (reap_batches git py now bs (rows, memory)).0.runs
          rows.batches
          (reap_batches git py now bs (rows, memory)).0.batches
  unfolding reap_batches
  reap_batches-IsMove now [] rows memory = IsMove-refl rows.runs rows.batches
  reap_batches-IsMove now (b ∷ bs) rows memory =
      let next = reap_batch git py now b (rows, memory) in
      let last = (reap_batches git py now bs next).0 in
      IsMove-trans rows.runs next.0.runs last.runs rows.batches next.0.batches last.batches
        (reap_batch-IsMove now b rows memory) (reap_batches-IsMove now bs next.0 next.1)

  pub reap_stale_batches-IsMove :
      (cutoff now : ℕ) (rows : Rows py) (memory : Memory git)
      → IsMove rows.runs
          (reap_stale_batches git py cutoff now (rows, memory)).0.runs
          rows.batches
          (reap_stale_batches git py cutoff now (rows, memory)).0.batches
  unfolding reap_stale_batches
  reap_stale_batches-IsMove cutoff now rows memory =
      reap_batches-IsMove now (stale_batches cutoff rows.batches) rows memory
