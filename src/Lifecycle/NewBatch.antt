-- ===== src/Lifecycle/NewBatch.antt =====
-- A batch that `fire_job` of src/kiroku/dispatch.py adds to the others.
use bmu.Prelude.{
  ℕ, ◌+◌, ◌≡◌, ap, ◌∙◌, subst, none, some, List, [], ◌∷◌, ◌++◌, arith, inl, inr, ◌⊎◌, tally,
  tally-append, length, Option-cases, Bool-cases, All, ◌==◌, nat_eq, find_row, ◌&&◌, is_some, true,
  false,
}
use bmu.Models.Run.{Run, RunBatch}
use bmu.Dispatch.NewRuns.{IsSettled, is_failed}
use bmu.Recorder.Payload.{batch_id, in_batch}
use bmu.Recorder.Reaper.{is_open}
use bmu.Recorder.Reaping.{open_runs}
use bmu.Lifecycle.Tables.{IsBalanced}
use bmu.Lifecycle.Ids.{open_runs-IsSettled, find_row-append}

-- A new batch among the others.
pub new_balance :
    (k : ℕ) (runs rs : List Run) (batches : List RunBatch) (batch : RunBatch)
    → find_row batch_id batch.id batches ≡ none
    → open_runs batch.id runs ≡ 0
    → All (IsSettled batch.id) rs
    → tally is_failed rs ≡ batch.failed
    → length rs ≡ batch.total
    → batch.succeeded ≡ 0
    → (batch.finished_at ≡ none) ⊎ (batch.failed ≡ batch.total)
    → IsBalanced k runs batches
    → IsBalanced k (runs ++ rs) (batches ++ batch ∷ [])
unfolding find_row
new_balance k runs rs batches batch absent idle settled failures whole good over h y found =
    let opened = tally-append (λ (r : Run). in_batch k r && is_open r) runs rs in
    let new = open_runs-IsSettled k batch.id rs settled in
    let at = find_row-append k batches (batch ∷ []) in
    elim (Bool-cases (k == batch.id)) [
      | inr other ↦ elim (Option-cases (find_row batch_id k batches)) [
        | inl gone ↦ absurd (ground (arith, at, gone, found, other))
        | inr (x, there) ↦
            let same : x ≡ y = ground (arith, at, there, found) in
            let none_new : open_runs k rs ≡ 0 = ground (arith, new, other) in
            ground (arith, opened, none_new, h y (there ∙ ap (λ b. some b) same))
      ]
      | inl this ↦
          let k_id = (nat_eq.same_iff k batch.id).0 this in
          let gone = ap (λ j. find_row batch_id j batches) k_id ∙ absent in
          let same : batch ≡ y = ground (arith, at, gone, found, this) in
          let quiet = ap (λ j. open_runs j runs) k_id ∙ idle in
          let left : open_runs k rs + batch.failed ≡ batch.total =
            ground (arith, new, this, failures, whole) in
          subst
            (λ (b : RunBatch).
              (b.succeeded + b.failed + open_runs k (runs ++ rs) ≡ b.total)
              × (is_some b.finished_at ≡ true → open_runs k (runs ++ rs) ≡ 0))
            same
            (
              omega (arith, opened, quiet, left, good),
              λ f. elim over [
                | inl waits ↦ absurd (ground (arith, waits, f))
                | inr all_failed ↦ omega (arith, opened, quiet, left, all_failed)
              ],
            )
    ]

pub apart_row :
    (k : ℕ) (batches : List RunBatch) (batch : RunBatch)
    → (k == batch.id) ≡ false
    → find_row batch_id k batches ≡ none
    → find_row batch_id k (batches ++ batch ∷ []) ≡ none
unfolding find_row
apart_row k batches batch other absent =
    ground (arith, other, absent, find_row-append k batches (batch ∷ []))

pub apart_runs :
    (k batch : ℕ) (runs rs : List Run)
    → (k == batch) ≡ false
    → All (IsSettled batch) rs
    → open_runs k (runs ++ rs) ≡ open_runs k runs
apart_runs k batch runs rs other settled = ground (
  arith,
  other,
  open_runs-IsSettled k batch rs settled,
  tally-append (λ (r : Run). in_batch k r && is_open r) runs rs,
)
