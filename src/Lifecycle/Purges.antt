-- ===== src/Lifecycle/Purges.antt =====
-- The rows of `purge_queue` of src/kiroku/web/routes/runs.py: the batches stay balanced.
use bmu.Prelude.{
  ℕ, ◌+◌, ◌≤◌, ◌≡◌, refl, ap, true, false, ◌&&◌, ◌⊎◌, none, some, List, [], ◌∷◌, arith, inl, inr,
  tally, find_row, update_row, Bool-cases, Option-cases, is_some, ◌==◌, nat_eq, if◌then◌else◌,
  contains,
}
use bmu.Runtime.{Runtime}
use bmu.Models.Run.{Run, RunBatch}
use bmu.Recorder.State.{Rows}
use bmu.Recorder.Payload.{batch_id, in_batch}
use bmu.Recorder.Reaper.{is_open}
use bmu.Recorder.Reaping.{open_runs}
use bmu.Web.Runs.{
  cancel_listed, credit, count_batch, note_cancelled, count_cancelled, credit_all, cancel_purged,
}
use bmu.Lifecycle.Tables.{runs_with, IsMove, find_row-before, find_row_missing}
use bmu.Lifecycle.Cancels.{id-credit}

-- The runs of a batch that a purge cancels.
abbrev doomed : List ℕ → ℕ → List Run → ℕ
doomed ids k rs = tally (λ (r : Run). in_batch k r && (contains r.id ids && is_open r)) rs

-- The count of a batch in the dict.
abbrev count_of : ℕ → List (ℕ × ℕ) → ℕ
count_of k [] = 0
count_of k ((j, n) ∷ rest) = (if k == j then n else 0) + count_of k rest

runs_with-cancel_listed :
    (now i : ℕ) (ids : List ℕ) (rs : List Run)
    → runs_with i (cancel_listed now ids rs) ≡ runs_with i rs
unfolding cancel_listed
runs_with-cancel_listed now i ids [] = refl
runs_with-cancel_listed now i ids (r ∷ rs) =
    ground
      (arith, runs_with-cancel_listed now i ids rs, Bool-cases (contains r.id ids && is_open r))

open_runs-cancel_listed :
    (now k : ℕ) (ids : List ℕ) (rs : List Run)
    → open_runs k (cancel_listed now ids rs) + doomed ids k rs ≡ open_runs k rs
unfolding cancel_listed
open_runs-cancel_listed now k ids [] = refl
open_runs-cancel_listed now k ids (r ∷ rs) = ground (
  arith,
  open_runs-cancel_listed now k ids rs,
  Bool-cases (is_open r),
  Bool-cases (contains r.id ids),
  Bool-cases (in_batch k r),
)

count_of-count_batch :
    (k j : ℕ) (counts : List (ℕ × ℕ))
    → count_of k (count_batch j counts) ≡ count_of k counts + (if k == j then 1 else 0)
unfolding count_batch
count_of-count_batch k j [] = ground arith
count_of-count_batch k j ((i, n) ∷ rest) = ground (arith, count_of-count_batch k j rest)

count_of-note_cancelled :
    (k : ℕ) (ids : List ℕ) (r : Run) (counts : List (ℕ × ℕ))
    → (k == 0) ≡ false
    → count_of k (note_cancelled ids r counts)
      ≡ count_of k counts + (if in_batch k r && (contains r.id ids && is_open r) then 1 else 0)
unfolding note_cancelled
count_of-note_cancelled k ids r counts h = elim (Bool-cases (contains r.id ids && is_open r)) [
  | inr kept ↦ ground (arith, kept)
  | inl hit ↦ elim (Option-cases r.batch_id) [
    | inl alone ↦ ground (arith, hit, alone)
    | inr (j, of) ↦ ground (arith, hit, of, h, count_of-count_batch k j counts)
  ]
]

count_of-count_cancelled :
    (k : ℕ) (ids : List ℕ) (counts : List (ℕ × ℕ)) (rs : List Run)
    → (k == 0) ≡ false
    → count_of k (count_cancelled ids counts rs) ≡ count_of k counts + doomed ids k rs
unfolding count_cancelled
count_of-count_cancelled k ids counts [] h = omega arith
count_of-count_cancelled k ids counts (r ∷ rs) h = omega (
  arith,
  count_of-count_cancelled k ids (note_cancelled ids r counts) rs h,
  count_of-note_cancelled k ids r counts h,
)

-- What the credits leave of a batch row.
abbrev IsCredited : ℕ → RunBatch → RunBatch → Type 0
IsCredited count x y =
    (y.succeeded ≡ x.succeeded)
    × (y.failed ≡ x.failed + count)
    × (y.total ≡ x.total)
    × (is_some y.finished_at ≡ true
        → (is_some x.finished_at ≡ true) ⊎ (y.total ≤ y.succeeded + y.failed))

credit_step :
    (now k j n count : ℕ) (x x' y : RunBatch)
    → x' ≡ (if k == j then credit now n x else x)
    → IsCredited count x' y
    → IsCredited ((if k == j then n else 0) + count) x y
unfolding credit
credit_step now k j n count x x' y same h = elim (Bool-cases (k == j)) [
  | inr other ↦ ground (arith, other, same, h)
  | inl this ↦
      let row : x' ≡ credit now n x = ground (arith, same, this) in
      ground (arith, this, row, h, Option-cases x.finished_at)
]

credit_all-IsCredited :
    (now k : ℕ) (counts : List (ℕ × ℕ)) (batches : List RunBatch) (y : RunBatch)
    → find_row batch_id k (credit_all now counts batches) ≡ some y
    → (x : RunBatch) × (find_row batch_id k batches ≡ some x) × IsCredited (count_of k counts) x y
unfolding credit_all
credit_all-IsCredited now k [] batches y h = (y, h, (refl, omega arith, refl, λ f. inl f))
credit_all-IsCredited now k ((j, n) ∷ rest) batches y h =
    let next = update_row batch_id j (credit now n) batches in
    let (x', there', done) = credit_all-IsCredited now k rest next y h in
    let (x, there, same) = find_row-before j k (credit now n) batches x' (id-credit now n) there' in
    (x, there, credit_step now k j n (count_of k rest) x x' y same done)

credit_all-missing :
    (now k : ℕ) (counts : List (ℕ × ℕ)) (batches : List RunBatch)
    → find_row batch_id k batches ≡ none
    → find_row batch_id k (credit_all now counts batches) ≡ none
unfolding credit_all
credit_all-missing now k [] batches h = h
credit_all-missing now k ((j, n) ∷ rest) batches h =
    credit_all-missing now k rest (update_row batch_id j (credit now n) batches)
      (find_row_missing j k (credit now n) batches (id-credit now n) h)

balanced_purge :
    (x y : RunBatch) (count before after : ℕ)
    → IsCredited count x y
    → after + count ≡ before
    → (x.succeeded + x.failed + before ≡ x.total) × (is_some x.finished_at ≡ true → before ≡ 0)
    → (y.succeeded + y.failed + after ≡ y.total) × (is_some y.finished_at ≡ true → after ≡ 0)
balanced_purge x y count before after credited fewer h = (
  omega (arith, credited.0, credited.1, credited.2, fewer, h.0),
  λ f. elim (credited.3 f) [
    | inl old ↦ omega (arith, fewer, h.1 old)
    | inr all_in ↦ omega (arith, credited.0, credited.1, credited.2, fewer, h.0, all_in)
  ],
)

module _ (py : Runtime) where
  pub cancel_purged-IsMove :
      (now : ℕ) (ids : List ℕ) (rows : Rows py)
      → IsMove rows.runs
          (cancel_purged now ids rows).runs
          rows.batches
          (cancel_purged now ids rows).batches
  unfolding cancel_purged
  cancel_purged-IsMove now ids rows =
      let counts = count_cancelled ids [] rows.runs in
      record {
        ids = λ i. runs_with-cancel_listed now i ids rows.runs;
        fewer = λ k. omega (arith, open_runs-cancel_listed now k ids rows.runs);
        missing = λ k h. credit_all-missing now k counts rows.batches h;
        balance = λ k z h y found.
            let (x, there, done) = credit_all-IsCredited now k counts rows.batches y found in
            elim (Bool-cases (k == 0)) [
              | inl none_such ↦
                  let zero_key = (nat_eq.same_iff k 0).0 none_such in
                  absurd
                    (ground (arith, there, z, ap (λ j. find_row batch_id j rows.batches) zero_key))
              | inr real ↦
                  balanced_purge x y (count_of k counts) (open_runs k rows.runs)
                    (open_runs k (cancel_listed now ids rows.runs)) done
                    (omega (
                      arith,
                      open_runs-cancel_listed now k ids rows.runs,
                      count_of-count_cancelled k ids [] rows.runs real,
                    ))
                    (h x there)
            ];
      }
