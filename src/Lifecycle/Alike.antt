-- ===== src/Lifecycle/Alike.antt =====
-- Changes of the table of runs that `_persist` of src/kiroku/recorder/runner.py makes.
use bmu.Prelude.{
  ℕ, ◌+◌, ◌≤◌, ◌≡◌, refl, ap, true, false, String, some, List, [], ◌∷◌, arith, inl, inr, find_row,
  update_row, Bool-cases, ◌==◌, nat_eq, string_eq, if◌then◌else◌,
}
use bmu.Models.Run.{Run}
use bmu.Recorder.Payload.{run_id, in_batch, stamp_runs}
use bmu.Recorder.Reaper.{is_open}
use bmu.Recorder.Reaping.{open_runs}
use bmu.Lifecycle.Tables.{runs_with}

update_row-absent :
    (i : ℕ) (f : Run → Run) (rs : List Run) → runs_with i rs ≡ 0 → update_row run_id i f rs ≡ rs
unfolding update_row
update_row-absent i f [] h = refl
update_row-absent i f (r ∷ rs) h = ground (arith, h, update_row-absent i f rs)

-- The runs that are open when one run, whose id is its own, is no longer.
pub open_runs-update_row :
    (i k : ℕ) (run run' : Run) (rs : List Run)
    → runs_with i rs ≤ 1
    → find_row run_id i rs ≡ some run
    → is_open run ≡ true
    → is_open run' ≡ false
    → open_runs k (update_row run_id i (λ r. run') rs) + (if in_batch k run then 1 else 0)
      ≡ open_runs k rs
unfolding update_row find_row
open_runs-update_row i k run run' [] h found was is_now = absurd (ground (arith, found))
open_runs-update_row i k run run' (r ∷ rs) h found was is_now = elim (Bool-cases (r.id == i)) [
  | inl this ↦ ground (
    arith,
    this,
    h,
    found,
    was,
    is_now,
    ap (open_runs k) (update_row-absent i (λ r. run') rs (ground (arith, h, this))),
  )
  | inr other ↦ ground (
    arith,
    other,
    h,
    found,
    open_runs-update_row i k run run' rs (ground (arith, h, other)) (ground (arith, found, other))
        was is_now,
  )
]

pub runs_with-update_row :
    (i j : ℕ) (run' : Run) (rs : List Run)
    → run'.id ≡ i
    → runs_with j (update_row run_id i (λ r. run') rs) ≡ runs_with j rs
unfolding update_row
runs_with-update_row i j run' [] h = refl
runs_with-update_row i j run' (r ∷ rs) h = ground (arith, h, runs_with-update_row i j run' rs h)

pub open_runs-stamp_runs :
    (j k : ℕ) (sha : String) (rs : List Run) → open_runs k (stamp_runs j sha rs) ≡ open_runs k rs
unfolding stamp_runs
open_runs-stamp_runs j k sha [] = refl
open_runs-stamp_runs j k sha (r ∷ rs) =
    ground (arith, open_runs-stamp_runs j k sha rs, Bool-cases (in_batch j r))

pub runs_with-stamp_runs :
    (j k : ℕ) (sha : String) (rs : List Run) → runs_with k (stamp_runs j sha rs) ≡ runs_with k rs
unfolding stamp_runs
runs_with-stamp_runs j k sha [] = refl
runs_with-stamp_runs j k sha (r ∷ rs) =
    ground (arith, runs_with-stamp_runs j k sha rs, Bool-cases (in_batch j r))

-- Two run tables with the same ids and the same open runs.
pub record IsAlike (rs rs' : List Run) : Type 0 where
  pub ids : (i : ℕ) → runs_with i rs' ≡ runs_with i rs
  pub opens : (k : ℕ) → open_runs k rs' ≡ open_runs k rs
