-- ===== src/Lifecycle/Counts.antt =====
-- `_persist` of src/kiroku/recorder/runner.py, on a result of an open run: the batches stay balanced.
use bmu.Prelude.{
  ℕ, ◌+◌, ◌≤◌, ◌≡◌, sym, ap, ◌∙◌, subst, Bool, true, false, String, Option, none, some, arith, inl,
  inr, ◌⊎◌, find_row, Bool-cases, Option-cases, is_some, ◌==◌, nat_eq,
}
use bmu.Runtime.{Runtime}
use bmu.Parsers.{Parsed, Engines}
use bmu.Models.Run.{Run, RunBatch}
use bmu.Jobs.{JobResult}
use bmu.Recorder.Store.{Git}
use bmu.Recorder.State.{Rows, Memory}
use bmu.Recorder.Payload.{run_id, batch_id, in_batch, is_cancelled, key_of}
use bmu.Recorder.Persist.{Persisted, persist, persist_block, session_scope}
use bmu.Recorder.Reaper.{is_open}
use bmu.Recorder.Reaping.{open_runs}
use bmu.Recorder.Counters.{IsCounted}
use bmu.Recorder.Applied.{persist_quiet}
use bmu.Recorder.Counting.{persist_counts}
use bmu.Recorder.Closing.{persist_rolls_back}
use bmu.Lifecycle.Tables.{runs_with, IsBalanced, IsMove, IsMove-refl}
use bmu.Lifecycle.Results.{IsSettled, persist_run-IsSettled}

pub open_live : (r : Run) → is_open r ≡ true → is_cancelled r ≡ false
open_live r h = ground (arith, h)

-- The batch that a run counts for is the one that it is in.
in_batch-key_of : (r : Run) (j k : ℕ) → key_of r.batch_id ≡ some j → in_batch k r ≡ (k == j)
in_batch-key_of r j k key = elim (Option-cases r.batch_id) [
  | inl alone ↦ absurd (ground (arith, alone, key))
  | inr (i, of) ↦ ground (arith, of, key)
]

in_batch_zero : (r : Run) (k : ℕ) → key_of r.batch_id ≡ none → in_batch k r ≡ true → k ≡ 0
in_batch_zero r k key h = elim (Option-cases r.batch_id) [
  | inl alone ↦ absurd (ground (arith, alone, h))
  | inr (i, of) ↦ ground (arith, of, key, h)
]

-- The balance of a batch after one result of one of its open runs.
balanced_counted :
    (good : Bool) (x y : RunBatch) (before after : ℕ)
    → IsCounted good x y
    → after + 1 ≡ before
    → (x.succeeded + x.failed + before ≡ x.total) × (is_some x.finished_at ≡ true → before ≡ 0)
    → (y.succeeded + y.failed + after ≡ y.total) × (is_some y.finished_at ≡ true → after ≡ 0)
balanced_counted good x y before after c fewer h = (
  ground (arith, c.succeeded, c.failures, c.total, fewer, h.0, Bool-cases good),
  λ f. elim (Bool-cases (is_some x.finished_at)) [
    | inl old ↦ absurd (omega (arith, fewer, h.1 old))
    | inr new ↦ ground (arith, c.finished, f, new, fewer, h.0)
  ],
)

module _ (git : Git) (py : Runtime) (engines : Engines py) (iso : String → Option ℕ)
    (json : Parsed py → String) where
  -- The balance of each batch, when the handler does not raise.
  persist-IsBalanced :
      (now k : ℕ) (result : JobResult py) (run : Run) (rows : Rows py) (memory : Memory git)
      → find_row run_id result.run_id rows.runs ≡ some run
      → is_open run ≡ true
      → (persist git py engines iso json now result rows memory).raised ≡ none
      → IsSettled git py engines iso json run rows
          (persist git py engines iso json now result rows memory).rows
      → find_row batch_id 0 rows.batches ≡ none
      → IsBalanced k rows.runs rows.batches
      → IsBalanced k
          (persist git py engines iso json now result rows memory).rows.runs
          (persist git py engines iso json now result rows memory).rows.batches
  persist-IsBalanced now k result run rows memory known was quiet settled z h y found =
      let after = (persist git py engines iso json now result rows memory).rows in
      elim (Option-cases (key_of run.batch_id)) [
        | inl key ↦
            let same = settled.others k (λ e. absurd (ground (arith, key, e))) in
            let at = sym same ∙ found in
            elim (Bool-cases (in_batch k run)) [
              | inr out ↦ ground (arith, out, settled.opens k, h y at)
              | inl zero_key ↦
                  let k_zero = in_batch_zero run k key zero_key in
                  absurd (ground (arith, at, z, ap (λ j. find_row batch_id j rows.batches) k_zero))
            ]
        | inr (j, key) ↦
            let inside = in_batch-key_of run j k key in
            elim (Bool-cases (k == j)) [
              | inr other ↦
                  let same = settled.others k (λ e. absurd (ground (arith, key, e, other))) in
                  let at = sym same ∙ found in
                  ground (arith, inside, other, settled.opens k, h y at)
              | inl this ↦ elim (Option-cases (find_row batch_id k rows.batches)) [
                | inl absent ↦
                    absurd (ground (arith, settled.others k (λ e. absent), absent, found))
                | inr (x, there) ↦
                    let k_j = (nat_eq.same_iff k j).0 this in
                    let (y', at, counted) =
                      persist_counts git py engines iso json now result run k x rows memory known
                        (open_live run was) (key ∙ ap (λ i. some i) (sym k_j)) there quiet in
                    let row : y' ≡ y = ground (arith, at, found) in
                    balanced_counted result.success x y (open_runs k rows.runs)
                      (open_runs k after.runs)
                      (subst (λ b. IsCounted result.success x b) row counted)
                      (ground (arith, inside, this, settled.opens k)) (h x there)
              ]
            ]
      ]

  persist-IsMove :
      (now : ℕ) (result : JobResult py) (run : Run) (rows : Rows py) (memory : Memory git)
      → runs_with result.run_id rows.runs ≤ 1
      → find_row run_id result.run_id rows.runs ≡ some run
      → is_open run ≡ true
      → IsMove rows.runs
          (persist git py engines iso json now result rows memory).rows.runs
          rows.batches
          (persist git py engines iso json now result rows memory).rows.batches
  unfolding persist persist_block
  persist-IsMove now result run rows memory alone known was =
      let p = persist git py engines iso json now result rows memory in
      elim (Option-cases p.raised) [
        | inr (e, bad) ↦
            let same = persist_rolls_back git py engines iso json now result rows memory e bad in
            subst (λ (r : Rows py). IsMove rows.runs r.runs rows.batches r.batches) (sym same)
              (IsMove-refl rows.runs rows.batches)
        | inl quiet ↦
            let live = open_live run was in
            let same = persist_quiet git py engines iso json now result rows memory quiet in
            let block = persist_block git py engines iso json now result rows memory in
            let calm =
              ap (λ (x : Persisted git py engines iso json). x.raised) (sym same) ∙ quiet in
            let ends : IsSettled git py engines iso json run rows block.rows =
              rw (known, live, persist_block)
                (persist_run-IsSettled git py engines iso json now result.run_id result run rows
                  memory alone known was (ground (arith, known, live, calm))) in
            let settled : IsSettled git py engines iso json run rows p.rows =
              subst
                (λ (x : Persisted git py engines iso json).
                  IsSettled git py engines iso json run rows x.rows)
                (sym same) ends in
            record {
              ids = settled.ids;
              fewer = λ k. omega (arith, settled.opens k);
              missing = λ k absent. settled.others k (λ e. absent) ∙ absent;
              balance = λ k z h.
                  persist-IsBalanced now k result run rows memory known was quiet settled z h;
            }
      ]

  -- A result of a run that has none yet; one of a run that is unknown or cancelled is dropped.
  pub persist_first-IsMove :
      (now : ℕ) (result : JobResult py) (rows : Rows py) (memory : Memory git)
      → runs_with result.run_id rows.runs ≤ 1
      → ((run : Run)
          → find_row run_id result.run_id rows.runs ≡ some run
          → (is_open run ≡ true) ⊎ (is_cancelled run ≡ true))
      → IsMove rows.runs
          (persist git py engines iso json now result rows memory).rows.runs
          rows.batches
          (persist git py engines iso json now result rows memory).rows.batches
  unfolding persist persist_block session_scope
  persist_first-IsMove now result rows memory alone first =
      let p = persist git py engines iso json now result rows memory in
      let dropped : p.rows ≡ rows → IsMove rows.runs p.rows.runs rows.batches p.rows.batches =
        λ same.
          subst (λ (r : Rows py). IsMove rows.runs r.runs rows.batches r.batches) (sym same)
            (IsMove-refl rows.runs rows.batches) in
      elim (Option-cases (find_row run_id result.run_id rows.runs)) [
        | inl unknown ↦ dropped (ground (arith, unknown))
        | inr (run, known) ↦ elim (first run known) [
          | inl was ↦ persist-IsMove now result run rows memory alone known was
          | inr over ↦ dropped (ground (arith, known, over))
        ]
      ]
