-- ===== src/Recorder/Reaper.antt =====
-- `_reap_stale_batches` of src/kiroku/recorder/runner.py. `cutoff` is the time before which a batch
-- is stale, and `now` the time at which the reaper closes it.
use Prim.Native.String.{◌++◌ as ◌<>◌}
use bmu.Prelude.{ℕ, ◌+◌, ◌-◌, String, Bool, true, false, ◌&&◌, Option, none, some, List, [], ◌∷◌}
use bmu.Prelude.{ltb, tally, if◌then◌else◌, update_row}
use bmu.Text.{decimal, join}
use bmu.Runtime.{Runtime}
use bmu.Models.Run.{Run, RunBatch, pending, running, failed}
use bmu.Recorder.Store.{Git, commit_batch}
use bmu.Recorder.State.{Rows, Memory, staged_paths, unstage}
use bmu.Recorder.Payload.{in_batch, batch_id}

-- `RunBatch.finished_at IS NULL AND created_at < cutoff`
unfoldable pub is_stale : ℕ → RunBatch → Bool
is_stale cutoff b = elim b.finished_at [ some t ↦ false | none ↦ ltb b.created_at cutoff ]

-- The status is PENDING or RUNNING.
abbrev pub is_open : Run → Bool
is_open r = elim r.status [ pending ↦ true | running ↦ true | _ ↦ false ]

abbrev pub timed_out : String
timed_out = "batch timed out: result never received from worker"

-- Mark the open runs of a batch as failed.
unfoldable pub fail_open : ℕ → ℕ → List Run → List Run
fail_open now k [] = []
fail_open now k (r ∷ rs) =
    (if in_batch k r && is_open r
      then record r { status = failed; error = some timed_out; finished_at = some now }
      else r)
    ∷ fail_open now k rs

-- Stamp a commit on the runs of a batch that have none.
unfoldable pub stamp_missing : ℕ → String → List Run → List Run
stamp_missing k sha [] = []
stamp_missing k sha (r ∷ rs) =
    (if in_batch k r
      then elim r.commit_sha [ none ↦ record r { commit_sha = some sha } | some c ↦ r ]
      else r)
    ∷ stamp_missing k sha rs

-- The batch when the reaper has closed it.
unfoldable pub reaped : ℕ → Option String → ℕ → RunBatch → RunBatch
reaped now sha failures b = record b {
  finished_at = some now;
  commit_sha = elim sha [ none ↦ b.commit_sha | some c ↦ some c ];
  failed = b.failed + failures;
}

unfoldable pub stale_batches : ℕ → List RunBatch → List RunBatch
unfolding is_stale
stale_batches cutoff [] = []
stale_batches cutoff (b ∷ bs) =
    let rest = stale_batches cutoff bs in if is_stale cutoff b then b ∷ rest else rest

module _ (git : Git) (py : Runtime) where
  abbrev pub reap_message : ℕ → RunBatch → List String → String
  reap_message now b paths =
      "backup batch (reaped): "
      <> (b.schedule_name
          <> ("\n\nbatch_id="
              <> (decimal b.id
                  <> (", age_s=" <> (decimal (now - b.created_at) <> ("\n" <> join "\n" paths))))))

  -- The body of the loop over the stale batches.
  unfoldable pub reap_batch : ℕ → RunBatch → Rows py × Memory git → Rows py × Memory git
  unfolding fail_open stamp_missing reaped commit_batch staged_paths unstage update_row
  reap_batch now b (rows, memory) =
      let paths = staged_paths b.id memory.staged in
      let (sha, store) = commit_batch git memory.store paths (reap_message now b paths) in
      let failures = tally (λ r. in_batch b.id r && is_open r) rows.runs in
      let runs = fail_open now b.id rows.runs in
      (
        record rows {
          runs = elim sha [ none ↦ runs | some c ↦ stamp_missing b.id c runs ];
          batches = update_row batch_id b.id (reaped now sha failures) rows.batches;
        },
        record { store = store; staged = unstage b.id memory.staged },
      )

  unfoldable pub reap_batches : ℕ → List RunBatch → Rows py × Memory git → Rows py × Memory git
  unfolding reap_batch
  reap_batches now [] state = state
  reap_batches now (b ∷ bs) state = reap_batches now bs (reap_batch now b state)

  unfoldable pub reap_stale_batches : ℕ → ℕ → Rows py × Memory git → Rows py × Memory git
  unfolding reap_batches stale_batches
  reap_stale_batches cutoff now (rows, memory) =
      reap_batches now (stale_batches cutoff rows.batches) (rows, memory)
