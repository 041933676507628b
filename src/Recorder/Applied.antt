-- ===== src/Recorder/Applied.antt =====
-- What a result does to its run and its batch before they are written back, and what `session_scope`
-- keeps: `_persist` of src/kiroku/recorder/runner.py.
use bmu.Prelude.{ℕ, String, ◌≡◌, Option, none, some, arith}
use bmu.Prelude.{nat_eq, string_eq}
use bmu.Prelude.{Option-cases, Bool-cases, inl, inr}
use bmu.Runtime.{Runtime}
use bmu.Parsers.{Parsed, Engines}
use bmu.Models.Run.{Run, RunBatch, success}
use bmu.Jobs.{JobResult}
use bmu.Recorder.Store.{Git}
use bmu.Recorder.State.{Rows, Memory}
use bmu.Recorder.Payload.{count_result, note_times, Work}
use bmu.Recorder.Persist.{
  save_payload, apply_result, persist, persist_block, session_scope, Persisted,
}
use bmu.Recorder.Counters.{verdict}

module _ (git : Git) (py : Runtime) (engines : Engines py) (iso : String → Option ℕ)
    (json : Parsed py → String) where
  abbrev pub Working : Type 0
  Working = Work git py engines iso json

  -- The payload changes neither the run's id and status nor the batch and the tables of runs and
  -- batches.
  pub record IsFrame (w w' : Working) : Type 0 where
    pub id : w'.run.id ≡ w.run.id
    pub status : w'.run.status ≡ w.run.status
    pub batch : w'.batch ≡ w.batch
    pub runs : w'.rows.runs ≡ w.rows.runs
    pub batches : w'.rows.batches ≡ w.rows.batches

  pub save_payload-IsFrame :
      (now : ℕ) (result : JobResult py) (w : Working)
      → IsFrame w (save_payload git py engines iso json now result w)
  unfolding save_payload
  save_payload-IsFrame now result w = record {
    id = ground arith;
    status = ground arith;
    batch = ground arith;
    runs = ground arith;
    batches = ground arith;
  }

  -- The work after a result.
  abbrev pub applied : ℕ → JobResult py → Run → RunBatch → Rows py → Memory git → Working
  applied now result run b rows memory =
      apply_result git py engines iso json now result
        (record { run = run; batch = some b; rows = rows; memory = memory })

  pub record IsApplied (result : JobResult py) (run : Run) (b : RunBatch) (rows : Rows py)
      (w : Working) : Type 0 where
    pub id : w.run.id ≡ run.id
    pub status : w.run.status ≡ verdict result.success
    pub batch : w.batch ≡ some (count_result result.success b)
    pub runs : w.rows.runs ≡ rows.runs
    pub batches : w.rows.batches ≡ rows.batches

  pub apply_result-IsApplied :
      (now : ℕ) (result : JobResult py) (run : Run) (b : RunBatch) (rows : Rows py)
      (memory : Memory git)
      → IsApplied result run b rows (applied now result run b rows memory)
  unfolding apply_result verdict note_times
  apply_result-IsApplied now result run b rows memory = elim (Bool-cases result.success) [
    | inr bad ↦ record {
      id = ground (arith, bad);
      status = ground (arith, bad);
      batch = ground (arith, bad);
      runs = ground (arith, bad);
      batches = ground (arith, bad);
    }
    | inl good ↦
        let timed = note_times git py engines iso json result run in
        let w : Working = record {
          run = record timed { status = success };
          batch = some (count_result result.success b);
          rows = rows;
          memory = memory;
        } in
        let f = save_payload-IsFrame now result w in
        let same : applied now result run b rows memory
            ≡ save_payload git py engines iso json now result w =
          ground (arith, good) in
        record {
          id = ground (arith, good, same, f.id);
          status = ground (arith, good, same, f.status);
          batch = ground (arith, good, same, f.batch);
          runs = ground (arith, good, same, f.runs);
          batches = ground (arith, good, same, f.batches);
        }
  ]

  session_scope_quiet :
      (before : Rows py) (p : Persisted git py engines iso json)
      → (session_scope git py engines iso json before p).raised ≡ none
      → session_scope git py engines iso json before p ≡ p
  unfolding session_scope
  session_scope_quiet before p quiet = elim (Option-cases p.raised) [
    | inl calm ↦ ground (arith, calm)
    | inr (e, bad) ↦ absurd (ground (arith, bad, quiet))
  ]

  -- A handler that does not raise keeps the rows of its block.
  pub persist_quiet :
      (now : ℕ) (result : JobResult py) (rows : Rows py) (memory : Memory git)
      → (persist git py engines iso json now result rows memory).raised ≡ none
      → persist git py engines iso json now result rows memory
        ≡ persist_block git py engines iso json now result rows memory
  unfolding persist
  persist_quiet now result rows memory quiet =
      session_scope_quiet rows (persist_block git py engines iso json now result rows memory) quiet
