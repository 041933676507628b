-- ===== src/Lifecycle/Batches.antt =====
-- What holds of the batches of every system that the transactions reach.
use bmu.Prelude.{
  ℕ, ◌+◌, ◌<◌, ◌≡◌, ◌∙◌, ◌↔◌, String, true, Option, none, some, arith, inl, inr, find_row,
  find_row_changed, is_some, Option-cases, Bool-cases, nat_eq, string_eq,
}
use bmu.Runtime.{Runtime}
use bmu.Settings.{Settings}
use bmu.Parsers.{Parsed, Engines}
use bmu.Models.Run.{Run, RunBatch}
use bmu.Jobs.{JobResult}
use bmu.Credentials.{Secrets}
use bmu.Queue.{Redis, Codec}
use bmu.Recorder.Store.{Git}
use bmu.Recorder.Payload.{run_id, batch_id, key_of}
use bmu.Recorder.Persist.{persist}
use bmu.Recorder.Reaper.{is_open}
use bmu.Recorder.Reaping.{open_runs}
use bmu.Recorder.Counting.{persist_counts}
use bmu.Web.Runs.{has_status, credit, cancel_batch}
use bmu.Lifecycle.Cancels.{open_runs-cancel_open, id-credit}
use bmu.Lifecycle.Counts.{open_live}
use bmu.Lifecycle.Steps.{System, Reach, Reach-Sound}

credited_finish :
    (now count : ℕ) (b : RunBatch)
    → b.succeeded + b.failed + count ≡ b.total
    → is_some (credit now count b).finished_at ≡ true
unfolding credit
credited_finish now count b h = ground (arith, h, Option-cases b.finished_at)

credited_total :
    (now count : ℕ) (b : RunBatch)
    → b.succeeded + b.failed + count ≡ b.total
    → (credit now count b).succeeded + (credit now count b).failed ≡ b.total
unfolding credit
credited_total now count b h = omega (arith, h)

module _ (git : Git) (py : Runtime) (engines : Engines py) (iso : String → Option ℕ)
    (json : Parsed py → String) (redis : Redis) (settings : Settings) (codec : Codec py)
    (secrets : Secrets) (repr : String → String) where
  -- In every system that is reached while no result comes for a run that is over
  -- already, a batch's successes, its failures and its open runs make up its
  -- total, and a finished batch has no open run.
  pub Reach-balanced :
      (s : System git py) (k : ℕ) (b : RunBatch)
      → Reach git py engines iso json redis settings codec secrets repr s
      → find_row batch_id k s.rows.batches ≡ some b
      → (b.succeeded + b.failed + open_runs k s.rows.runs ≡ b.total)
        × (is_some b.finished_at ≡ true → open_runs k s.rows.runs ≡ 0)
  Reach-balanced s k b reached found =
      (Reach-Sound git py engines iso json redis settings codec secrets repr reached).balanced k b
        found

  -- In every system that is reached while no result comes for a run that is over
  -- already, the list of batches filtered by "running" has exactly the
  -- batches with an open run.
  pub has_status-running :
      (s : System git py) (k : ℕ) (b : RunBatch)
      → Reach git py engines iso json redis settings codec secrets repr s
      → find_row batch_id k s.rows.batches ≡ some b
      → (has_status "running" b ≡ true) ↔ (0 < open_runs k s.rows.runs)
  unfolding has_status
  has_status-running s k b reached found = ground (arith, (Reach-balanced s k b reached found).0)

  -- In every system that is reached while no result comes for a run that is over
  -- already, the result of the last open run of a batch finishes the batch and
  -- makes up its total, when the handler does not raise.
  pub persist_last :
      (s : System git py) (now k : ℕ) (result : JobResult py) (run : Run) (b : RunBatch)
      → Reach git py engines iso json redis settings codec secrets repr s
      → find_row run_id result.run_id s.rows.runs ≡ some run
      → is_open run ≡ true
      → key_of run.batch_id ≡ some k
      → find_row batch_id k s.rows.batches ≡ some b
      → open_runs k s.rows.runs ≡ 1
      → (persist git py engines iso json now result s.rows s.memory).raised ≡ none
      → (y : RunBatch) × (find_row batch_id k
            (persist git py engines iso json now result s.rows s.memory).rows.batches
          ≡ some y)
        × (is_some y.finished_at ≡ true)
        × (y.succeeded + y.failed ≡ b.total)
  persist_last s now k result run b reached known was key found last quiet =
      let (y, at, c) =
        persist_counts git py engines iso json now result run k b s.rows s.memory known
          (open_live run was) key found quiet in
      let balance = (Reach-balanced s k b reached found).0 in
      (
        y,
        at,
        ground (arith, c.finished, balance, last),
        ground (arith, c.succeeded, c.failures, balance, last, Bool-cases result.success),
      )

  -- In every system that is reached while no result comes for a run that is over
  -- already, the cancellation of a batch finishes it: none of its runs is
  -- open then, and its results make up its total.
  pub cancel_batch_finishes :
      (s : System git py) (now k : ℕ) (b : RunBatch)
      → Reach git py engines iso json redis settings codec secrets repr s
      → find_row batch_id k s.rows.batches ≡ some b
      → (y : RunBatch) × (find_row batch_id k (cancel_batch now k s.rows).batches ≡ some y)
        × (is_some y.finished_at ≡ true)
        × (open_runs k (cancel_batch now k s.rows).runs ≡ 0)
        × (y.succeeded + y.failed ≡ b.total)
  unfolding cancel_batch
  cancel_batch_finishes s now k b reached found =
      let (balance, over) = Reach-balanced s k b reached found in
      let count = open_runs k s.rows.runs in
      elim (Option-cases b.finished_at) [
        | inr (t, done) ↦
            let idle = over (ground (arith, done)) in
            (
              b,
              ground (arith, found, done),
              ground (arith, done),
              ground (arith, found, done, idle),
              omega (arith, balance, idle),
            )
        | inl waits ↦ (
          credit now count b,
          ground (
            arith,
            found,
            waits,
            find_row_changed batch_id k (credit now count) s.rows.batches b
                (λ y e. id-credit now count y ∙ e) found,
          ),
          credited_finish now count b balance,
          ground (arith, found, waits, open_runs-cancel_open now k k s.rows.runs),
          credited_total now count b balance,
        )
      ]
