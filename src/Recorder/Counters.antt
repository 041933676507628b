-- ===== src/Recorder/Counters.antt =====
-- The counters of a batch, before and after one result: `_persist` of
-- src/kiroku/recorder/runner.py.
use bmu.Prelude.{◌+◌, ◌≡◌, refl, Bool, true, false, arith}
use bmu.Prelude.{leb, if◌then◌else◌, nat_eq, string_eq}
use bmu.Prelude.{Option-cases, ◌||◌, is_some}
use bmu.Models.Run.{RunBatch, RunStatus, success, failed}
use bmu.Recorder.Payload.{count_result}
use bmu.Recorder.Persist.{is_complete}

unfoldable pub verdict : Bool → RunStatus
verdict ok_result = if ok_result then success else failed

-- A batch that a close leaves in the table.
pub record IsFinished (b y : RunBatch) : Type 0 where
  pub succeeded : y.succeeded ≡ b.succeeded
  pub failures : y.failed ≡ b.failed
  pub total : y.total ≡ b.total
  pub finished : is_some y.finished_at ≡ true

-- The counters of a batch after one result, and whether it is finished.
pub record IsCounted (good : Bool) (b y : RunBatch) : Type 0 where
  pub succeeded : y.succeeded ≡ b.succeeded + (if good then 1 else 0)
  pub failures : y.failed ≡ b.failed + (if good then 0 else 1)
  pub total : y.total ≡ b.total
  pub finished :
      is_some y.finished_at ≡ (is_some b.finished_at || leb b.total (b.succeeded + b.failed + 1))

-- The batch row after one result.
pub IsCounted-complete :
    (good : Bool) (b y : RunBatch)
    → is_complete (count_result good b) ≡ true
    → IsFinished (count_result good b) y
    → IsCounted good b y
unfolding is_complete count_result
IsCounted-complete true b y c f = record {
  succeeded = ground (arith, f.succeeded);
  failures = ground (arith, f.failures);
  total = ground (arith, f.total);
  finished = ground (arith, f.finished, c, Option-cases b.finished_at);
}
IsCounted-complete false b y c f = record {
  succeeded = ground (arith, f.succeeded);
  failures = ground (arith, f.failures);
  total = ground (arith, f.total);
  finished = ground (arith, f.finished, c, Option-cases b.finished_at);
}

pub IsCounted-open :
    (good : Bool) (b : RunBatch)
    → is_complete (count_result good b) ≡ false
    → IsCounted good b (count_result good b)
unfolding is_complete count_result
IsCounted-open true b c = record {
  succeeded = refl;
  failures = ground arith;
  total = refl;
  finished = ground (arith, Option-cases b.finished_at);
}
IsCounted-open false b c = record {
  succeeded = ground arith;
  failures = refl;
  total = refl;
  finished = ground (arith, Option-cases b.finished_at);
}

pub id-count_result : (good : Bool) (b : RunBatch) → (count_result good b).id ≡ b.id
unfolding count_result
id-count_result true b = refl
id-count_result false b = refl
