-- ===== src/Lifecycle/Steps.antt =====
-- The transactions on runs and batches as a step relation: src/kiroku/dispatch.py,
-- src/kiroku/recorder/runner.py and src/kiroku/web/routes/runs.py.
use bmu.Prelude.{ℕ, ◌<◌, ◌≡◌, refl, String, true, Option, some, List, [], ◌⊎◌, find_row, arith}
use bmu.Runtime.{Runtime}
use bmu.Settings.{Settings}
use bmu.Parsers.{Parsed, Engines}
use bmu.Models.Credential.{Credential}
use bmu.Models.Job.{Job}
use bmu.Models.Run.{Run, RunBatch}
use bmu.Jobs.{JobResult}
use bmu.Credentials.{Secrets}
use bmu.Queue.{Redis, Codec}
use bmu.Dispatch.Specs.{Db}
use bmu.Dispatch.Fire.{fire_job}
use bmu.Recorder.Store.{Git}
use bmu.Recorder.State.{Rows, Memory}
use bmu.Recorder.Payload.{run_id, is_cancelled}
use bmu.Recorder.Persist.{persist}
use bmu.Recorder.Reaper.{is_open, reap_stale_batches}
use bmu.Web.Runs.{cancel_batch, cancel_purged}
use bmu.Lifecycle.Tables.{IsSound, IsMove-IsSound}
use bmu.Lifecycle.Reaps.{reap_stale_batches-IsMove}
use bmu.Lifecycle.Cancels.{cancel_batch-IsMove}
use bmu.Lifecycle.Purges.{cancel_purged-IsMove}
use bmu.Lifecycle.Counts.{persist_first-IsMove}
use bmu.Lifecycle.Fires.{fire_job-IsSound}

-- The database, the recorder's memory, and the sequences that the ids come from.
pub record System (git : Git) (py : Runtime) : Type 0 where
  pub rows : Rows py
  pub memory : Memory git
  pub next_run : ℕ
  pub next_batch : ℕ

module _ (git : Git) (py : Runtime) (engines : Engines py) (iso : String → Option ℕ)
    (json : Parsed py → String) (redis : Redis) (settings : Settings) (codec : Codec py)
    (secrets : Secrets) (repr : String → String) where
  -- What the dispatcher sees of the database.
  abbrev pub db_of : List Credential → System git py → Db
  db_of credentials s = record {
    credentials = credentials;
    batches = s.rows.batches;
    runs = s.rows.runs;
    next_batch = s.next_batch;
    next_run = s.next_run;
  }

  -- The database with what the dispatcher has changed.
  abbrev pub with_db : Db → System git py → System git py
  with_db db s = record s {
    rows = record (s.rows) { batches = db.batches; runs = db.runs };
    next_run = db.next_run;
    next_batch = db.next_batch;
  }

  -- One transaction. The scheduler keeps what `fire_job` has added also if it raises.
  pub data Step : System git py → System git py → Type 0 where
    fired :
        (s : System git py) (credentials : List Credential) (streams : redis.State) (job : Job)
        (schedule_id : Option ℕ) (schedule_name : Option String) (now created : ℕ)
        → Step s (
            with_db
              (fire_job redis settings codec secrets repr
                (db_of credentials s)
                streams
                job
                schedule_id
                schedule_name
                now
                created).db
              s)
    persisted :
        (s : System git py) (now : ℕ) (result : JobResult py)
        → Step s (record s {
          rows = (persist git py engines iso json now result s.rows s.memory).rows;
          memory = (persist git py engines iso json now result s.rows s.memory).memory;
        })
    batch_cancelled :
        (s : System git py) (now k : ℕ) → Step s (record s { rows = cancel_batch now k s.rows })
    queue_purged :
        (s : System git py) (now : ℕ) (ids : List ℕ)
        → Step s (record s { rows = cancel_purged now ids s.rows })
    reaped :
        (s : System git py) (cutoff now : ℕ)
        → Step s (record s {
          rows = (reap_stale_batches git py cutoff now (s.rows, s.memory)).0;
          memory = (reap_stale_batches git py cutoff now (s.rows, s.memory)).1;
        })

  -- A step that is not the result of a run that is over already, having succeeded or failed, be it
  -- by a result or by the reaper.
  abbrev pub IsFirst : {s t : System git py} → Step s t → Type 0
  IsFirst (fired s credentials streams job schedule_id schedule_name now created) = Unit
  IsFirst (persisted s now result) =
      (run : Run)
      → find_row run_id result.run_id s.rows.runs ≡ some run
      → (is_open run ≡ true) ⊎ (is_cancelled run ≡ true)
  IsFirst (batch_cancelled s now k) = Unit
  IsFirst (queue_purged s now ids) = Unit
  IsFirst (reaped s cutoff now) = Unit

  -- The systems that come from one without runs and batches by such steps.
  pub data Reach : System git py → Type 0 where
    start :
        (s : System git py) → s.rows.runs ≡ [] → s.rows.batches ≡ [] → 0 < s.next_batch → Reach s
    next : {s t : System git py} → Reach s → (step : Step s t) → IsFirst step → Reach t

  abbrev pub Sound : System git py → Type 0
  Sound s = IsSound s.rows.runs s.rows.batches s.next_run s.next_batch

  Step-Sound : {s t : System git py} (step : Step s t) → IsFirst step → Sound s → Sound t
  Step-Sound (fired s credentials streams job schedule_id schedule_name now created) first ok_s =
      fire_job-IsSound redis settings codec secrets repr (db_of credentials s) streams job
        schedule_id schedule_name now created ok_s
  Step-Sound (persisted s now result) first ok_s =
      let p = persist git py engines iso json now result s.rows s.memory in
      IsMove-IsSound s.rows.runs p.rows.runs s.rows.batches p.rows.batches s.next_run s.next_batch
        (persist_first-IsMove git py engines iso json now result s.rows s.memory
          (ok_s.unique result.run_id) first)
        ok_s
  Step-Sound (batch_cancelled s now k) first ok_s =
      let after = cancel_batch now k s.rows in
      IsMove-IsSound s.rows.runs after.runs s.rows.batches after.batches s.next_run s.next_batch
        (cancel_batch-IsMove py now k s.rows) ok_s
  Step-Sound (queue_purged s now ids) first ok_s =
      let after = cancel_purged now ids s.rows in
      IsMove-IsSound s.rows.runs after.runs s.rows.batches after.batches s.next_run s.next_batch
        (cancel_purged-IsMove py now ids s.rows) ok_s
  Step-Sound (reaped s cutoff now) first ok_s =
      let after = (reap_stale_batches git py cutoff now (s.rows, s.memory)).0 in
      IsMove-IsSound s.rows.runs after.runs s.rows.batches after.batches s.next_run s.next_batch
        (reap_stale_batches-IsMove git py cutoff now s.rows s.memory) ok_s

  start-IsSound :
      (runs : List Run) (batches : List RunBatch) (m n : ℕ)
      → runs ≡ []
      → batches ≡ []
      → 0 < n
      → IsSound runs batches m n
  unfolding find_row
  start-IsSound runs batches m n no_runs no_batches above =
      rw (no_runs, no_batches)
        (record {
          unique = λ i. omega arith;
          fresh_run = λ i h. refl;
          fresh_batch = λ k h. (refl, refl);
          positive = above;
          no_zero = refl;
          balanced = λ k b found. absurd (ground (arith, found));
        })

  pub Reach-Sound : {s : System git py} → Reach s → Sound s
  Reach-Sound (start s no_runs no_batches above) =
      start-IsSound s.rows.runs s.rows.batches s.next_run s.next_batch no_runs no_batches above
  Reach-Sound (next before step first) = Step-Sound step first (Reach-Sound before)
