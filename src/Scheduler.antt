-- ===== src/Scheduler.antt =====
-- src/kiroku/scheduler/runner.py: the scheduler's tick. `croniter` and the time zones are
-- parameters.
pub mod Ticks
pub mod Raises
use bmu.Prelude.{ℕ, ◌+◌, ◌-◌, String, Bool, true, false, Option, none, some, List, [], ◌∷◌}
use bmu.Prelude.{Result, ok, err, ltb, if◌then◌else◌}
use bmu.Runtime.{Runtime}
use bmu.Settings.{Settings}
use bmu.Models.Job.{Job}
use bmu.Models.Schedule.{Schedule}
use bmu.Models.Run.{RunBatch}
use bmu.Credentials.{Secrets}
use bmu.Queue.{Redis, Codec}
use bmu.Dispatch.Specs.{Db}
use bmu.Dispatch.Fire.{fire_job, Fired}

pub record Cron : Type 1 where
  pub Zone : Type 0
  pub utc : Zone
  -- `ZoneInfo(name)`, if there is such a zone.
  pub zone : String → Option Zone
  -- `croniter(cron, base).get_next()`, which raises for an expression that it cannot read.
  pub get_next : String → Zone → ℕ → Result ℕ

module _ (cron : Cron) where
  -- `_next_fire`
  unfoldable pub next_fire : String → String → ℕ → Result ℕ
  next_fire expression tz_name base =
      cron.get_next expression (elim (cron.zone tz_name) [ none ↦ cron.utc | some z ↦ z ]) base

module _ (cron : Cron) (redis : Redis) (settings : Settings) {py : Runtime} (codec : Codec py)
    (secrets : Secrets) (repr : String → String) where
  -- What one schedule's turn leaves: the exception that escapes, the schedule, the rows, the
  -- streams, and the number of jobs queued.
  pub record Turn : Type 0 where
    pub raised : Option String
    pub schedule : Schedule
    pub db : Db
    pub streams : redis.State
    pub queued : ℕ

  -- `last_run_at = now` and `next_run_at = next_run`
  abbrev pub advance : ℕ → ℕ → Schedule → Schedule
  advance now next_run sched = record sched { last_run_at = some now; next_run_at = some next_run }

  -- The jobs that the firing queued; none, and no exception, if it raised.
  unfoldable pub fired_count : Result RunBatch → ℕ
  fired_count (ok batch) = batch.total - batch.failed
  fired_count (err e) = 0

  -- A schedule that is due, with its next time known.
  unfoldable pub fire_schedule : ℕ → ℕ → ℕ → Db → redis.State → Schedule → Turn
  unfolding fired_count
  fire_schedule now created next_run db s sched =
      if sched.skip_next_run
      then record {
        raised = none;
        schedule = record (advance now next_run sched) { skip_next_run = false };
        db = db;
        streams = s;
        queued = 0;
      }
      else elim sched.job [
        | none ↦ record {
          raised = none;
          schedule = advance now next_run sched;
          db = db;
          streams = s;
          queued = 0;
        }
        | some job ↦
            let f =
              fire_job redis settings codec secrets repr db s job (some sched.id) (some sched.name)
                now created in
            record {
              raised = none;
              schedule = advance now next_run sched;
              db = f.db;
              streams = f.streams;
              queued = fired_count f.answer;
            }
      ]

  abbrev idle : Option String → Db → redis.State → Schedule → Turn
  idle raised db s sched = record {
    raised = raised;
    schedule = sched;
    db = db;
    streams = s;
    queued = 0;
  }

  -- The body of the loop of `_fire_due`.
  unfoldable pub turn : ℕ → ℕ → Db → redis.State → Schedule → Turn
  turn now created db s sched =
      let next_run = next_fire cron sched.cron sched.timezone now in
      elim sched.next_run_at [
        | none ↦ elim next_run [
          | err e ↦ idle (some e) db s sched
          | ok t ↦ idle none db s (record sched { next_run_at = some t })
        ]
        | some at ↦ if ltb now at then idle none db s sched else elim next_run [
          | err e ↦ idle (some e) db s sched
          | ok t ↦ fire_schedule now created t db s sched
        ]
      ]

  -- What a tick leaves.
  pub record Tick : Type 0 where
    pub raised : Option String
    pub schedules : List Schedule
    pub db : Db
    pub streams : redis.State
    pub queued : ℕ

  -- `_fire_due`, over all schedules: those that are not enabled are not selected.
  unfoldable pub fire_due : ℕ → ℕ → Db → redis.State → List Schedule → Tick
  fire_due now created db s [] = record {
    raised = none;
    schedules = [];
    db = db;
    streams = s;
    queued = 0;
  }
  fire_due now created db s (sched ∷ rest) = elim sched.enabled [
    | false ↦
        let later = fire_due now created db s rest in
        record later { schedules = sched ∷ later.schedules }
    | true ↦
        let first = turn now created db s sched in
        elim first.raised [
          | some e ↦ record {
            raised = some e;
            schedules = first.schedule ∷ rest;
            db = first.db;
            streams = first.streams;
            queued = first.queued;
          }
          | none ↦
              let later = fire_due now created first.db first.streams rest in
              record later {
                schedules = first.schedule ∷ later.schedules;
                queued = first.queued + later.queued;
              }
        ]
  ]
