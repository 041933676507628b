-- ===== src/Scheduler/Raises.antt =====
-- A tick of src/kiroku/scheduler/runner.py that raises: where it stops, and what it keeps.
use bmu.Prelude.{
  ℕ, String, ◌≡◌, refl, ap, ◌∙◌, true, none, some, List, [], ◌∷◌, ◌++◌, arith, err, ltb,
  Result-cases, Option-cases, Bool-cases, inl, inr,
}
use bmu.Runtime.{Runtime}
use bmu.Settings.{Settings}
use bmu.Models.Schedule.{Schedule}
use bmu.Credentials.{Secrets}
use bmu.Queue.{Redis, Codec}
use bmu.Dispatch.Specs.{Db}
use bmu.Scheduler.{Cron, next_fire, Turn, Tick, turn, fire_schedule, fire_due}
use bmu.Scheduler.Ticks.{is_due}

module _ (cron : Cron) (redis : Redis) (settings : Settings) {py : Runtime} (codec : Codec py)
    (secrets : Secrets) (repr : String → String) where
  abbrev tick :
      ℕ → ℕ → Db → redis.State → List Schedule → Tick cron redis settings codec secrets repr
  tick now created db s scheds =
      fire_due cron redis settings codec secrets repr now created db s scheds

  abbrev turned : ℕ → ℕ → Db → redis.State → Schedule → Turn cron redis settings codec secrets repr
  turned now created db s sched = turn cron redis settings codec secrets repr now created db s sched

  -- What a tick leaves that stopped at a schedule: what the tick of the schedules before it leaves,
  -- and that schedule and the ones behind it as they were.
  pub record IsStopped (now created : ℕ) (db : Db) (s : redis.State) (scheds before : List Schedule)
      (sched : Schedule) (rest : List Schedule) (message : String) : Type 0 where
    pub here : scheds ≡ before ++ sched ∷ rest
    pub calm : (tick now created db s before).raised ≡ none
    pub enabled : sched.enabled ≡ true
    pub due : is_due now sched ≡ true
    pub unreadable : next_fire cron sched.cron sched.timezone now ≡ err message
    pub schedules :
        (tick now created db s scheds).schedules
        ≡ (tick now created db s before).schedules ++ sched ∷ rest
    pub same_db : (tick now created db s scheds).db ≡ (tick now created db s before).db
    pub same_streams :
        (tick now created db s scheds).streams ≡ (tick now created db s before).streams
    pub same_queued : (tick now created db s scheds).queued ≡ (tick now created db s before).queued

  -- A turn raises only for an expression that cannot be read, and changes nothing then.
  record IsRaised (now created : ℕ) (db : Db) (s : redis.State) (sched : Schedule)
      (message : String) : Type 0 where
    pub due : is_due now sched ≡ true
    pub unreadable : next_fire cron sched.cron sched.timezone now ≡ err message
    pub schedule : (turned now created db s sched).schedule ≡ sched
    pub db' : (turned now created db s sched).db ≡ db
    pub streams : (turned now created db s sched).streams ≡ s
    pub queued : (turned now created db s sched).queued ≡ 0

  turn-IsRaised :
      (now created : ℕ) (db : Db) (s : redis.State) (sched : Schedule) (message : String)
      → (turned now created db s sched).raised ≡ some message
      → IsRaised now created db s sched message
  unfolding turn fire_schedule
  turn-IsRaised now created db s sched message h =
      elim (Result-cases (next_fire cron sched.cron sched.timezone now)) [
        | inl (t, got) ↦ absurd (ground (arith, got, h, Option-cases sched.next_run_at))
        | inr (e, bad) ↦ elim (Option-cases sched.next_run_at) [
          | inl unset ↦ record {
            due = ground (arith, unset);
            unreadable = ground (arith, unset, bad, h);
            schedule = ground (arith, unset, bad);
            db' = ground (arith, unset, bad);
            streams = ground (arith, unset, bad);
            queued = ground (arith, unset, bad);
          }
          | inr (at, set) ↦ elim (Bool-cases (ltb now at)) [
            | inl ahead ↦ absurd (ground (arith, set, ahead, h))
            | inr due ↦ record {
              due = ground (arith, set, due);
              unreadable = ground (arith, set, due, bad, h);
              schedule = ground (arith, set, due, bad);
              db' = ground (arith, set, due, bad);
              streams = ground (arith, set, due, bad);
              queued = ground (arith, set, due, bad);
            }
          ]
        ]
      ]

  -- A tick that raises has stopped at an enabled schedule that is due or has no next time, and whose
  -- expression cannot be read: the schedules before it had their turns, as a tick of their own would
  -- give them, and that schedule and all behind it are as they were.
  pub fire_due-IsStopped :
      (now created : ℕ) (db : Db) (s : redis.State) (scheds : List Schedule) (message : String)
      → (tick now created db s scheds).raised ≡ some message
      → (before : List Schedule) × (sched : Schedule) × (rest : List Schedule) × IsStopped now
          created db s scheds before sched rest message
  unfolding fire_due
  fire_due-IsStopped now created db s [] message h = absurd (ground (arith, h))
  fire_due-IsStopped now created db s (first ∷ others) message h = elim (Bool-cases first.enabled) [
    | inr off ↦
        let (before, sched, rest, stop) =
          fire_due-IsStopped now created db s others message (ground (arith, off, h)) in
        (
          first ∷ before,
          sched,
          rest,
          record {
            here = ap (λ l. first ∷ l) stop.here;
            calm = ground (arith, off, stop.calm);
            enabled = stop.enabled;
            due = stop.due;
            unreadable = stop.unreadable;
            schedules = ground (arith, off, stop.schedules);
            same_db = ground (arith, off, stop.same_db);
            same_streams = ground (arith, off, stop.same_streams);
            same_queued = ground (arith, off, stop.same_queued);
          },
        )
    | inl on ↦
        let u = turned now created db s first in
        elim (Option-cases u.raised) [
          | inr (e, bad) ↦
              let same : e ≡ message = ground (arith, on, bad, h) in
              let r = turn-IsRaised now created db s first message (bad ∙ ap (λ x. some x) same) in
              (
                [],
                first,
                others,
                record {
                  here = refl;
                  calm = refl;
                  enabled = on;
                  due = r.due;
                  unreadable = r.unreadable;
                  schedules = ground (arith, on, bad, r.schedule);
                  same_db = ground (arith, on, bad, r.db');
                  same_streams = ground (arith, on, bad, r.streams);
                  same_queued = ground (arith, on, bad, r.queued);
                },
              )
          | inl quiet ↦
              let (before, sched, rest, stop) =
                fire_due-IsStopped now created u.db u.streams others message
                  (ground (arith, on, quiet, h)) in
              (
                first ∷ before,
                sched,
                rest,
                record {
                  here = ap (λ l. first ∷ l) stop.here;
                  calm = ground (arith, on, quiet, stop.calm);
                  enabled = stop.enabled;
                  due = stop.due;
                  unreadable = stop.unreadable;
                  schedules = ground (arith, on, quiet, stop.schedules);
                  same_db = ground (arith, on, quiet, stop.same_db);
                  same_streams = ground (arith, on, quiet, stop.same_streams);
                  same_queued = ground (arith, on, quiet, stop.same_queued);
                },
              )
        ]
  ]
