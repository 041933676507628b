-- ===== src/Scheduler/Ticks.antt =====
-- What a tick of src/kiroku/scheduler/runner.py leaves: every enabled schedule lies in the future,
-- so that nothing fires twice at one time.
use bmu.Prelude.{
  not, ◌⊎◌, ℕ, ◌<◌, String, ◌≡◌, ◌≢◌, refl, Bool, true, false, none, some, List, [], ◌∷◌, arith,
}
use bmu.Prelude.{ok, ltb, All, Result-cases, Option-cases, Bool-cases, inl, inr}
use bmu.Runtime.{Runtime}
use bmu.Settings.{Settings}
use bmu.Models.Schedule.{Schedule}
use bmu.Credentials.{Secrets}
use bmu.Queue.{Redis, Codec}
use bmu.Dispatch.Specs.{Db}
use bmu.Scheduler.{Cron, next_fire, Turn, Tick, turn, fire_schedule, fire_due}

-- croniter's next time is after the base.
pub record IsForward (cron : Cron) : Type 0 where
  pub later :
      (expression : String) (z : cron.Zone) (base t : ℕ)
      → cron.get_next expression z base ≡ ok t
      → base < t

-- The schedule is not enabled, or has a next time after `now`.
abbrev pub IsAhead : ℕ → Schedule → Type 0
IsAhead now sched = (sched.enabled ≡ false) ⊎ ((t : ℕ) × (sched.next_run_at ≡ some t) × (now < t))

-- The tick has something to do for the schedule.
abbrev pub is_due : ℕ → Schedule → Bool
is_due now sched = elim sched.next_run_at [ none ↦ true | some at ↦ not (ltb now at) ]

module _ (cron : Cron) (forward : IsForward cron) (redis : Redis) (settings : Settings)
    {py : Runtime} (codec : Codec py) (secrets : Secrets) (repr : String → String) where
  abbrev tick :
      ℕ → ℕ → Db → redis.State → List Schedule → Tick cron redis settings codec secrets repr
  tick now created db s scheds =
      fire_due cron redis settings codec secrets repr now created db s scheds

  abbrev turned : ℕ → ℕ → Db → redis.State → Schedule → Turn cron redis settings codec secrets repr
  turned now created db s sched = turn cron redis settings codec secrets repr now created db s sched

  next_fire-later :
      (expression tz : String) (base t : ℕ) → next_fire cron expression tz base ≡ ok t → base < t
  unfolding next_fire
  next_fire-later expression tz base t h = forward.later expression _ base t h

  fire_schedule-ahead :
      (now created t : ℕ) (db : Db) (s : redis.State) (sched : Schedule)
      → (fire_schedule cron redis settings codec secrets repr now created t db s
          sched).schedule.next_run_at
        ≡ some t
  unfolding fire_schedule
  fire_schedule-ahead now created t db s sched = ground arith

  turn-ahead :
      (now created : ℕ) (db : Db) (s : redis.State) (sched : Schedule)
      → (turned now created db s sched).raised ≡ none
      → (t : ℕ) × ((turned now created db s sched).schedule.next_run_at ≡ some t) × (now < t)
  unfolding turn
  turn-ahead now created db s sched h =
      elim (Result-cases (next_fire cron sched.cron sched.timezone now)) [
        | inl (t, got) ↦
            let late = next_fire-later sched.cron sched.timezone now t got in
            elim (Option-cases sched.next_run_at) [
              | inl unset ↦ (t, ground (arith, got, unset), late)
              | inr (at, set_at) ↦ elim (Bool-cases (ltb now at)) [
                | inl ahead ↦ (at, ground (arith, set_at, ahead), ground (arith, ahead))
                | inr due ↦ (
                  t,
                  ground (arith, got, set_at, due, fire_schedule-ahead now created t db s sched),
                  late,
                )
              ]
            ]
        | inr (e, bad) ↦ elim (Option-cases sched.next_run_at) [
          | inl unset ↦ absurd (ground (arith, bad, unset))
          | inr (at, set_at) ↦ elim (Bool-cases (ltb now at)) [
            | inl ahead ↦ (at, ground (arith, set_at, ahead), ground (arith, ahead))
            | inr due ↦ absurd (ground (arith, bad, set_at, due))
          ]
        ]
      ]

  -- After a tick that no exception ended, every enabled schedule has its next time after now.
  pub fire_due-IsAhead :
      (now created : ℕ) (db : Db) (s : redis.State) (scheds : List Schedule)
      → (tick now created db s scheds).raised ≡ none
      → All (IsAhead now) (tick now created db s scheds).schedules
  unfolding fire_due
  fire_due-IsAhead now created db s [] h = tt
  fire_due-IsAhead now created db s (sched ∷ rest) h = elim (Bool-cases sched.enabled) [
    | inr off ↦
        let eq : (tick now created db s (sched ∷ rest)).schedules
            ≡ sched ∷ (tick now created db s rest).schedules =
          ground (arith, off) in
        rw eq (inl off, fire_due-IsAhead now created db s rest (ground (arith, off)))
    | inl on ↦ elim (Option-cases (turned now created db s sched).raised) [
      | inr (e, bad) ↦ absurd (ground (arith, on, bad))
      | inl fine ↦
          let first = turned now created db s sched in
          let eq : (tick now created db s (sched ∷ rest)).schedules
              ≡ first.schedule ∷ (tick now created first.db first.streams rest).schedules =
            ground (arith, on, fine) in
          rw eq (
            inr (turn-ahead now created db s sched fine),
            fire_due-IsAhead now created first.db first.streams rest (ground (arith, on, fine)),
          )
    ]
  ]

  turn_again :
      (now created : ℕ) (db : Db) (s : redis.State) (sched : Schedule)
      → IsAhead now sched
      → sched.enabled ≡ true
      → turned now created db s sched
        ≡ record { raised = none; schedule = sched; db = db; streams = s; queued = 0 }
  unfolding turn
  turn_again now created db s sched (inl off) on = absurd (cc)
  turn_again now created db s sched (inr (t, at, late)) on = ground (arith, at, late)

  fire_due_again :
      (now created : ℕ) (db : Db) (s : redis.State) (scheds : List Schedule)
      → All (IsAhead now) scheds
      → tick now created db s scheds
        ≡ record { raised = none; schedules = scheds; db = db; streams = s; queued = 0 }
  unfolding fire_due
  fire_due_again now created db s [] h = refl
  fire_due_again now created db s (sched ∷ rest) h = elim (Bool-cases sched.enabled) [
    | inr off ↦ ground (arith, off, fire_due_again now created db s rest h.1)
    | inl on ↦ ground (
      arith,
      on,
      turn_again now created db s sched h.0 on,
      fire_due_again now created db s rest h.1,
    )
  ]

  -- After a tick that no exception ended, every enabled schedule lies ahead of now, and a second
  -- tick at the same time queues nothing and changes nothing.
  pub fire_due_once :
      (now created created' : ℕ) (db : Db) (s : redis.State) (scheds : List Schedule)
      → (tick now created db s scheds).raised ≡ none
      → let t = tick now created db s scheds in
        All (IsAhead now) t.schedules
        × (tick now created' t.db t.streams t.schedules ≡ record {
          raised = none;
          schedules = t.schedules;
          db = t.db;
          streams = t.streams;
          queued = 0;
        })
  fire_due_once now created created' db s scheds h =
      let ahead = fire_due-IsAhead now created db s scheds h in
      (ahead, fire_due_again now created' _ _ _ ahead)

  -- A due schedule that is to skip its next run fires nothing, is due no more, and will not skip
  -- again; a readable expression gives its next time.
  pub turn_skips :
      (now created t : ℕ) (db : Db) (s : redis.State) (sched : Schedule)
      → is_due now sched ≡ true
      → sched.next_run_at ≢ none
      → sched.skip_next_run ≡ true
      → next_fire cron sched.cron sched.timezone now ≡ ok t
      → let u = turned now created db s sched in
        (u.db ≡ db)
        × (u.streams ≡ s)
        × (u.queued ≡ 0)
        × (u.schedule.skip_next_run ≡ false)
        × (u.schedule.last_run_at ≡ some now)
        × (is_due now u.schedule ≡ false)
  unfolding turn fire_schedule
  turn_skips now created t db s sched due set skip got =
      let late = next_fire-later sched.cron sched.timezone now t got in
      elim (Option-cases sched.next_run_at) [
        | inl unset ↦ absurd (set unset)
        | inr (at, set_at) ↦ (
          ground (arith, set_at, due, skip, got),
          ground (arith, set_at, due, skip, got),
          ground (arith, set_at, due, skip, got),
          ground (arith, set_at, due, skip, got),
          ground (arith, set_at, due, skip, got),
          ground (arith, set_at, due, skip, got, late),
        )
      ]
