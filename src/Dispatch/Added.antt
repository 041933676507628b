-- ===== src/Dispatch/Added.antt =====
-- The rows that `fire_job` of src/kiroku/dispatch.py adds.
use bmu.Prelude.{◌⊎◌, ℕ, ◌+◌, String, ◌≡◌, refl, ◌∙◌, List, [], ◌∷◌, ◌++◌, arith}
use bmu.Prelude.{Option, none, some, ok, err, tally, All, length, inl, inr}
use bmu.Prelude.{Result-cases, Option-cases, Bool-cases, ltb, suc}
use bmu.Runtime.{Runtime}
use bmu.Settings.{Settings}
use bmu.Models.Credential.{Credential}
use bmu.Models.Job.{Job}
use bmu.Models.Run.{Run, RunBatch}
use bmu.Credentials.{Secrets}
use bmu.Queue.{Redis, Codec, job_stream_pressure, publish_job}
use bmu.Dispatch.Specs.{Db, Target, target_ids, device_group_pairs, spec_for, default_credential}
use bmu.Dispatch.Fire.{
  new_batch, new_runs, count_streams, capacity_error, publish_all, fire_job, Published, Fired,
}
use bmu.Dispatch.NewRuns.{
  IsSettled, IsNew, Runs, is_failed, new_runs-IsNew, Runs-fail, Runs-wait, device_ids, pair_devices,
  waiting-Runs,
}

-- The check of the streams never gives a message: it raises where it makes one.
pub capacity_error_unfilled :
    (redis : Redis) (settings : Settings) {py : Runtime} (codec : Codec py) (secrets : Secrets)
    (repr : String → String) (s : redis.State) (counts : List (String × ℕ)) (message : String)
    → capacity_error redis settings codec secrets repr s counts ≡ ok (some message)
    → ⊥
unfolding capacity_error
capacity_error_unfilled redis settings codec secrets repr s [] message h =
    absurd (ground (arith, h))
capacity_error_unfilled redis settings codec secrets repr s ((stream, count) ∷ rest) message h =
    elim (Result-cases (job_stream_pressure redis settings s stream)) [
      | inr (e, bad) ↦ absurd (ground (arith, bad, h))
      | inl ((u, max_len), good) ↦ elim (Bool-cases (ltb settings.high_water (u + count))) [
        | inl full ↦ absurd (ground (arith, good, full, h))
        | inr room ↦
            capacity_error_unfilled redis settings codec secrets repr s rest message
              (ground (arith, good, room, h))
      ]
    ]

-- What `fire_job` adds: a batch that is open and counts its failed runs, and its runs, one for each
-- target, in the order of the targets, each waiting or failed.
pub record IsAdded (db db' : Db) (job : Job) (batch : RunBatch) (rs : List Run) : Type 0 where
  pub batches : db'.batches ≡ db.batches ++ batch ∷ []
  pub runs : db'.runs ≡ db.runs ++ rs
  pub next_batch : db'.next_batch ≡ suc db.next_batch
  pub next_run : db'.next_run ≡ db.next_run + batch.total
  pub id : batch.id ≡ db.next_batch
  pub total : batch.total ≡ length (device_group_pairs job)
  pub succeeded : batch.succeeded ≡ 0
  pub waits : batch.finished_at ≡ none
  pub devices : device_ids rs ≡ target_ids (device_group_pairs job)
  pub settled : All (IsSettled batch.id) rs
  pub counted : tally is_failed rs ≡ batch.failed

module _ (redis : Redis) (settings : Settings) {py : Runtime} (codec : Codec py) (secrets : Secrets)
    (repr : String → String) where
  abbrev published :
      redis.State
      → Option Credential
      → Job
      → Option ℕ
      → ℕ
      → List (Target × Run)
      → Published redis settings codec secrets repr
  published s default job schedule_id now pairs =
      publish_all redis settings codec secrets repr s default job schedule_id now pairs

  published_runs :
      (s : redis.State) (default : Option Credential) (job : Job) (schedule_id : Option ℕ) (now : ℕ)
      (batch_id : ℕ) (pairs : List (Target × Run))
      → All (IsNew batch_id) pairs
      → Runs batch_id
          (published s default job schedule_id now pairs).failures
          pairs
          (published s default job schedule_id now pairs).runs
  unfolding publish_all
  published_runs s default job schedule_id now batch_id [] h = record {
    devices = refl;
    settled = tt;
    counted = refl;
  }
  published_runs s default job schedule_id now batch_id ((t, run) ∷ rest) h =
      elim (Result-cases (spec_for secrets default job schedule_id t run)) [
        | inr (e, bad) ↦ rw (bad, publish_all) (waiting-Runs batch_id ((t, run) ∷ rest) h)
        | inl (none, got) ↦
            rw (got, publish_all)
              (Runs-fail "no credential available" now t run h.0
                (published_runs s default job schedule_id now batch_id rest h.1))
        | inl (some spec, got) ↦ elim (Result-cases (publish_job redis settings codec s spec)) [
          | inr (e, bad) ↦ rw (got, bad, publish_all) (waiting-Runs batch_id ((t, run) ∷ rest) h)
          | inl ((id, s'), sent) ↦
              rw (got, sent, publish_all)
                (Runs-wait t run h.0
                  (published_runs s' default job schedule_id now batch_id rest h.1))
        ]
      ]

  abbrev fired :
      Db
      → redis.State
      → Job
      → Option ℕ
      → Option String
      → ℕ
      → ℕ
      → Fired redis settings codec secrets repr
  fired db s job schedule_id schedule_name now created =
      fire_job redis settings codec secrets repr db s job schedule_id schedule_name now created

  -- `fire_job` raises what the check of the streams raises and leaves the rows and the streams as
  -- they were, or the check passes and it has added a batch that is open, with one run for each
  -- target, in the order of the targets; each run waits for its result or has failed, and the batch
  -- counts the failed ones. It then returns that batch, or raises behind it.
  pub fire_job-runs :
      (db : Db) (s : redis.State) (job : Job) (schedule_id : Option ℕ)
      (schedule_name : Option String) (now created : ℕ)
      → let f = fired db s job schedule_id schedule_name now created in
        ((f.db ≡ db)
          × (f.streams ≡ s)
          × (e : String) × (capacity_error redis settings codec secrets repr s
                (count_streams settings [] (device_group_pairs job))
              ≡ err e)
          × (f.answer ≡ err e))
        ⊎ ((batch : RunBatch) × (rs : List Run) × (capacity_error redis settings codec secrets repr
                s
                (count_streams settings [] (device_group_pairs job))
              ≡ ok none)
            × IsAdded db f.db job batch rs
            × ((f.answer ≡ ok batch) ⊎ ((e : String) × (f.answer ≡ err e))))
  unfolding fire_job
  fire_job-runs db s job schedule_id schedule_name now created =
      let targets = device_group_pairs job in
      let counts = count_streams settings [] targets in
      let pairs = new_runs db.next_run job schedule_id db.next_batch targets in
      let p = published s (default_credential db.credentials) job schedule_id now pairs in
      let fresh = new_runs-IsNew db.next_run job schedule_id db.next_batch targets in
      let same = pair_devices db.next_run job schedule_id db.next_batch targets in
      let batch =
        new_batch redis settings codec secrets repr db job schedule_id schedule_name now created
          (length targets) in
      let rs =
        published_runs s (default_credential db.credentials) job schedule_id now db.next_batch pairs
          fresh in
      elim (Result-cases (capacity_error redis settings codec secrets repr s counts)) [
        | inr (e, bad) ↦ inl (ground (arith, bad), ground (arith, bad), e, bad, ground (arith, bad))
        | inl (some message, full) ↦
            absurd (capacity_error_unfilled redis settings codec secrets repr s counts message full)
        | inl (none, room) ↦ inr (
          record batch { failed = p.failures },
          p.runs,
          room,
          rw (room, fire_job)
              (record {
                batches = refl;
                runs = refl;
                next_batch = refl;
                next_run = refl;
                id = refl;
                total = refl;
                succeeded = refl;
                waits = refl;
                devices = rs.devices ∙ same;
                settled = rs.settled;
                counted = rs.counted;
              }),
          elim (Option-cases p.raised) [
            | inl done ↦ inl (ground (arith, room, done))
            | inr (e, bad) ↦ inr (e, ground (arith, room, bad))
          ],
        )
      ]
