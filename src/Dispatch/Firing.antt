-- ===== src/Dispatch/Firing.antt =====
-- The entries that `fire_job` of src/kiroku/dispatch.py leaves on the streams.
use mathlib.Core.List.{append_assoc, append-nil}
use bmu.Prelude.{ℕ, ◌+◌, String, ◌≡◌, refl, ap, List, [], ◌∷◌, ◌++◌, arith}
use bmu.Prelude.{Option, none, some, Result, ok, err, length, length-append, inl, inr}
use bmu.Prelude.{Result-cases, Option-cases}
use bmu.Runtime.{Runtime}
use bmu.Settings.{Settings}
use bmu.Models.Credential.{Credential}
use bmu.Models.Job.{Job}
use bmu.Models.Run.{Run, RunBatch}
use bmu.Jobs.{JobSpec}
use bmu.Credentials.{Secrets}
use bmu.Queue.{Redis, Codec, Reply, value, response_error, failure, job_stream_for, publish_job}
use bmu.Dispatch.Specs.{Db, Target, device_group_pairs, spec_for, default_credential}
use bmu.Dispatch.Fire.{
  new_runs, count_streams, capacity_error, publish_all, fire_job, Published, Fired,
}
use bmu.Dispatch.Added.{capacity_error_unfilled}
use bmu.Dispatch.NewRuns.{IsLog, length-new_runs}

-- The entries that the specs of the pairs make, for the pairs that have a credential.
abbrev pub entries_for :
    {py : Runtime}
    → Settings
    → Codec py
    → Secrets
    → Option Credential
    → Job
    → Option ℕ
    → List (Target × Run)
    → List (String × String)
entries_for settings codec secrets default job schedule_id [] = []
entries_for settings codec secrets default job schedule_id ((t, run) ∷ rest) =
    let later = entries_for settings codec secrets default job schedule_id rest in
    elim (spec_for secrets default job schedule_id t run) [
      | err e ↦ later
      | ok none ↦ later
      | ok (some spec) ↦ (job_stream_for settings spec.worker_pool, codec.dump_spec spec) ∷ later
    ]

module _ (redis : Redis) (log : IsLog redis) (settings : Settings) {py : Runtime} (codec : Codec py)
    (secrets : Secrets) (repr : String → String) where
  open log use {added, xadd_adds}

  publish_job-added :
      (s s' : redis.State) (spec : JobSpec) (id : String)
      → publish_job redis settings codec s spec ≡ ok (id, s')
      → added s' ≡ added s ++ (job_stream_for settings spec.worker_pool, codec.dump_spec spec) ∷ []
  unfolding publish_job
  publish_job-added s s' spec id h =
      xadd_adds s (job_stream_for settings spec.worker_pool) (codec.dump_spec spec)
        settings.stream_max_len id s'
        (raised_value
          (redis.xadd s (job_stream_for settings spec.worker_pool) (codec.dump_spec spec)
            settings.stream_max_len)
          h)
    where
      raised_value :
          (r : Reply (String × redis.State))
          → ◌≡◌ {A = Result (String × redis.State)}
              (elim r [ value a ↦ ok a | response_error e ↦ err e | failure e ↦ err e ])
              (ok (id, s'))
          → r ≡ value (id, s')
      raised_value (value a) h = ground arith
      raised_value (response_error e) h = cc
      raised_value (failure e) h = cc

  abbrev published :
      redis.State
      → Option Credential
      → Job
      → Option ℕ
      → ℕ
      → List (Target × Run)
      → Published redis settings codec secrets repr
  published s default job schedule_id now pairs =
      publish_all redis settings codec secrets repr s default job schedule_id now pairs

  publish_all-added :
      (s : redis.State) (default : Option Credential) (job : Job) (schedule_id : Option ℕ) (now : ℕ)
      (pairs : List (Target × Run))
      → (published s default job schedule_id now pairs).raised ≡ none
      → added (published s default job schedule_id now pairs).streams
        ≡ added s ++ entries_for settings codec secrets default job schedule_id pairs
  unfolding publish_all
  publish_all-added s default job schedule_id now [] h = rw append-nil
  publish_all-added s default job schedule_id now ((t, run) ∷ rest) h =
      elim (Result-cases (spec_for secrets default job schedule_id t run)) [
        | inr (e, bad) ↦ absurd (ground (arith, bad))
        | inl (o, got) ↦ elim (Option-cases o) [
          | inl absent ↦
              let ih =
                publish_all-added s default job schedule_id now rest
                  (ground (arith, got, absent)) in
              ground (arith, got, absent, ih)
          | inr (spec, there) ↦ elim (Result-cases (publish_job redis settings codec s spec)) [
            | inr (e, bad) ↦ absurd (ground (arith, got, there, bad))
            | inl ((id, s'), sent) ↦
                let ih =
                  publish_all-added s' default job schedule_id now rest
                    (ground (arith, got, there, sent)) in
                let entry : String × String =
                  (job_stream_for settings spec.worker_pool, codec.dump_spec spec) in
                let later = entries_for settings codec secrets default job schedule_id rest in
                ground (
                  arith,
                  got,
                  there,
                  sent,
                  ih,
                  publish_job-added s s' spec id sent,
                  append_assoc (added s) (entry ∷ []) later,
                )
          ]
        ]
      ]

  publish_all-length :
      (s : redis.State) (default : Option Credential) (job : Job) (schedule_id : Option ℕ) (now : ℕ)
      (pairs : List (Target × Run))
      → (published s default job schedule_id now pairs).raised ≡ none
      → (published s default job schedule_id now pairs).failures
          + length (entries_for settings codec secrets default job schedule_id pairs)
        ≡ length pairs
  unfolding publish_all
  publish_all-length s default job schedule_id now [] h = refl
  publish_all-length s default job schedule_id now ((t, run) ∷ rest) h =
      elim (Result-cases (spec_for secrets default job schedule_id t run)) [
        | inr (e, bad) ↦ absurd (ground (arith, bad))
        | inl (o, got) ↦ elim (Option-cases o) [
          | inl absent ↦
              let ih =
                publish_all-length s default job schedule_id now rest
                  (ground (arith, got, absent)) in
              ground (arith, got, absent, ih)
          | inr (spec, there) ↦ elim (Result-cases (publish_job redis settings codec s spec)) [
            | inr (e, bad) ↦ absurd (ground (arith, got, there, bad))
            | inl ((id, s'), sent) ↦
                let ih =
                  publish_all-length s' default job schedule_id now rest
                    (ground (arith, got, there, sent)) in
                ground (arith, got, there, sent, ih)
          ]
        ]
      ]

  abbrev fired :
      Db
      → redis.State
      → Job
      → Option ℕ
      → Option String
      → ℕ
      → ℕ
      → Fired redis settings codec secrets repr
  fired db s job schedule_id schedule_name now created =
      fire_job redis settings codec secrets repr db s job schedule_id schedule_name now created

  -- When `fire_job` returns a batch, the jobs added to the streams and the runs that it failed are
  -- together as many as the job's targets, which is the total of the batch.
  pub fire_job-queued :
      (db : Db) (s : redis.State) (job : Job) (schedule_id : Option ℕ)
      (schedule_name : Option String) (now created : ℕ) (batch : RunBatch)
      → (fired db s job schedule_id schedule_name now created).answer ≡ ok batch
      → (batch.total ≡ length (device_group_pairs job))
        × (length (added (fired db s job schedule_id schedule_name now created).streams)
              + batch.failed
            ≡ length (added s) + batch.total)
  unfolding fire_job
  fire_job-queued db s job schedule_id schedule_name now created batch h =
      let targets = device_group_pairs job in
      let pairs = new_runs db.next_run job schedule_id db.next_batch targets in
      let default = default_credential db.credentials in
      elim (Result-cases
        (capacity_error redis settings codec secrets repr s (count_streams settings [] targets))) [
          | inr (e, bad) ↦ absurd (ground (arith, bad))
          | inl (some message, full) ↦ absurd (
              capacity_error_unfilled redis settings codec secrets repr s
                (count_streams settings [] targets) message full)
          | inl (none, room) ↦
              elim (Option-cases (published s default job schedule_id now pairs).raised) [
                | inr (e, bad) ↦ absurd (ground (arith, room, bad))
                | inl done ↦
                    let p = published s default job schedule_id now pairs in
                    let lengths =
                      ap length (publish_all-added s default job schedule_id now pairs done) in
                    let counted : length (added p.streams) + p.failures
                        ≡ length (added s) + length targets =
                      omega (
                        arith,
                        lengths,
                        length-append (added s)
                            (entries_for settings codec secrets default job schedule_id pairs),
                        publish_all-length s default job schedule_id now pairs done,
                        length-new_runs db.next_run job schedule_id db.next_batch targets,
                      ) in
                    (ground (arith, room, done), ground (arith, room, done, counted))
              ]
        ]
